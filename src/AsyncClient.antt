-- ===== src/AsyncClient.antt =====
-- async_grpc/async_client.h: the client whose calls end in a callback. gRPC's answers are the
-- events that HandleEvent is given; what a client asks of gRPC is a log.
use async_flatbuffer_grpc.Prelude.{
  ℕ, ◌≡◌, refl, Bool, true, false, Option, none, some, List, [], ◌∷◌, ◌++◌, arith, if◌then◌else◌,
  Result, ok, fault, fatal, null_pointer, check_failed, ◌>>=◌,
}
pub mod Invariant
pub mod Stream
pub mod Unary
pub mod Dispatching

-- CompletionQueue::ClientEvent::Event, of async_grpc/completion_queue_pool.h.
pub data ClientEvent : Type 0 where
  finish read write : ClientEvent

-- ::grpc::Status with `ok()`, Status() and the two INTERNAL statuses that the code makes.
pub record ClientApi : Type 1 where
  pub Request : Type 0
  pub Response : Type 0
  pub Status : Type 0
  pub is_ok : Status → Bool
  pub ok_status : Status
  pub write_failed : Status
  pub finish_failed : Status

-- What gRPC completes for a client. A READ that is ok brings a message; no other event does.
pub record Completion (api : ClientApi) : Type 0 where
  pub event : ClientEvent
  pub is_ok : Bool
  pub message : api.Response

abbrev pub has_message : ClientEvent → Bool → Bool
has_message read ok' = ok'
has_message _ ok' = false

-- What a client asks of its response reader.
pub data ReaderOp (api : ClientApi) : Type 0 where
  create_and_start : api.Request → ReaderOp api
  create : api.Request → ReaderOp api
  start_call : ReaderOp api
  read_op : ReaderOp api
  finish_op : ReaderOp api

module _ (api : ClientApi) where
  -- A call of the callback: its status, and the response unless that is the null pointer.
  abbrev pub Notification : Type 0
  Notification = api.Status × Option api.Response

  -- `callback` is whether the function is set; `started` whether there is a response reader.
  pub record AsyncClient : Type 0 where
    pub callback : Bool
    pub started : Bool
    pub response : api.Response
    pub status : api.Status
    pub finish_status : api.Status
    pub asked : List (ReaderOp api)
    pub notified : List Notification

module _ {api : ClientApi} where
  unfoldable pub new_client : Bool → api.Response → AsyncClient api
  new_client callback empty_response = record {
    callback = callback;
    started = false;
    response = empty_response;
    status = api.ok_status;
    finish_status = api.ok_status;
    asked = [];
    notified = [];
  }

  unfoldable pub notify : Notification api → AsyncClient api → AsyncClient api
  notify n c = if c.callback then record c { notified = c.notified ++ n ∷ [] } else c

  -- A call through the response reader.
  unfoldable pub ask : ReaderOp api → AsyncClient api → Result (AsyncClient api)
  ask op c = if c.started then ok (record c { asked = c.asked ++ op ∷ [] }) else fault null_pointer

  -- The unary class.
  unfoldable pub unary_write_async : api.Request → AsyncClient api → AsyncClient api
  unary_write_async request c = record c {
    started = true;
    asked = c.asked ++ create request ∷ start_call ∷ finish_op ∷ [];
  }

  unfoldable pub unary_handle_finish_event : AsyncClient api → AsyncClient api
  unary_handle_finish_event c =
      notify (c.status, if api.is_ok c.status then some c.response else none) c

  unfoldable pub unary_handle_event : ClientEvent → AsyncClient api → Result (AsyncClient api)
  unary_handle_event finish c = ok (unary_handle_finish_event c)
  unary_handle_event _ c = fault fatal

  -- The server-streaming class.
  unfoldable pub stream_write_async : api.Request → AsyncClient api → AsyncClient api
  stream_write_async request c = record c {
    started = true;
    asked = c.asked ++ create_and_start request ∷ [];
  }

  unfoldable pub handle_write_event : Bool → AsyncClient api → Result (AsyncClient api)
  handle_write_event true c = ask read_op c
  handle_write_event false c =
      let status = api.write_failed in
      let c1 = record (notify (status, none) c) { callback = false } in
      ask finish_op (record c1 { finish_status = status })

  -- `response_` holds the message of the READ.
  unfoldable pub handle_read_event : Bool → AsyncClient api → Result (AsyncClient api)
  handle_read_event true c = ask read_op (notify (api.ok_status, some c.response) c)
  handle_read_event false c = ask finish_op (record c { finish_status = api.ok_status })

  unfoldable pub handle_finish_event : Bool → AsyncClient api → AsyncClient api
  handle_finish_event ok' c =
      record (notify (if ok' then api.ok_status else api.finish_failed, none) c) {
        callback = false;
      }

  unfoldable pub stream_handle_event :
      ClientEvent → Bool → AsyncClient api → Result (AsyncClient api)
  stream_handle_event write ok' c = handle_write_event ok' c
  stream_handle_event read ok' c = handle_read_event ok' c
  stream_handle_event finish ok' c = ok (handle_finish_event ok' c)

  -- gRPC writes the message of a READ into `response_`, before the event comes.
  unfoldable pub receive : Completion api → AsyncClient api → AsyncClient api
  receive e c = if has_message e.event e.is_ok then record c { response = e.message } else c

  unfoldable pub complete : Completion api → AsyncClient api → Result (AsyncClient api)
  complete e c = stream_handle_event e.event e.is_ok (receive e c)
