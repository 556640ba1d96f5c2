-- ===== src/Rpc/SendQueue.antt =====
-- async_grpc/rpc.h, the sending half of class Rpc: EnqueueMessage, HandleSendQueue, PerformFinish
-- and PerformWrite, over the life of an Rpc.
use async_flatbuffer_grpc.Prelude.{
  ◌≡◌, refl, Bool, true, false, Option, none, some, List, [], ◌∷◌, arith, ok, ◌⊎◌, inl, inr,
}
use async_flatbuffer_grpc.Api.{
  Api, Event, write, finish, RpcType, normal_rpc, client_streaming, server_streaming,
  bidi_streaming, response_writer, async_reader, async_reader_writer, async_writer, SendItem,
  GrpcCall, write_op, finish_op, finish_with_error, finish_stream,
}
use async_flatbuffer_grpc.Rpc.{Rpc, initialize_readers_and_writers, send_front, handle_send_queue}

module _ {api : Api} where
  -- The call of gRPC that an item becomes: by its type an Rpc streams its responses or has one.
  unfoldable pub sent_call : RpcType → Option api.Response → api.Status → GrpcCall api
  sent_call bidi_streaming (some m) status = record {
    via = some async_reader_writer;
    op = write_op m;
    tag = write;
  }
  sent_call bidi_streaming none status = record {
    via = some async_reader_writer;
    op = finish_stream status;
    tag = finish;
  }
  sent_call server_streaming (some m) status = record {
    via = some async_writer;
    op = write_op m;
    tag = write;
  }
  sent_call server_streaming none status = record {
    via = some async_writer;
    op = finish_stream status;
    tag = finish;
  }
  sent_call client_streaming (some m) status = record {
    via = some async_reader;
    op = finish_op m status;
    tag = finish;
  }
  sent_call client_streaming none status = record {
    via = some async_reader;
    op = finish_with_error status;
    tag = finish;
  }
  sent_call normal_rpc (some m) status = record {
    via = some response_writer;
    op = finish_op m status;
    tag = finish;
  }
  sent_call normal_rpc none status = record {
    via = some response_writer;
    op = finish_with_error status;
    tag = finish;
  }

  abbrev pub sent : RpcType → SendItem api → GrpcCall api
  sent t item = sent_call t item.msg item.status

  -- The gRPC object of the Rpc is there.
  abbrev pub HasInterface : Rpc api → Type 0
  HasInterface r = r.interface ≡ some (initialize_readers_and_writers r.rpc_handler_info.rpc_type)

  -- The Rpc after an item went out: the event of the call is pending.
  abbrev mark : Event → Rpc api → Rpc api
  mark write r = record r { write_event = record (r.write_event) { pending = true } }
  mark _ r = record r { finish_event = record (r.finish_event) { pending = true } }

  abbrev set_response : Option api.Response → Rpc api → Rpc api
  set_response none r = r
  set_response (some m) r = record r { response = m }

  abbrev pub after_send : SendItem api → Rpc api → Rpc api
  after_send item r = set_response item.msg (mark (sent r.rpc_handler_info.rpc_type item).tag r)

  pub send_front_lem :
      (item : SendItem api) (r : Rpc api)
      → HasInterface r
      → send_front item r ≡ ok (after_send item r, sent r.rpc_handler_info.rpc_type item ∷ [])
  unfolding send_front sent_call
  send_front_lem item r h = ground arith

  -- What HandleSendQueue does, for every state of the queue and of the two events: nothing if the
  -- queue is empty or a write or a finish is under way, and otherwise it takes the front item and
  -- makes exactly the one call of gRPC that the item stands for, with its event pending.
  abbrev pub SendsFront : Rpc api → List (SendItem api) → Bool → Bool → Type 0
  SendsFront r (item ∷ rest) false false =
      handle_send_queue r
      ≡ ok (
        after_send item (record r { send_queue = rest }),
        sent r.rpc_handler_info.rpc_type item ∷ [],
      )
  SendsFront r _ _ _ = handle_send_queue r ≡ ok (r, [])

  handle_send_queue-front :
      (q : List (SendItem api)) (w f : Bool) (r : Rpc api)
      → r.send_queue ≡ q
      → r.write_event.pending ≡ w
      → r.finish_event.pending ≡ f
      → HasInterface r
      → SendsFront r q w f
  unfolding handle_send_queue
  handle_send_queue-front [] w f r q p o h = ground arith
  handle_send_queue-front (item ∷ rest) true f r q p o h = ground arith
  handle_send_queue-front (item ∷ rest) false true r q p o h = ground arith
  handle_send_queue-front (item ∷ rest) false false r q p o h =
      ground (arith, send_front_lem item (record r { send_queue = rest }))

  -- For every Rpc that holds the gRPC object of its type: HandleSendQueue does nothing if the send
  -- queue is empty or a write or a finish is pending. Otherwise it takes the front item off, makes
  -- the one call of gRPC that the item is for that type (a write, or one of the ways to finish), and
  -- marks that call's event as pending.
  pub handle_send_queue_lem :
      (r : Rpc api)
      → HasInterface r
      → SendsFront r r.send_queue r.write_event.pending r.finish_event.pending
  handle_send_queue_lem r h = handle_send_queue-front r.send_queue _ _ r refl refl refl h

  -- The same, as a choice of two.
  pub handle_send_queue-cases :
      (r : Rpc api)
      → HasInterface r
      → (handle_send_queue r ≡ ok (r, []))
        ⊎ ((item : SendItem api) × (rest : List (SendItem api)) × (r.send_queue ≡ item ∷ rest)
            × (r.write_event.pending ≡ false)
            × (r.finish_event.pending ≡ false)
            × (handle_send_queue r
                ≡ ok (
                  after_send item (record r { send_queue = rest }),
                  sent r.rpc_handler_info.rpc_type item ∷ [],
                )))
  handle_send_queue-cases r h =
      cases r.send_queue r.write_event.pending r.finish_event.pending refl refl refl
    where
      cases :
          (q : List (SendItem api)) (w f : Bool)
          → r.send_queue ≡ q
          → r.write_event.pending ≡ w
          → r.finish_event.pending ≡ f
          → (handle_send_queue r ≡ ok (r, []))
            ⊎ ((item : SendItem api) × (rest : List (SendItem api)) × (r.send_queue ≡ item ∷ rest)
                × (r.write_event.pending ≡ false)
                × (r.finish_event.pending ≡ false)
                × (handle_send_queue r
                    ≡ ok (
                      after_send item (record r { send_queue = rest }),
                      sent r.rpc_handler_info.rpc_type item ∷ [],
                    )))
      cases [] w f q o p = inl (handle_send_queue-front [] w f r q o p h)
      cases (item ∷ rest) true f q o p =
          inl (handle_send_queue-front (item ∷ rest) true f r q o p h)
      cases (item ∷ rest) false true q o p =
          inl (handle_send_queue-front (item ∷ rest) false true r q o p h)
      cases (item ∷ rest) false false q o p =
          inr (item, rest, q, o, p, handle_send_queue-front (item ∷ rest) false false r q o p h)
