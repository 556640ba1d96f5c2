-- ===== src/AsyncClient/Unary.antt =====
-- async_grpc/async_client.h: the unary class. gRPC writes the response and the status into the client
-- before the FINISH event comes.
use async_flatbuffer_grpc.Prelude.{
  ◌≡◌, refl, sym, ◌∙◌, ap, Bool, true, false, ◌&&◌, none, some, List, [], ◌∷◌, ◌++◌, if◌then◌else◌,
  Result, ok, fault, fatal, ◌>>=◌, length, replicate,
}
use mathlib.Core.List.{append-nil, append_assoc}
use async_flatbuffer_grpc.AsyncClient.{
  ClientEvent, finish, read, write, ClientApi, create, start_call, finish_op, AsyncClient,
  Notification, new_client, notify, unary_write_async, unary_handle_finish_event,
  unary_handle_event,
}

abbrev is_finish : ClientEvent → Bool
is_finish finish = true
is_finish _ = false

abbrev pub only_finish : List ClientEvent → Bool
only_finish [] = true
only_finish (e ∷ es) = is_finish e && only_finish es

module _ {api : ClientApi} where
  -- HandleEvent, for events in a row.
  unfoldable pub unary_handle_all : List ClientEvent → AsyncClient api → Result (AsyncClient api)
  unary_handle_all [] c = ok c
  unary_handle_all (e ∷ es) c = unary_handle_event e c >>= unary_handle_all es

  -- gRPC's answer.
  abbrev pub answered : api.Response → api.Status → AsyncClient api → AsyncClient api
  answered response status c = record c { response = response; status = status }

  abbrev outcome :
      List ClientEvent → List (Notification api) → AsyncClient api → Result (AsyncClient api)
  outcome es ns c = if only_finish es then ok (record c { notified = ns }) else fault fatal

  -- What a FINISH event tells the callback.
  abbrev news : AsyncClient api → Notification api
  news c = (c.status, if api.is_ok c.status then some c.response else none)

  finished :
      (c : AsyncClient api)
      → c.callback ≡ true
      → unary_handle_event finish c ≡ ok (record c { notified = c.notified ++ news c ∷ [] })
  unfolding unary_handle_event unary_handle_finish_event notify
  finished c h = ap (λ b. ok (if b then record c { notified = c.notified ++ news c ∷ [] } else c)) h

  handled :
      (es : List ClientEvent) (c : AsyncClient api)
      → c.callback ≡ true
      → unary_handle_all es c ≡ outcome es (c.notified ++ replicate (length es) (news c)) c
  unfolding unary_handle_all unary_handle_event
  handled [] c h = ap (λ ns. outcome [] ns c) (sym (append-nil c.notified))
  handled (finish ∷ es) c h =
      let c1 : AsyncClient api = record c { notified = c.notified ++ news c ∷ [] } in
      ap (λ m. m >>= unary_handle_all es) (finished c h)
      ∙ handled es c1 h
      ∙ ap (λ ns. outcome es ns c)
          (append_assoc c.notified (news c ∷ []) (replicate (length es) (news c)))
  handled (read ∷ es) c h = refl
  handled (write ∷ es) c h = refl

  -- A unary client with a callback asks gRPC to create the call, to start it and to finish it. Once
  -- gRPC gave it a response and a status, each FINISH event tells the callback that status, with the
  -- response if the status is ok and without one if not; any other event is a LOG(FATAL).
  pub unary_notifications :
      (empty_response response : api.Response) (request : api.Request) (status : api.Status)
      (es : List ClientEvent)
      → unary_handle_all es
          (answered response status (unary_write_async request (new_client true empty_response)))
        ≡ (if only_finish es
            then ok (record (new_client true empty_response) {
              started = true;
              asked = create request ∷ start_call ∷ finish_op ∷ [];
              response = response;
              status = status;
              notified =
                  replicate (length es) (status, if api.is_ok status then some response else none);
            })
            else fault fatal)
  unfolding unary_write_async new_client
  unary_notifications empty_response response request status es =
      handled es
        (answered response status (unary_write_async request (new_client true empty_response))) refl
