-- ===== src/AsyncClient/Invariant.antt =====
-- async_grpc/async_client.h, AsyncClient<..., SERVER_STREAMING>: what holds of a client after each event.
use mathlib.Core.List.{append-nil}
use async_flatbuffer_grpc.Prelude.{
  ◌≡◌, refl, Bool, true, false, none, some, List, [], ◌∷◌, ◌++◌, arith, if◌then◌else◌, ok, inl, inr,
  ap, Bool-cases, sym, ◌∙◌,
}
use async_flatbuffer_grpc.AsyncClient.{
  ClientEvent, finish, read, write, ClientApi, ReaderOp, read_op, finish_op, Notification,
  AsyncClient, notify, ask, handle_write_event, handle_read_event, handle_finish_event,
  stream_handle_event, Completion, has_message, receive, complete,
}

module _ (api : ClientApi) where
  -- Each notification so far is a response, with Status().
  abbrev pub OnlyResponses : List (Notification api) → Type 0
  OnlyResponses [] = Unit {0}
  OnlyResponses ((s, none) ∷ ns) = ⊥
  OnlyResponses ((s, some m) ∷ ns) = (s ≡ api.ok_status) × OnlyResponses ns

  -- Responses, and then one notification without a response, which is the last.
  abbrev pub Ended : List (Notification api) → Type 0
  Ended [] = ⊥
  Ended ((s, none) ∷ []) = Unit {0}
  Ended ((s, none) ∷ n ∷ ns) = ⊥
  Ended ((s, some m) ∷ ns) = (s ≡ api.ok_status) × Ended ns

  OnlyResponses-append :
      (ns : List (Notification api)) (m : api.Response)
      → OnlyResponses ns
      → OnlyResponses (ns ++ (api.ok_status, some m) ∷ [])
  OnlyResponses-append [] m h = (refl, tt)
  OnlyResponses-append ((s, none) ∷ ns) m h = absurd h
  OnlyResponses-append ((s, some m') ∷ ns) m h = (h.0, OnlyResponses-append ns m h.1)

  Ended-append :
      (ns : List (Notification api)) (s : api.Status)
      → OnlyResponses ns
      → Ended (ns ++ (s, none) ∷ [])
  Ended-append [] s h = tt
  Ended-append ((s', none) ∷ ns) s h = absurd h
  Ended-append ((s', some m) ∷ ns) s h = (h.0, Ended-append ns s h.1)

  -- The callback is set as long as only responses went out.
  abbrev pub Told : Bool → List (Notification api) → Type 0
  Told true ns = OnlyResponses ns
  Told false ns = Ended ns

  pub record Inv (c : AsyncClient api) : Type 0 where
    pub has_reader : c.started ≡ true
    pub told : Told c.callback c.notified

  -- The next operation of gRPC after an event: none after a finish.
  abbrev pub follow_up : ClientEvent → Bool → List (ReaderOp api)
  follow_up write true = read_op ∷ []
  follow_up write false = finish_op ∷ []
  follow_up read true = read_op ∷ []
  follow_up read false = finish_op ∷ []
  follow_up finish ok' = []

  module _ (c : AsyncClient api) where
    Told-last :
        (s : api.Status) (b : Bool)
        → c.callback ≡ b
        → Told b c.notified
        → Ended (notify (s, none) c).notified
    unfolding notify
    Told-last s true e h = rw (e, notify) (Ended-append c.notified s h)
    Told-last s false e h = rw (e, notify) h

    Told-response :
        (m : api.Response) (b : Bool)
        → c.callback ≡ b
        → Told b c.notified
        → Told b (notify (api.ok_status, some m) c).notified
    unfolding notify
    Told-response m true e h = rw (e, notify) (OnlyResponses-append c.notified m h)
    Told-response m false e h = rw (e, notify) h

  -- `notify` adds to the log of notifications alone.
  notify_kept :
      (n : Notification api) (c : AsyncClient api)
      → ((notify n c).started ≡ c.started)
        × ((notify n c).asked ≡ c.asked)
        × ((notify n c).callback ≡ c.callback)
  unfolding notify
  notify_kept n c = ground arith

  asks :
      (op : ReaderOp api) (c : AsyncClient api)
      → c.started ≡ true
      → ask op c ≡ ok (record c { asked = c.asked ++ op ∷ [] })
  unfolding ask
  asks op c h = ground arith

  abbrev refused : AsyncClient api → AsyncClient api
  refused c = record (notify (api.write_failed, none) c) {
    callback = false;
    finish_status = api.write_failed;
  }

  -- One event: what it leads to, whichever it is.
  pub step-Inv :
      (c : AsyncClient api) (e : ClientEvent) (ok' : Bool)
      → Inv c
      → (c' : AsyncClient api) × (stream_handle_event e ok' c ≡ ok c')
        × Inv c'
        × (c'.asked ≡ c.asked ++ follow_up e ok')
  unfolding stream_handle_event handle_write_event handle_read_event handle_finish_event
  step-Inv c write true v =
      (_, asks read_op c v.has_reader, record { has_reader = v.has_reader; told = v.told }, refl)
  step-Inv c write false v =
      let kept = notify_kept (api.write_failed, none) c in
      (
        _,
        asks finish_op (refused c) (kept.0 ∙ v.has_reader),
        record {
          has_reader = kept.0 ∙ v.has_reader;
          told = Told-last c api.write_failed c.callback refl v.told;
        },
        ap (λ l. l ++ finish_op ∷ []) kept.1,
      )
  step-Inv c read true v =
      let kept = notify_kept (api.ok_status, some c.response) c in
      (
        _,
        asks read_op (notify (api.ok_status, some c.response) c) (kept.0 ∙ v.has_reader),
        record {
          has_reader = kept.0 ∙ v.has_reader;
          told = rw kept.2 (Told-response c c.response c.callback refl v.told);
        },
        ap (λ l. l ++ read_op ∷ []) kept.1,
      )
  step-Inv c read false v = (
    _,
    asks finish_op (record c { finish_status = api.ok_status }) v.has_reader,
    record { has_reader = v.has_reader; told = v.told },
    refl,
  )
  step-Inv c finish ok' v =
      let status = if ok' then api.ok_status else api.finish_failed in
      let kept = notify_kept (status, none) c in
      (
        handle_finish_event ok' c,
        refl,
        record {
          has_reader = kept.0 ∙ v.has_reader;
          told = Told-last c status c.callback refl v.told;
        },
        kept.1 ∙ sym (append-nil c.asked),
      )

  received_asked : (c : AsyncClient api) (e : Completion api) → (receive e c).asked ≡ c.asked
  unfolding receive
  received_asked c e = ground arith

  received-Inv : (c : AsyncClient api) (e : Completion api) → Inv c → Inv (receive e c)
  unfolding receive
  received-Inv c e v = elim (Bool-cases (has_message e.event e.is_ok)) [
    | inl m ↦ rw m (record { has_reader = v.has_reader; told = v.told })
    | inr m ↦ rw m v
  ]

  pub complete-Inv :
      (c : AsyncClient api) (e : Completion api)
      → Inv c
      → (c' : AsyncClient api) × (complete e c ≡ ok c')
        × Inv c'
        × (c'.asked ≡ c.asked ++ follow_up e.event e.is_ok)
  unfolding complete
  complete-Inv c e v =
      let (c', run, v', q) = step-Inv (receive e c) e.event e.is_ok (received-Inv c e v) in
      (c', run, v', q ∙ ap (λ l. l ++ follow_up e.event e.is_ok) (received_asked c e))
