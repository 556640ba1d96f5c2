-- ===== src/Rpc/Life.antt =====
-- async_grpc/rpc.h: what gRPC sees of one Rpc over any sequence of Send and Finish calls, of
-- WRITE_NEEDED events and of completed operations.
use mathlib.Core.List.{append_assoc, append-nil, map-append}
use async_flatbuffer_grpc.Prelude.{
  ℕ, ◌≡◌, refl, Bool, true, false, List, [], ◌∷◌, ◌++◌, map, arith, Result, ok, ◌>>=◌, ◌≤◌, length,
  inl, inr, ◌⊎◌,
}
use async_flatbuffer_grpc.Api.{Api, Event, write, finish, RpcHandlerInfo, SendItem, GrpcCall}
use async_flatbuffer_grpc.Rpc.{
  Rpc, make_rpc, enqueue_message, set_rpc_event_state, handle_send_queue,
}
use async_flatbuffer_grpc.Rpc.SendQueue.{
  sent, sent_call, HasInterface, handle_send_queue-cases, after_send,
}

-- EnqueueMessage from any thread; a WRITE_NEEDED event; the oldest operation of gRPC is done, and
-- its event was handled: a WRITE event goes on to HandleSendQueue, a FINISH event does not.
pub data Happening (api : Api) : Type 0 where
  enqueues : SendItem api → Happening api
  write_needed_handled : Happening api
  operation_done : Happening api

-- The pending flags of WRITE and FINISH against the tags that are out.
abbrev pub Flags : Bool → Bool → List Event → Type 0
Flags false false es = es ≡ []
Flags true false es = es ≡ write ∷ []
Flags false true es = es ≡ finish ∷ []
Flags true true es = ⊥

module _ (api : Api) where
  -- The Rpc; all items that were ever enqueued; all calls made of gRPC; the tags not yet back.
  pub record Life : Type 0 where
    pub rpc : Rpc api
    pub enqueued : List (SendItem api)
    pub issued : List (GrpcCall api)
    pub outstanding : List Event

module _ {api : Api} where
  send_more : Life api → Result (Life api)
  send_more s = do
    result ← handle_send_queue s.rpc
    ok (record s {
      rpc = result.0;
      issued = s.issued ++ result.1;
      outstanding = s.outstanding ++ map (λ c. c.tag) result.1;
    })

  -- The event of the operation is not pending any more.
  not_pending : Event → Life api → Result (Life api)
  not_pending e s = do r ← set_rpc_event_state e false s.rpc; ok (record s { rpc = r })

  oldest_done : List Event → Life api → Result (Life api)
  unfolding send_more not_pending
  oldest_done [] s = ok s
  oldest_done (write ∷ es) s = do
    s1 ← not_pending write (record s { outstanding = es })
    send_more s1
  oldest_done (e ∷ es) s = not_pending e (record s { outstanding = es })

  pub happen : Life api → Happening api → Result (Life api)
  unfolding send_more oldest_done
  happen s (enqueues item) =
      ok (record s { rpc = enqueue_message item s.rpc; enqueued = s.enqueued ++ item ∷ [] })
  happen s write_needed_handled = send_more s
  happen s operation_done = oldest_done s.outstanding s

  pub live : Life api → List (Happening api) → Result (Life api)
  live s [] = ok s
  live s (h ∷ hs) = do s1 ← happen s h; live s1 hs

  pub born : ℕ → ℕ → ℕ → RpcHandlerInfo api → Life api
  born m c q info = record {
    rpc = make_rpc m c q info;
    enqueued = [];
    issued = [];
    outstanding = [];
  }

  pub record Inv (info : RpcHandlerInfo api) (s : Life api) : Type 0 where
    pub same_info : s.rpc.rpc_handler_info ≡ info
    pub interface : HasInterface s.rpc
    pub in_order :
        map (sent info.rpc_type) s.enqueued ≡ s.issued ++ map (sent info.rpc_type) s.rpc.send_queue
    pub flags : Flags s.rpc.write_event.pending s.rpc.finish_event.pending s.outstanding

  enqueue-Inv :
      (info : RpcHandlerInfo api) (s : Life api) (item : SendItem api)
      → Inv info s
      → (t : Life api) × (happen s (enqueues item) ≡ ok t) × Inv info t
  unfolding happen enqueue_message
  enqueue-Inv info s item v = (
    _,
    refl,
    record {
      same_info = v.same_info;
      interface = v.interface;
      in_order = ground (
        arith,
        map-append (sent info.rpc_type) s.enqueued (item ∷ []),
        map-append (sent info.rpc_type) s.rpc.send_queue (item ∷ []),
        append_assoc s.issued (map (sent info.rpc_type) s.rpc.send_queue)
            (sent info.rpc_type item ∷ []),
      );
      flags = v.flags;
    },
  )

  abbrev after : Life api → Rpc api → List (GrpcCall api) → Life api
  after s r calls = record s {
    rpc = r;
    issued = s.issued ++ calls;
    outstanding = s.outstanding ++ map (λ c. c.tag) calls;
  }

  idle-Inv : (info : RpcHandlerInfo api) (s : Life api) → Inv info s → Inv info (after s s.rpc [])
  idle-Inv info s v = record {
    same_info = v.same_info;
    interface = v.interface;
    in_order = rw (append-nil s.issued) v.in_order;
    flags = rw (append-nil s.outstanding) v.flags;
  }

  sent-Inv :
      (info : RpcHandlerInfo api) (s : Life api) (item : SendItem api) (rest : List (SendItem api))
      → s.rpc.send_queue ≡ item ∷ rest
      → s.rpc.write_event.pending ≡ false
      → s.rpc.finish_event.pending ≡ false
      → Inv info s
      → Inv info (
          after s
            (after_send item (record (s.rpc) { send_queue = rest }))
            (sent s.rpc.rpc_handler_info.rpc_type item ∷ []))
  unfolding sent_call
  sent-Inv info s item rest eq ew ef v = record {
    same_info = ground arith;
    interface = ground arith;
    in_order = ground (
      arith,
      append_assoc s.issued (sent info.rpc_type item ∷ []) (map (sent info.rpc_type) rest),
    );
    flags = ground arith;
  }

  send_more-Inv :
      (info : RpcHandlerInfo api) (s : Life api)
      → Inv info s
      → (t : Life api) × (send_more s ≡ ok t) × Inv info t
  unfolding send_more
  send_more-Inv info s v = elim (handle_send_queue-cases s.rpc v.interface) [
    | inl e ↦ (after s s.rpc [], rw e refl, idle-Inv info s v)
    | inr (item, rest, eq, ew, ef, e) ↦ (_, rw e refl, sent-Inv info s item rest eq ew ef v)
  ]

  -- The state after the event of a write, or of a finish, was handled.
  abbrev write_done : Life api → List Event → Life api
  write_done s es = record s {
    rpc = record (s.rpc) { write_event = record (s.rpc.write_event) { pending = false } };
    outstanding = es;
  }

  abbrev finish_done : Life api → List Event → Life api
  finish_done s es = record s {
    rpc = record (s.rpc) { finish_event = record (s.rpc.finish_event) { pending = false } };
    outstanding = es;
  }

  module _ (info : RpcHandlerInfo api) (s : Life api) (v : Inv info s) where
    write_done-Inv : (es : List Event) → s.outstanding ≡ write ∷ es → Inv info (write_done s es)
    write_done-Inv es eo = record {
      same_info = v.same_info;
      interface = v.interface;
      in_order = v.in_order;
      flags = ground (arith, v.flags);
    }

    finish_done-Inv : (es : List Event) → s.outstanding ≡ finish ∷ es → Inv info (finish_done s es)
    finish_done-Inv es eo = record {
      same_info = v.same_info;
      interface = v.interface;
      in_order = v.in_order;
      flags = ground (arith, v.flags);
    }

    -- No other tag is out.
    write_or_finish :
        (e : Event) (es : List Event) → s.outstanding ≡ e ∷ es → (e ≡ write) ⊎ (e ≡ finish)
    write_or_finish e es eo = ground (arith, v.flags)

  oldest_done-Inv :
      (info : RpcHandlerInfo api) (s : Life api) (es : List Event)
      → s.outstanding ≡ es
      → Inv info s
      → (t : Life api) × (oldest_done es s ≡ ok t) × Inv info t
  unfolding oldest_done not_pending set_rpc_event_state
  oldest_done-Inv info s [] eo v = (s, refl, v)
  oldest_done-Inv info s (write ∷ es) eo v =
      send_more-Inv info (write_done s es) (write_done-Inv info s v es eo)
  oldest_done-Inv info s (finish ∷ es) eo v =
      (finish_done s es, refl, finish_done-Inv info s v es eo)
  oldest_done-Inv info s (e ∷ es) eo v = absurd (ground (arith, write_or_finish info s v e es eo))

  happen-Inv :
      (info : RpcHandlerInfo api) (s : Life api) (h : Happening api)
      → Inv info s
      → (t : Life api) × (happen s h ≡ ok t) × Inv info t
  unfolding happen
  happen-Inv info s (enqueues item) v = enqueue-Inv info s item v
  happen-Inv info s write_needed_handled v = send_more-Inv info s v
  happen-Inv info s operation_done v = oldest_done-Inv info s s.outstanding refl v

  live-Inv :
      (info : RpcHandlerInfo api) (s : Life api) (hs : List (Happening api))
      → Inv info s
      → (t : Life api) × (live s hs ≡ ok t) × Inv info t
  unfolding live
  live-Inv info s [] v = (s, refl, v)
  live-Inv info s (h ∷ hs) v =
      let (s1, e, v1) = happen-Inv info s h v in
      let (t, e', v') = live-Inv info s1 hs v1 in (t, rw e e', v')

  born-Inv : (m c q : ℕ) (info : RpcHandlerInfo api) → Inv info (born m c q info)
  unfolding born make_rpc
  born-Inv m c q info = ground arith

  -- From a new Rpc, over any sequence of calls of Send and Finish, handled WRITE_NEEDED events and
  -- completed operations, no CHECK fails and no pointer is null; the calls that the Rpc made of
  -- gRPC, followed by the items still in its send queue, are all the items that were enqueued, in
  -- their order, each as the call that its type wants; and at most one write or finish is
  -- outstanding at gRPC at a time.
  pub live_in_order :
      (m c q : ℕ) (info : RpcHandlerInfo api) (hs : List (Happening api))
      → (t : Life api) × (live (born m c q info) hs ≡ ok t)
        × (map (sent info.rpc_type) t.enqueued
            ≡ t.issued ++ map (sent info.rpc_type) t.rpc.send_queue)
        × (length t.outstanding ≤ 1)
  live_in_order m c q info hs =
      let (t, e, v) = live-Inv info (born m c q info) hs (born-Inv m c q info) in
      (t, e, v.in_order, ground (arith, v.flags))
