-- ===== src/Service/Handlers.antt =====
-- async_grpc/service.cc: asking for the next request and sending the next item, for a connected Rpc,
-- end without a fault, and every tag stays accounted for.
use async_flatbuffer_grpc.Prelude.{
  ℕ, ◌≡◌, refl, ap, ◌∙◌, true, false, List, [], ◌∷◌, arith, ok, ◌>>=◌, length, inl, inr, ◌⊎◌,
}
use async_flatbuffer_grpc.Api.{
  Api, read, RpcType, normal_rpc, client_streaming, server_streaming, bidi_streaming, GrpcCall,
  SendItem, read_op,
}
use async_flatbuffer_grpc.Rpc.{Rpc, request_streaming_read, handle_send_queue}
use async_flatbuffer_grpc.Rpc.SendQueue.{
  HasInterface, sent, sent_call, after_send, handle_send_queue-cases,
}
use async_flatbuffer_grpc.Runtime.{
  World, load, update_rpc, read_or_handle, request_streaming_read_if_needed, on_request,
  on_reads_done,
}
use async_flatbuffer_grpc.Service.Wellformed.{Good, Inv}
use async_flatbuffer_grpc.Service.Quiet.{Quiet, Quiet-trans, Quiet-Connected, Connected}
use async_flatbuffer_grpc.Service.Callbacks.{on_request-Quiet, on_reads_done-Quiet}
use async_flatbuffer_grpc.Service.Fine.{
  Fine, Quiet-Fine, Pays, after_update, update_rpc_lem, after_update-there, update-Fine,
}

-- The type is request-streaming.
abbrev Streams : RpcType → Type 0
Streams t = (t ≡ bidi_streaming) ⊎ (t ≡ client_streaming)

module _ {api : Api} where
  -- The Rpc is there and connected; both are kept by the step.
  pub record Served (p : ℕ) (v w : World api) : Type 0 where
    pub fine : Fine v w
    pub connection : Connected p w

  pub Served-Quiet : (p : ℕ) (v w : World api) → Quiet v w → Connected p v → Served p v w
  Served-Quiet p v w q c = record {
    fine = Quiet-Fine v w q;
    connection = Quiet-Connected p v w q c;
  }

  abbrev reading : Rpc api → Rpc api
  reading r = record r { read_event = record (r.read_event) { pending = true } }

  request_streaming_read_lem :
      (r : Rpc api)
      → HasInterface r
      → Streams r.rpc_handler_info.rpc_type
      → r.read_event.pending ≡ false
      → (cs : List (GrpcCall api)) × (request_streaming_read r ≡ ok (reading r, cs))
        × Pays r (reading r) cs
  unfolding request_streaming_read
  request_streaming_read_lem r h (inl t) e = (
    record { via = r.interface; op = read_op; tag = read } ∷ [],
    ground arith,
    λ ev. ground arith,
  )
  request_streaming_read_lem r h (inr t) e = (
    record { via = r.interface; op = read_op; tag = read } ∷ [],
    ground arith,
    λ ev. ground arith,
  )

  read-Served :
      (p : ℕ) (w : World api)
      → Inv w
      → (c : Connected p w) → Streams c.rpc.rpc_handler_info.rpc_type
      → c.rpc.read_event.pending ≡ false
      → (w' : World api) × (update_rpc p request_streaming_read w ≡ ok w') × Served p w w'
  read-Served p w v c t e =
      let r = c.rpc in
      let g = v.rpcs p r c.there in
      let (cs, done', pays) = request_streaming_read_lem r g.interface t e in
      let g' : Good (length w.event_queues) (reading r) = ground arith in
      (
        after_update p (reading r) cs w,
        update_rpc_lem p request_streaming_read r (reading r) cs w c.there done',
        record {
          fine = update-Fine p r (reading r) cs w c.there pays refl v g';
          connection = record {
            rpc = reading r;
            there = after_update-there p r (reading r) cs w c.there pays;
            connected = c.connected;
          };
        },
      )

  handled-Served :
      (p : ℕ) (w : World api)
      → Inv w
      → Connected p w
      → (w' : World api) × ((on_request p w >>= on_reads_done p) ≡ ok w') × Served p w w'
  handled-Served p w v c =
      let (w1, e1, q1) = on_request-Quiet p w v c in
      let (w2, e2, q2) = on_reads_done-Quiet p w1 q1.inv (Quiet-Connected p w w1 q1 c) in
      (w2, rw e1 e2, Served-Quiet p w w2 (Quiet-trans q1 q2) c)

  read_or_handle-Served :
      (t : RpcType) (p : ℕ) (w : World api)
      → Inv w
      → (c : Connected p w) → c.rpc.rpc_handler_info.rpc_type ≡ t
      → c.rpc.read_event.pending ≡ false
      → (w' : World api) × (read_or_handle t p w ≡ ok w') × Served p w w'
  unfolding read_or_handle
  read_or_handle-Served bidi_streaming p w v c t e = read-Served p w v c (inl t) e
  read_or_handle-Served client_streaming p w v c t e = read-Served p w v c (inr t) e
  read_or_handle-Served normal_rpc p w v c t e = handled-Served p w v c
  read_or_handle-Served server_streaming p w v c t e = handled-Served p w v c

  pub read_if_needed-Served :
      (p : ℕ) (w : World api)
      → Inv w
      → (c : Connected p w) → c.rpc.read_event.pending ≡ false
      → (w' : World api) × (request_streaming_read_if_needed p w ≡ ok w') × Served p w w'
  unfolding request_streaming_read_if_needed load
  read_if_needed-Served p w v c e =
      let (w', done', served) =
        read_or_handle-Served c.rpc.rpc_handler_info.rpc_type p w v c refl e in
      (w', rw c.there done', served)

  module _ (item : SendItem api) (rest : List (SendItem api)) (r : Rpc api)
      (o : r.write_event.pending ≡ false) (f : r.finish_event.pending ≡ false) where
    after_send-Pays :
        Pays r
          (after_send item (record r { send_queue = rest }))
          (sent r.rpc_handler_info.rpc_type item ∷ [])
    unfolding sent_call
    after_send-Pays ev = ground arith

    after_send-connected :
        (after_send item (record r { send_queue = rest })).new_connection_event
        ≡ r.new_connection_event
    unfolding sent_call
    after_send-connected = ground arith

    after_send-Good :
        (n : ℕ)
        → r.new_connection_event.pending ≡ false
        → Good n r
        → Good n (after_send item (record r { send_queue = rest }))
    unfolding sent_call
    after_send-Good n c g = ground arith

  send_queue-Pays :
      (r : Rpc api)
      → HasInterface r
      → (r' : Rpc api) × (cs : List (GrpcCall api)) × (handle_send_queue r ≡ ok (r', cs))
        × Pays r r' cs
        × ((n : ℕ) → r.new_connection_event.pending ≡ false → Good n r → Good n r')
        × (r'.new_connection_event ≡ r.new_connection_event)
  send_queue-Pays r h = elim (handle_send_queue-cases r h) [
    | inl e ↦ (r, [], e, λ ev. omega arith, λ n c g. g, refl)
    | inr (item, rest, q, o, f, e) ↦ (
      after_send item (record r { send_queue = rest }),
      sent r.rpc_handler_info.rpc_type item ∷ [],
      e,
      after_send-Pays item rest r o f,
      after_send-Good item rest r o f,
      after_send-connected item rest r o f,
    )
  ]

  pub send_queue-Served :
      (p : ℕ) (w : World api)
      → Inv w
      → Connected p w
      → (w' : World api) × (update_rpc p handle_send_queue w ≡ ok w') × Served p w w'
  send_queue-Served p w v c =
      let r = c.rpc in
      let g = v.rpcs p r c.there in
      let (r', cs, done', pays, keeps, same) = send_queue-Pays r g.interface in
      (
        after_update p r' cs w,
        update_rpc_lem p handle_send_queue r r' cs w c.there done',
        record {
          fine =
              update-Fine p r r' cs w c.there pays same v
                (keeps (length w.event_queues) c.connected g);
          connection = record {
            rpc = r';
            there = after_update-there p r r' cs w c.there pays;
            connected = ap (λ e. e.pending) same ∙ c.connected;
          };
        },
      )
