-- ===== src/Rpc/Overlap.antt =====
-- async_grpc/rpc.h, HandleSendQueue in two threads: its MutexLocker is gone before PerformWrite or
-- PerformFinish marks the event as pending.
use async_flatbuffer_grpc.Prelude.{◌≡◌, false, List, [], ◌∷◌, ◌++◌, arith, Result, ok, ◌>>=◌}
use async_flatbuffer_grpc.Api.{Api, SendItem, GrpcCall}
use async_flatbuffer_grpc.Rpc.{Rpc, take_item, send_taken, send_front, handle_send_queue}
use async_flatbuffer_grpc.Rpc.SendQueue.{HasInterface, sent, sent_call}

module _ {api : Api} where
  -- Both threads leave the scope of the mutex before either goes on.
  unfoldable pub overlapped : Rpc api → Result (List (GrpcCall api))
  overlapped r = do
    first ← take_item r.send_queue r
    second ← take_item (first.1).send_queue first.1
    sent_first ← send_taken first.0 second.1
    sent_second ← send_taken second.0 sent_first.0
    ok (sent_first.1 ++ sent_second.1)

  -- One thread after the other.
  unfoldable pub in_turn : Rpc api → Result (List (GrpcCall api))
  in_turn r = do
    first ← handle_send_queue r
    second ← handle_send_queue first.0
    ok (first.1 ++ second.1)

  -- For every Rpc that holds the gRPC object of its type, has two items or more in its send queue, and
  -- waits for no write and no finish: two threads that run HandleSendQueue one after the other send the
  -- first item alone, so that one operation is outstanding. If both leave the scope of the mutex before
  -- either goes on, they send the first two items, so that two operations are outstanding.
  pub overlapping_sends :
      (r : Rpc api) (a b : SendItem api) (rest : List (SendItem api))
      → HasInterface r
      → r.send_queue ≡ a ∷ b ∷ rest
      → r.write_event.pending ≡ false
      → r.finish_event.pending ≡ false
      → let kind = r.rpc_handler_info.rpc_type in
        (in_turn r ≡ ok (sent kind a ∷ [])) × (overlapped r ≡ ok (sent kind a ∷ sent kind b ∷ []))
  unfolding overlapped in_turn handle_send_queue take_item send_taken send_front sent_call
  overlapping_sends r a b rest h q o p = (ground (arith, h, q, o, p), ground (arith, h, q, o, p))
