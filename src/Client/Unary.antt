-- ===== src/Client/Unary.antt =====
-- async_grpc/client.h, Client<..., NORMAL_RPC>::Write with a limited retry strategy.
use Prim.Native.Nat.{ℕ, max}
use async_flatbuffer_grpc.Prelude.{
  suc, ◌≤◌, ◌≡◌, refl, ap, ◌∙◌, sym, Bool, true, Option, some, List, [], ◌∷◌, arith, replicate,
}
use async_flatbuffer_grpc.Retry.{
  StatusApi, Clock, RetryDelayCalculator, Outcome, create_retry_strategy,
  create_limited_retry_indicator, retry_with_strategy,
}
use async_flatbuffer_grpc.Retry.Attempts.{Attempted, retry_limited}
use async_flatbuffer_grpc.Client.{
  UnaryClient, Written, written, unary_write, last_status, last_response, deadline_of,
  reset_context,
}

module _ (api : StatusApi) where
  Attempted-last :
      (op : ℕ → api.Status) (i : ℕ) (d : api.Status) (ss : List api.Status) (r : Bool)
      → Attempted api op i ss r
      → api.is_ok (last_status d ss) ≡ r
  Attempted-last op i d [] r h = absurd h
  Attempted-last op i d (s ∷ []) r h = h.1
  Attempted-last op i d (s ∷ t ∷ ss) r h = Attempted-last op (suc i) d (t ∷ ss) r h.2

module _ (api : StatusApi) (clock : Clock) (Response : Type 0) where
  unary_write_done :
      (fuel : ℕ) (c : UnaryClient api clock Response) (default_status : api.Status) (now : ℕ)
      (statuses : ℕ → api.Status) (answers : ℕ → Option Response) (o : Outcome api clock)
      → retry_with_strategy api clock fuel c.retry_strategy statuses true ≡ some o
      → unary_write api clock Response fuel c default_status now statuses answers
        ≡ some (written api clock Response c default_status now answers o)
  unfolding unary_write
  unary_write_done fuel c default_status now statuses answers o e = rw (e, unary_write) refl

  -- For a client whose strategy is a limited one, over any delays: a Write ends, with fuel one above
  -- the bound on the attempts. Its result is whether the last status, which it hands back, is a
  -- success. It makes at least one call and at most `max_attempts` (or one), each in a context of
  -- its own, and every one of these has the deadline that the first had: the time of the Write plus
  -- the client's timeout, or none.
  pub unary_write_limited :
      (c : UnaryClient api clock Response) (delay : RetryDelayCalculator clock)
      (max_attempts now : ℕ) (default_status : api.Status) (statuses : ℕ → api.Status)
      (answers : ℕ → Option Response)
      → c.retry_strategy
        ≡ some (
            create_retry_strategy api clock
              (create_limited_retry_indicator api clock max_attempts)
              delay)
      → (w : Written api clock Response) × (unary_write api clock Response
            (suc max_attempts)
            c
            default_status
            now
            statuses
            answers
          ≡ some w)
        × (w.result ≡ api.is_ok w.status)
        × (n : ℕ) × (1 ≤ n)
        × (n ≤ max 1 max_attempts)
        × (w.deadlines ≡ replicate n (deadline_of c.timeout now))
        × (w.client.response ≡ last_response c.response answers n)
  unfolding reset_context
  unary_write_limited c delay max_attempts now default_status statuses answers h =
      let (o, e, run, few, all, retried, slept, was_reset) =
        retry_limited api clock statuses delay true max_attempts in
      (
        written api clock Response c default_status now answers o,
        unary_write_done (suc max_attempts) c default_status now statuses answers o (rw h e),
        sym (Attempted-last api statuses 0 default_status o.statuses o.result run),
        suc o.resets,
        omega arith,
        omega (arith, few, retried, was_reset),
        refl,
        ap (last_response c.response answers) (retried ∙ ap suc (sym was_reset)),
      )
