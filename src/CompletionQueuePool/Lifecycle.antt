-- ===== src/CompletionQueuePool/Lifecycle.antt =====
-- async_grpc/completion_queue_pool.cc: the pool over any sequence of its static calls.
use async_flatbuffer_grpc.Prelude.{
  ℕ, zero, suc, ◌%◌, ◌<◌, ◌≡◌, refl, Bool, true, false, Option, none, some, List, [], ◌∷◌, arith,
  if◌then◌else◌, Result, ok, fault, check_failed, ◌>>=◌, length, get_elem?, replicate,
  length-replicate, ltb, >>=-ok, subst,
}
use async_flatbuffer_grpc.CompletionQueuePool.{
  CompletionQueue, new_completion_queue, start_queue, shutdown_queue, CompletionQueuePool, new_pool,
  set_number_completion_queues, start_all, shutdown_all, resize, initialize, initialize_new, start,
  get_completion_queue, shutdown,
}

-- A queue whose thread runs.
abbrev running : CompletionQueue
running = record { thread = true; is_shut_down = false }

abbrev stopped : CompletionQueue
stopped = record { thread = true; is_shut_down = true }

-- Between two calls: there is a positive number of queues to make; before the initialization there
-- is no queue, and after it there are that many, each with its thread running.
abbrev pub IsValid : CompletionQueuePool → Type 0
IsValid pool =
    (0 < pool.number_completion_queues)
    × (pool.completion_queues
        ≡ (if pool.initialized then replicate pool.number_completion_queues running else []))

start_all-resize : (n : ℕ) → start_all (resize n []) ≡ ok (replicate n running)
unfolding start_all resize start_queue new_completion_queue
start_all-resize zero = refl
start_all-resize (suc n) = rw (start_all-resize n) refl

shutdown_all-replicate : (n : ℕ) → shutdown_all (replicate n running) ≡ ok (replicate n stopped)
unfolding shutdown_all shutdown_queue
shutdown_all-replicate zero = refl
shutdown_all-replicate (suc n) = rw (shutdown_all-replicate n) refl

-- The pool with its queues running.
abbrev pub initialized_pool : CompletionQueuePool → CompletionQueuePool
initialized_pool pool = record pool {
  initialized = true;
  completion_queues = replicate (pool.number_completion_queues) running;
}

initialize_lem :
    (b : Bool) (pool : CompletionQueuePool)
    → pool.initialized ≡ b
    → IsValid pool
    → initialize pool ≡ ok (initialized_pool pool)
unfolding initialize initialize_new
initialize_lem true pool e v = ground arith
initialize_lem false pool e v = ground (arith, start_all-resize pool.number_completion_queues)

pub data Call : Type 0 where
  sets_number : ℕ → Call
  starts : Call
  gets : ℕ → Call
  shuts_down : Call

-- The pool after a call, and the queue that GetCompletionQueue returned.
unfoldable pub step : CompletionQueuePool → Call → Result (CompletionQueuePool × Option ℕ)
step pool (sets_number n) = do p ← set_number_completion_queues n pool; ok (p, none)
step pool starts = do p ← start pool; ok (p, none)
step pool (gets rand) = do r ← get_completion_queue rand pool; ok (r.0, some r.1)
step pool shuts_down = do p ← shutdown pool; ok (p, none)

-- What each call may do of a valid pool. A CHECK fails just when the number is set after the
-- initialization, or to 0. GetCompletionQueue returns one of the running queues, whatever `rand()`.
abbrev pub Does : CompletionQueuePool → Call → Result (CompletionQueuePool × Option ℕ) → Type 0
Does pool (sets_number n) r =
    if pool.initialized
    then r ≡ fault check_failed
    else if ltb 0 n
    then r ≡ ok (record pool { number_completion_queues = n }, none)
    else r ≡ fault check_failed
Does pool starts r = r ≡ ok (initialized_pool pool, none)
Does pool (gets rand) r =
    (qid : ℕ) × (r ≡ ok (initialized_pool pool, some qid))
    × (get_elem? (initialized_pool pool).completion_queues qid ≡ some running)
Does pool shuts_down r = r ≡ ok (record pool { initialized = false; completion_queues = [] }, none)

get_elem?-replicate : (n i : ℕ) → i < n → get_elem? (replicate n running) i ≡ some running
get_elem?-replicate zero i h = elim h [ ]
get_elem?-replicate (suc n) zero h = refl
get_elem?-replicate (suc n) (suc i) h = get_elem?-replicate n i (omega arith)

get_lem :
    (rand : ℕ) (pool : CompletionQueuePool)
    → IsValid pool
    → Does pool (gets rand) (step pool (gets rand))
unfolding step get_completion_queue
get_lem rand pool v =
    let n = pool.number_completion_queues in
    let qid = rand % length (replicate n running) in
    let inside : qid < n = rw (length-replicate n running) (grind (arith, v.0)) in
    let found = get_elem?-replicate n qid inside in
    (qid, rw (initialize_lem pool.initialized pool refl v, found) refl, found)

shutdown_lem :
    (b : Bool) (pool : CompletionQueuePool)
    → pool.initialized ≡ b
    → IsValid pool
    → step pool shuts_down ≡ ok (record pool { initialized = false; completion_queues = [] }, none)
unfolding step shutdown shutdown_all
shutdown_lem true pool e v = ground (arith, shutdown_all-replicate pool.number_completion_queues)
shutdown_lem false pool e v = ground arith

step_lem : (pool : CompletionQueuePool) (c : Call) → IsValid pool → Does pool c (step pool c)
unfolding step set_number_completion_queues start
step_lem pool (sets_number n) v = ground arith
step_lem pool starts v = rw (initialize_lem pool.initialized pool refl v) refl
step_lem pool (gets rand) v = get_lem rand pool v
step_lem pool shuts_down v = shutdown_lem pool.initialized pool refl v

Does-IsValid :
    (pool : CompletionQueuePool) (c : Call) (r : CompletionQueuePool × Option ℕ)
    → IsValid pool
    → Does pool c (ok r)
    → IsValid r.0
Does-IsValid pool (sets_number n) r v d = ground arith
Does-IsValid pool starts r v d = ground arith
Does-IsValid pool (gets rand) r v d = ground arith
Does-IsValid pool shuts_down r v d = ground arith

-- The pool after a list of calls, none of which fails its CHECK.
unfoldable pub run : CompletionQueuePool → List Call → Result CompletionQueuePool
run pool [] = ok pool
run pool (c ∷ cs) = do r ← step pool c; run r.0 cs

run-IsValid :
    (pool : CompletionQueuePool) (cs : List Call) {p : CompletionQueuePool}
    → IsValid pool
    → run pool cs ≡ ok p
    → IsValid p
unfolding run
run-IsValid pool [] v e = ground arith
run-IsValid pool (c ∷ cs) v e =
    let (r, stepped, rest) = >>=-ok (λ r. run r.0 cs) (step pool c) e in
    run-IsValid r.0 cs (Does-IsValid pool c r v (subst (Does pool c) stepped (step_lem pool c v)))
      rest

new_pool-IsValid : IsValid new_pool
unfolding new_pool
new_pool-IsValid = ground arith

-- The pool after any calls since the start of the process that got past their CHECKs, and one more
-- call. Start, GetCompletionQueue and Shutdown never fail a CHECK or read out of range, however
-- often they are called; GetCompletionQueue returns one of the queues whose thread is running,
-- whatever `rand()` is, and has them all started. Setting the number fails its CHECK just if the
-- queues are running or the number is 0, and is what later initializations use; Shutdown leaves no
-- queue, so that the next call makes new ones.
pub pool_calls :
    (cs : List Call) (pool : CompletionQueuePool) (c : Call)
    → run new_pool cs ≡ ok pool
    → Does pool c (step pool c)
pool_calls cs pool c e = step_lem pool c (run-IsValid new_pool cs new_pool-IsValid e)
