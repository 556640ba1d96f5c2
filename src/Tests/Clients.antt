-- ===== src/Tests/Clients.antt =====
-- The theorems on the parts that clients use, and on the queue, at sample inputs.
use Prim.Native.Nat.{max}
use async_flatbuffer_grpc.Prelude.{
  ℕ, zero, suc, ◌==◌, ◌<◌, ◌≤◌, ◌≡◌, refl, Bool, true, false, Option, none, some, List, [], ◌∷◌,
  arith, ok, fault, check_failed, length, map, replicate, ◌⊎◌, inl, if◌then◌else◌,
}
use async_flatbuffer_grpc.Retry.{
  Outcome, RetryDelayCalculator, create_retry_strategy, create_limited_retry_indicator,
  create_backoff_delay_calculator, retry_with_strategy,
}
use async_flatbuffer_grpc.Retry.Attempts.{limited, Attempted, delays, retry_limited}
use async_flatbuffer_grpc.Retry.Unlimited.{IsRetried, strategy, retry_until_last, retry_for_ever}
use async_flatbuffer_grpc.Client.{
  UnaryClient, Written, unary_write, deadline_of, last_response, StreamClient, new_client,
  server_stream_write,
}
use async_flatbuffer_grpc.Client.Unary.{unary_write_limited}
use async_flatbuffer_grpc.Client.Streams.{
  StreamOp, writes, writes_are_done, finishes, reads, client_run, stream_run, server_run, as_op,
  client_run_stream, server_run_after_write,
}
use async_flatbuffer_grpc.AsyncClient.{
  AsyncClient, ClientEvent, Completion, write, read, finish, handle_finish_event,
}
use async_flatbuffer_grpc.AsyncClient as Async
use async_flatbuffer_grpc.CompletionQueuePool.{
  CompletionQueuePool, new_pool, set_number_completion_queues, get_completion_queue, initialize,
  initialize_new, resize, start_all, start_queue, new_completion_queue,
}
use async_flatbuffer_grpc.CompletionQueuePool.Lifecycle as Pool
use async_flatbuffer_grpc.CompletionQueuePool.Lifecycle.{pool_calls}
use async_flatbuffer_grpc.Tests.Samples.{number_statuses, milliseconds, echo_stream, number_client}

-- A server that is not there for four calls.
abbrev fifth_time : ℕ → ℕ
fifth_time n = if n == 4 then 0 else 14

abbrev doubling : RetryDelayCalculator milliseconds
doubling = create_backoff_delay_calculator number_statuses milliseconds 100 2

retry_limited_example :
    (o : Outcome number_statuses milliseconds) × (retry_with_strategy number_statuses milliseconds 6
        (some (limited number_statuses milliseconds fifth_time doubling true 5))
        fifth_time
        true
      ≡ some o)
    × Attempted number_statuses fifth_time 0 o.statuses o.result
    × (length o.statuses ≤ max 1 5)
    × ((o.result ≡ true) ⊎ (5 ≤ length o.statuses))
    × (length o.statuses ≡ suc (length o.sleeps))
    × (o.sleeps ≡ delays doubling 0 (length o.sleeps))
    × (o.resets ≡ (if true then length o.sleeps else 0))
retry_limited_example = retry_limited number_statuses milliseconds fifth_time doubling true 5

-- The sleeps of that run: 100, 200, 400 and 800 milliseconds.
doubling-delays : delays doubling 0 4 ≡ 100 ∷ 200 ∷ 400 ∷ 800 ∷ []
unfolding create_backoff_delay_calculator
doubling-delays = refl

before_the_fifth :
    (j : ℕ) → j < 4 → IsRetried number_statuses milliseconds fifth_time 250 (5 ∷ []) false j
before_the_fifth zero h = (refl, refl)
before_the_fifth (suc zero) h = (refl, refl)
before_the_fifth (suc (suc zero)) h = (refl, refl)
before_the_fifth (suc (suc (suc zero))) h = (refl, refl)
before_the_fifth (suc (suc (suc (suc j)))) h = absurd (omega arith)

retry_until_last_example :
    (o : Outcome number_statuses milliseconds) × (retry_with_strategy number_statuses milliseconds 5
        (some (strategy number_statuses milliseconds fifth_time 250 (5 ∷ []) false))
        fifth_time
        false
      ≡ some o)
    × Attempted number_statuses fifth_time 0 o.statuses o.result
    × (length o.statuses ≡ 5)
    × (o.result ≡ true)
    × (o.sleeps ≡ delays (λ i. 250) 0 4)
    × (o.resets ≡ 0)
retry_until_last_example =
    retry_until_last number_statuses milliseconds fifth_time 250 (5 ∷ []) false 4 before_the_fifth
      (inl refl)

retry_for_ever_example :
    retry_with_strategy number_statuses milliseconds 100
      (some (strategy number_statuses milliseconds (λ i. 14) 250 (5 ∷ []) false))
      (λ i. 14)
      false
    ≡ none
retry_for_ever_example =
    retry_for_ever number_statuses milliseconds (λ i. 14) 250 (5 ∷ []) false 100 (λ j. (refl, refl))

abbrev unary_client : UnaryClient number_statuses milliseconds ℕ
unary_client = record {
  client_context = none;
  timeout = some 1000;
  response = 0;
  retry_strategy = some (
      create_retry_strategy number_statuses milliseconds
        (create_limited_retry_indicator number_statuses milliseconds 5) doubling);
}

abbrev no_answer : ℕ → Option ℕ
no_answer n = if n == 4 then some 42 else none

unary_write_limited_example :
    (w : Written number_statuses milliseconds ℕ) × (unary_write number_statuses milliseconds ℕ 6
        unary_client 2 7 fifth_time no_answer
      ≡ some w)
    × (w.result ≡ number_statuses.is_ok w.status)
    × (n : ℕ) × (1 ≤ n)
    × (n ≤ max 1 5)
    × (w.deadlines ≡ replicate n (deadline_of (some 1000) 7))
    × (w.client.response ≡ last_response 0 no_answer n)
unary_write_limited_example =
    unary_write_limited number_statuses milliseconds ℕ unary_client doubling 5 7 2 fifth_time
      no_answer refl

-- Three requests, of which the stream takes two.
abbrev stream_calls : List (StreamOp echo_stream)
stream_calls = writes 8 ∷ writes 9 ∷ reads ∷ writes_are_done ∷ finishes ∷ []

client_run_stream_example :
    let r = stream_run echo_stream (echo_stream.create) (writes 7 ∷ stream_calls) in
    client_run echo_stream (new_client echo_stream) (writes 7 ∷ stream_calls)
    ≡ (record { stream = some (r.0) }, r.1)
client_run_stream_example = client_run_stream echo_stream (writes 7) stream_calls

-- The stream holds two requests already.
abbrev full : StreamClient echo_stream
full = record { stream = some (7 ∷ 8 ∷ []) }

server_run_after_write_example :
    (server_run echo_stream (new_client echo_stream) (true ∷ true ∷ true ∷ false ∷ [])
      ≡ fault check_failed)
    × (let r =
          stream_run echo_stream
            (echo_stream.create_with 7)
            (map (as_op echo_stream) (true ∷ true ∷ false ∷ [])) in
        server_run echo_stream (server_stream_write echo_stream full 7).0 (true ∷ true ∷ false ∷ [])
        ≡ ok (record { stream = some (r.0) }, r.1))
server_run_after_write_example =
    server_run_after_write echo_stream full 7 (true ∷ true ∷ false ∷ []) true

abbrev completed : ClientEvent → Bool → ℕ → Completion number_client
completed e ok' m = record { event = e; is_ok = ok'; message = m }

abbrev client_events : List (Completion number_client)
client_events =
    completed write true 0
    ∷ completed read true 4
    ∷ completed read false 0
    ∷ completed finish true 0
    ∷ []

-- The number was set to 3, and the queues run.
abbrev pool_of_three : CompletionQueuePool
pool_of_three = record {
  initialized = true;
  number_completion_queues = 3;
  completion_queues = replicate 3 (record { thread = true; is_shut_down = false });
}

pool_of_three_lem : Pool.run new_pool (Pool.sets_number 3 ∷ Pool.gets 5 ∷ []) ≡ ok pool_of_three
unfolding Pool.run Pool.step new_pool set_number_completion_queues get_completion_queue initialize
    initialize_new resize start_all start_queue new_completion_queue
pool_of_three_lem = refl

pool_calls_example : Pool.Does pool_of_three (Pool.gets 11) (Pool.step pool_of_three (Pool.gets 11))
pool_calls_example =
    pool_calls (Pool.sets_number 3 ∷ Pool.gets 5 ∷ []) pool_of_three (Pool.gets 11)
      pool_of_three_lem
