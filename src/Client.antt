-- ===== src/Client.antt =====
-- async_grpc/client.h: the synchronous client of a method, one class for each type of method. What
-- gRPC answers is a parameter: the statuses and responses of the unary calls, and `StreamApi`, a
-- stream of gRPC that the three streaming classes drive.
use async_flatbuffer_grpc.Prelude.{
  ℕ, zero, suc, ◌+◌, ◌≡◌, refl, Bool, true, false, Option, none, some, List, [], ◌∷◌, ◌++◌, arith,
  if◌then◌else◌, is_some, Result, ok, fault, check_failed, null_pointer, check, ◌>>=◌, ◌>>◌,
  replicate, length,
}
use async_flatbuffer_grpc.Retry.{StatusApi, Clock, RetryStrategy, Outcome, retry_with_strategy}
pub mod Unary
pub mod Streams

-- Status(), a stream object, and its calls; `create` is the factory of the object.
pub record StreamApi : Type 1 where
  pub Request : Type 0
  pub Response : Type 0
  pub Status : Type 0
  pub is_ok : Status → Bool
  pub default_status : Status
  pub Stream : Type 0
  pub create : Stream
  pub create_with : Request → Stream
  pub write : Stream → Request → Stream × Bool
  pub read : Stream → Stream × Option Response
  pub writes_done : Stream → Stream × Bool
  pub finish : Stream → Stream × Status

-- Client<..., NORMAL_RPC>. The context is its deadline.
pub record UnaryClient (api : StatusApi) (clock : Clock) (Response : Type 0) : Type 0 where
  pub client_context : Option ℕ
  pub timeout : Option ℕ
  pub response : Response
  pub retry_strategy : Option (RetryStrategy api clock)

-- The response object after the calls 0, ..., n - 1: a call that answers with none leaves it alone.
abbrev pub last_response {ℓ} : {R : Type ℓ} → R → (ℕ → Option R) → ℕ → R
last_response r answer zero = r
last_response r answer (suc n) = elim (answer n) [ none ↦ last_response r answer n | some m ↦ m ]

abbrev pub last_status {ℓ} : {S : Type ℓ} → S → List S → S
last_status d [] = d
last_status d (s ∷ []) = s
last_status d (s ∷ t ∷ ss) = last_status d (t ∷ ss)

-- ResetContext: a new context with the deadline, if there is one.
unfoldable pub reset_context : Option ℕ → Option ℕ
reset_context deadline = deadline

-- The deadline that a Write at time `now` has, from the client's timeout.
abbrev pub deadline_of : Option ℕ → ℕ → Option ℕ
deadline_of none now = none
deadline_of (some t) now = some (now + t)

module _ (api : StatusApi) (clock : Clock) (Response : Type 0) where
  -- What Write leaves behind: the client, its result, `*status`, and the deadlines of the contexts
  -- of its calls, in order.
  pub record Written : Type 0 where
    pub client : UnaryClient api clock Response
    pub result : Bool
    pub status : api.Status
    pub deadlines : List (Option ℕ)

  -- What is left when the retry loop is done with the outcome `o`.
  abbrev pub written :
      UnaryClient api clock Response
      → api.Status
      → ℕ
      → (ℕ → Option Response)
      → Outcome api clock
      → Written
  written c default_status now answers o = record {
    client = record c {
      client_context = reset_context (deadline_of c.timeout now);
      response = last_response c.response answers (length o.statuses);
    };
    result = o.result;
    status = last_status default_status o.statuses;
    deadlines =
        reset_context (deadline_of c.timeout now)
        ∷ replicate o.resets (reset_context (deadline_of c.timeout now));
  }

  -- Write, at time `now`, where the i-th call of gRPC answers `statuses i` and `answers i`; `none`
  -- if the fuel ran out. A reset function is given.
  unfoldable pub unary_write :
      ℕ
      → UnaryClient api clock Response
      → api.Status
      → ℕ
      → (ℕ → api.Status)
      → (ℕ → Option Response)
      → Option Written
  unary_write fuel c default_status now statuses answers =
      elim (retry_with_strategy api clock fuel c.retry_strategy statuses true) [
        | none ↦ none
        | some o ↦ some (written c default_status now answers o)
      ]

module _ (api : StreamApi) where
  -- The stream object of a client, once it is there.
  pub record StreamClient : Type 0 where
    pub stream : Option api.Stream

  unfoldable pub new_client : StreamClient
  new_client = record { stream = none }

  -- InstantiateClientWriterIfNeeded and InstantiateClientReaderWriterIfNeeded
  unfoldable pub instantiate_if_needed : StreamClient → api.Stream
  instantiate_if_needed c = elim c.stream [ none ↦ api.create | some s ↦ s ]

  -- Write of the client-streaming and the bidirectional class: the client, the result, `*status`.
  unfoldable pub stream_write : StreamClient → api.Request → StreamClient × Bool × api.Status
  stream_write c request =
      let internal_status = api.default_status in
      let (s, written) = api.write (instantiate_if_needed c) request in
      (record { stream = some s }, api.is_ok internal_status, internal_status)

  unfoldable pub stream_writes_done : StreamClient → StreamClient × Bool
  stream_writes_done c =
      let (s, done) = api.writes_done (instantiate_if_needed c) in
      (record { stream = some s }, done)

  unfoldable pub stream_finish : StreamClient → StreamClient × api.Status
  stream_finish c =
      let (s, status) = api.finish (instantiate_if_needed c) in (record { stream = some s }, status)

  -- StreamRead of the bidirectional class.
  unfoldable pub stream_read : StreamClient → StreamClient × Option api.Response
  stream_read c =
      let (s, response) = api.read (instantiate_if_needed c) in
      (record { stream = some s }, response)

  -- The server-streaming class.
  unfoldable pub server_stream_write : StreamClient → api.Request → StreamClient × Bool × api.Status
  server_stream_write c request =
      let internal_status = api.default_status in
      (
        record { stream = some (api.create_with request) },
        api.is_ok internal_status,
        internal_status,
      )

  unfoldable pub server_stream_read : StreamClient → Result (StreamClient × Option api.Response)
  server_stream_read c = elim c.stream [
    | none ↦ fault check_failed
    | some s ↦ let (s', response) = api.read s in ok (record { stream = some s' }, response)
  ]

  unfoldable pub server_stream_finish : StreamClient → Result (StreamClient × api.Status)
  server_stream_finish c = elim c.stream [
    | none ↦ fault check_failed
    | some s ↦ let (s', status) = api.finish s in ok (record { stream = some s' }, status)
  ]
