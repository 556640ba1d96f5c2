-- ===== src/Tests/Samples.antt =====
-- Sample services and clients: messages, statuses, states and durations are numbers; status 0 is a
-- success, and the code of a status is the status.
use async_flatbuffer_grpc.Prelude.{
  ℕ, ◌+◌, ◌-◌, ◌*◌, ◌^◌, Bool, true, false, Option, none, some, List, [], ◌∷◌, ◌==◌,
}
use async_flatbuffer_grpc.Api.{Api, Handler, RpcHandlerInfo, RpcType, send, finish_with}
use async_flatbuffer_grpc.Retry.{StatusApi, Clock}
use async_flatbuffer_grpc.Client.{StreamApi}
use async_flatbuffer_grpc.AsyncClient.{ClientApi}

abbrev pub numbers : Api
numbers = record {
  Request = ℕ;
  Response = ℕ;
  HandlerState = ℕ;
  Context = ℕ;
  Status = ℕ;
  ok_status = 0;
  empty_request = 0;
  empty_response = 0;
}

-- Answers each request with its successor, counts the requests, and finishes at the end.
abbrev pub echo : Handler numbers
echo = record {
  initialize = λ c. record { context = c; state = 0; actions = [] };
  on_request = λ c s m. record { context = c + 1; state = s + 1; actions = send (m + 1) ∷ [] };
  on_reads_done = λ c s. record { context = c; state = s; actions = finish_with 0 ∷ [] };
  on_finish = λ c s. record { context = c; state = s; actions = [] };
}

abbrev pub echo_info : RpcType → RpcHandlerInfo numbers
echo_info t = record { rpc_factory = echo; rpc_type = t; fully_qualified_name = "/echo/Echo" }

abbrev pub number_statuses : StatusApi
number_statuses = record { Status = ℕ; is_ok = λ s. s == 0; error_code = λ s. s }

-- Milliseconds, with whole factors.
abbrev pub milliseconds : Clock
milliseconds = record {
  Duration = ℕ;
  Double = ℕ;
  to_seconds = λ d. d;
  from_seconds = λ d. d;
  pow_pred = λ f n. f ^ (n - 1);
  times = λ a b. a * b;
}

-- A stream that takes two requests and gives each of them back.
abbrev pub take_one : List ℕ → List ℕ × Option ℕ
take_one [] = ([], none)
take_one (x ∷ xs) = (xs, some x)

abbrev pub two_at_most : List ℕ → ℕ → List ℕ × Bool
two_at_most [] r = (r ∷ [], true)
two_at_most (x ∷ []) r = (x ∷ r ∷ [], true)
two_at_most xs r = (xs, false)

abbrev pub echo_stream : StreamApi
echo_stream = record {
  Request = ℕ;
  Response = ℕ;
  Status = ℕ;
  is_ok = λ s. s == 0;
  default_status = 0;
  Stream = List ℕ;
  create = [];
  create_with = λ r. r ∷ [];
  write = two_at_most;
  read = take_one;
  writes_done = λ s. (s, true);
  finish = λ s. (s, 0);
}

abbrev pub number_client : ClientApi
number_client = record {
  Request = ℕ;
  Response = ℕ;
  Status = ℕ;
  is_ok = λ s. s == 0;
  ok_status = 0;
  write_failed = 13;
  finish_failed = 14;
}
