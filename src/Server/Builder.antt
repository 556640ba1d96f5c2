-- ===== src/Server/Builder.antt =====
-- async_grpc/server.cc and server.h, Server::Builder: the options, and the handlers by service and
-- method. A string is the list of its bytes; a std::map is a list of entries. The numbers of
-- threads are not initialized by the code, so a default-constructed builder has none.
pub mod Registration
pub mod Keys
use async_flatbuffer_grpc.Prelude.{
  ℕ, ◌*◌, ◌≡◌, refl, Bool, true, false, ◌&&◌, Option, none, some, List, [], ◌∷◌, arith,
  if◌then◌else◌, ◌==◌, ltb, Result, ok, fault, fatal, check, ◌>>=◌, ◌>>◌, is_some,
}
use async_flatbuffer_grpc.Server.MethodName.{parse_method_full_name}

-- Server::Options. A double is the number that its 64 bits make.
pub record Options : Type 0 where
  pub num_grpc_threads : Option ℕ
  pub num_event_threads : Option ℕ
  pub server_address : List ℕ
  pub max_receive_message_size : ℕ
  pub max_send_message_size : ℕ
  pub enable_tracing : Bool
  pub tracing_sampler_probability : ℕ
  pub tracing_task_name : List ℕ
  pub tracing_gcp_project_id : List ℕ

-- kDefaultMaxMessageSize
abbrev pub default_max_message_size : ℕ
default_max_message_size = 10 * 1024 * 1024

-- kDefaultTracingSamplerProbability, which is 0.01.
abbrev pub default_tracing_sampler_probability : ℕ
default_tracing_sampler_probability = 0x3f847ae147ae147b

-- Options() = default
abbrev pub default_options : Options
default_options = record {
  num_grpc_threads = none;
  num_event_threads = none;
  server_address = [];
  max_receive_message_size = default_max_message_size;
  max_send_message_size = default_max_message_size;
  enable_tracing = false;
  tracing_sampler_probability = default_tracing_sampler_probability;
  tracing_task_name = [];
  tracing_gcp_project_id = [];
}

-- Whether two strings are equal, and std::string's order.
abbrev pub string_eq : List ℕ → List ℕ → Bool
string_eq [] [] = true
string_eq (a ∷ s) (b ∷ t) = a == b && string_eq s t
string_eq _ _ = false

abbrev pub string_lt : List ℕ → List ℕ → Bool
string_lt s [] = false
string_lt [] (b ∷ t) = true
string_lt (a ∷ s) (b ∷ t) = let rest = string_lt s t in if a == b then rest else ltb a b

module _ {ℓ} {V : Type ℓ} where
  unfoldable pub look_up : List ℕ → List (List ℕ × V) → Option V
  look_up k [] = none
  look_up k ((j, v) ∷ m) = if string_eq j k then some v else look_up k m

  -- A new entry, in the order of the keys.
  unfoldable pub insert : List ℕ → V → List (List ℕ × V) → List (List ℕ × V)
  insert k v [] = (k, v) ∷ []
  insert k v ((j, w) ∷ m) =
      let rest = insert k v m in if string_lt k j then (k, v) ∷ (j, w) ∷ m else (j, w) ∷ rest

  -- std::map::emplace does nothing if the key is there.
  unfoldable pub emplace : List ℕ → V → List (List ℕ × V) → List (List ℕ × V)
  emplace k v m = if is_some (look_up k m) then m else insert k v m

  -- An assignment to the value of a key that is there.
  unfoldable pub overwrite : List ℕ → V → List (List ℕ × V) → List (List ℕ × V)
  overwrite k v [] = []
  overwrite k v ((j, w) ∷ m) =
      let rest = overwrite k v m in if string_eq j k then (j, v) ∷ m else (j, w) ∷ rest

-- `map[key]`, of a map of maps: a missing entry is made, empty.
abbrev pub or_empty {ℓ} : {V : Type ℓ} → Option (List (List ℕ × V)) → List (List ℕ × V)
or_empty none = []
or_empty (some m) = m

pub record Builder {ℓ} (Info : Type ℓ) : Type ℓ where
  pub options : Options
  pub rpc_handlers : List (List ℕ × List (List ℕ × Info))

module _ {ℓ} {Info : Type ℓ} where
  -- Builder() = default
  abbrev pub new_builder : Builder Info
  new_builder = record { options = default_options; rpc_handlers = [] }

  unfoldable pub set_num_grpc_threads : ℕ → Builder Info → Builder Info
  set_num_grpc_threads n b = record b { options = record (b.options) { num_grpc_threads = some n } }

  unfoldable pub set_num_event_threads : ℕ → Builder Info → Builder Info
  set_num_event_threads n b = record b {
    options = record (b.options) { num_event_threads = some n };
  }

  unfoldable pub set_server_address : List ℕ → Builder Info → Builder Info
  set_server_address a b = record b { options = record (b.options) { server_address = a } }

  -- The sizes are `int`s; one that is not positive fails the CHECK, here as 0.
  unfoldable pub set_max_receive_message_size : ℕ → Builder Info → Result (Builder Info)
  set_max_receive_message_size n b = do
    check (ltb 0 n)
    ok (record b { options = record (b.options) { max_receive_message_size = n } })

  unfoldable pub set_max_send_message_size : ℕ → Builder Info → Result (Builder Info)
  set_max_send_message_size n b = do
    check (ltb 0 n)
    ok (record b { options = record (b.options) { max_send_message_size = n } })

  -- Without BUILD_TRACING.
  unfoldable pub enable_tracing : Builder Info → Result (Builder Info)
  enable_tracing b = fault fatal

  unfoldable pub disable_tracing : Builder Info → Builder Info
  disable_tracing b = record b { options = record (b.options) { enable_tracing = false } }

  unfoldable pub set_tracing_sampler_probability : ℕ → Builder Info → Builder Info
  set_tracing_sampler_probability p b = record b {
    options = record (b.options) { tracing_sampler_probability = p };
  }

  unfoldable pub set_tracing_task_name : List ℕ → Builder Info → Builder Info
  set_tracing_task_name name b = record b {
    options = record (b.options) { tracing_task_name = name };
  }

  unfoldable pub set_tracing_gcp_project_id : List ℕ → Builder Info → Builder Info
  set_tracing_gcp_project_id name b = record b {
    options = record (b.options) { tracing_gcp_project_id = name };
  }

  -- `rpc_handlers_[service].emplace(method, info)`
  unfoldable pub register : List ℕ → List ℕ → Info → Builder Info → Builder Info
  register service method info b =
      let handlers = emplace service [] b.rpc_handlers in
      let methods = emplace method info (or_empty (look_up service handlers)) in
      record b { rpc_handlers = overwrite service methods handlers }

  unfoldable pub register_handler : List ℕ → Info → Builder Info → Result (Builder Info)
  register_handler method_full_name info b = do
    names ← parse_method_full_name method_full_name
    ok (register names.0 names.1 info b)

  -- The handler of a method of a service.
  abbrev pub handler_of : List ℕ → List ℕ → Builder Info → Option Info
  handler_of service method b = look_up method (or_empty (look_up service b.rpc_handlers))
