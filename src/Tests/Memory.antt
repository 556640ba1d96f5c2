-- ===== src/Tests/Memory.antt =====
-- Optionals that are copied and assigned to themselves; events that are pushed and deleted.
use async_flatbuffer_grpc.Prelude.{ℕ, ◌≡◌, true, List, [], ◌∷◌, is_some, ok, find}
use async_flatbuffer_grpc.Api.{write}
use async_flatbuffer_grpc.Service.Tags.{bit}
use async_flatbuffer_grpc.Common.Optional.{
  Optionals, has_value, value, no_values, OptionalStep, value_assigned, copied, destroyed,
  optional_steps,
}
use async_flatbuffer_grpc.Common.Optional.Ownership.{Sound}
use async_flatbuffer_grpc.Common.Optional.Values.{optional_values}
use async_flatbuffer_grpc.Server.EventOwnership.{
  Owners, OwnerStep, internal_pushed, completion_pushed, pointer_destroyed, own_steps, no_owners,
}
use async_flatbuffer_grpc.Server.EventOwnership.Deletion.{owners_of, deleted_once}

-- The second variable keeps its copy when the first is assigned again, to itself, and destroyed.
abbrev copies : List (OptionalStep ℕ)
copies =
    value_assigned 0 7
    ∷ copied 1 0
    ∷ copied 0 0
    ∷ value_assigned 0 8
    ∷ copied 0 2
    ∷ destroyed 0
    ∷ []

optional_values_example :
    (s : Optionals ℕ) × (optional_steps copies no_values ≡ ok s)
    × (has_value 1 s ≡ true)
    × (value 1 s ≡ ok 7)
    × Sound s
optional_values_example = optional_values copies 1

abbrev ownership : List OwnerStep
ownership =
    internal_pushed
    ∷ completion_pushed 3 write
    ∷ internal_pushed
    ∷ pointer_destroyed 1
    ∷ pointer_destroyed 1
    ∷ []

deleted_once_example :
    (s : Owners) × (own_steps ownership no_owners ≡ ok s)
    × (bit (is_some (find 1 s.heap)) ≡ owners_of 1 s.pointers)
deleted_once_example = deleted_once ownership 1
