-- ===== src/Prelude/Maps.antt =====
-- std::map with a number (or a pointer) for its key, as a list of entries with distinct keys.
use Prim.Native.Nat.{ℕ}
use mathlib.Core.Path.{◌≡◌, refl}
use mathlib.Core.List.{List, [], ◌∷◌}
use mathlib.Core.Option.{Option, none, some}
use native.Mathlib.Omega.{arith}
use async_flatbuffer_grpc.Prelude.Tests.{◌==◌, if◌then◌else◌}

-- A family indexed by numbers with one member changed.
abbrev pub update {ℓ} : {A : Type ℓ} → (ℕ → A) → ℕ → A → ℕ → A
update f i a j = if i == j then a else f j

module _ {ℓ} {V : Type ℓ} where
  -- `find`: none is `end()`.
  unfoldable pub find : ℕ → List (ℕ × V) → Option V
  find k [] = none
  find k ((j, v) ∷ m) = if j == k then some v else find k m

  -- An assignment through a pointer to the value under a key that is there.
  unfoldable pub assign : ℕ → V → List (ℕ × V) → List (ℕ × V)
  assign k v [] = []
  assign k v ((j, w) ∷ m) = if j == k then (j, v) ∷ assign k v m else (j, w) ∷ assign k v m

  unfoldable pub erase : ℕ → List (ℕ × V) → List (ℕ × V)
  erase k [] = []
  erase k ((j, v) ∷ m) = if j == k then erase k m else (j, v) ∷ erase k m

  pub find-assign :
      (k j : ℕ) (v : V) (m : List (ℕ × V))
      → find j (assign k v m)
        ≡ (if k == j then (elim (find k m) [ none ↦ none | some _ ↦ some v ]) else find j m)
  unfolding find assign
  find-assign k j v [] = ground arith
  find-assign k j v ((i, w) ∷ m) = ground (arith, find-assign k j v m)

  pub find-erase :
      (k j : ℕ) (m : List (ℕ × V)) → find j (erase k m) ≡ (if k == j then none else find j m)
  unfolding find erase
  find-erase k j [] = ground arith
  find-erase k j ((i, w) ∷ m) = ground (arith, find-erase k j m)

  pub find-insert :
      (k j : ℕ) (v : V) (m : List (ℕ × V))
      → find j ((k, v) ∷ m) ≡ (if k == j then some v else find j m)
  unfolding find
  find-insert k j v m = refl

  pub assign-assign :
      (k : ℕ) (u v : V) (m : List (ℕ × V)) → assign k v (assign k u m) ≡ assign k v m
  unfolding assign
  assign-assign k u v [] = refl
  assign-assign k u v ((j, w) ∷ m) = ground (arith, assign-assign k u v m)
