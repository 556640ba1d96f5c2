-- ===== src/Server/Builder/Keys.antt =====
-- async_grpc/server.h: the keys of the maps of a Builder stay in order. String order first.
use async_flatbuffer_grpc.Prelude.{
  ℕ, ◌≡◌, refl, ◌∙◌, true, false, none, List, [], ◌∷◌, arith, Result, ok, ◌>>=◌, >>=-ok, subst,
  Bool-cases, Option-cases, inl, inr, All,
}
use async_flatbuffer_grpc.Server.MethodName.{parse_method_full_name}
use async_flatbuffer_grpc.Server.Builder.{
  string_eq, string_lt, look_up, insert, emplace, overwrite, Builder, register, register_handler,
}

string_lt_trans :
    (s t u : List ℕ) → string_lt s t ≡ true → string_lt t u ≡ true → string_lt s u ≡ true
string_lt_trans s [] u h g = cc
string_lt_trans s (b ∷ t) [] h g = cc
string_lt_trans [] (b ∷ t) (c ∷ u) h g = refl
string_lt_trans (a ∷ s) (b ∷ t) (c ∷ u) h g = ground (arith, string_lt_trans s t u)

-- Two strings that are different and not in order are in order the other way round.
string_lt_total :
    (s t : List ℕ) → string_eq t s ≡ false → string_lt s t ≡ false → string_lt t s ≡ true
string_lt_total [] [] e h = cc
string_lt_total [] (b ∷ t) e h = cc
string_lt_total (a ∷ s) [] e h = refl
string_lt_total (a ∷ s) (b ∷ t) e h = ground (arith, string_lt_total s t)

pub string_lt_asym : (s t : List ℕ) → string_lt s t ≡ true → string_lt t s ≡ false
string_lt_asym s [] h = cc
string_lt_asym [] (b ∷ t) h = refl
string_lt_asym (a ∷ s) (b ∷ t) h = ground (arith, string_lt_asym s t)

pub string_lt_distinct : (s t : List ℕ) → string_lt s t ≡ true → string_eq s t ≡ false
string_lt_distinct s [] h = cc
string_lt_distinct [] (b ∷ t) h = refl
string_lt_distinct (a ∷ s) (b ∷ t) h = ground (arith, string_lt_distinct s t)

module _ {ℓ} {V : Type ℓ} where
  -- The keys of the map are all behind the key.
  abbrev pub Above : List ℕ → List (List ℕ × V) → Type 0
  Above k m = All (λ e. string_lt k e.0 ≡ true) m

  -- The keys are in order, so no two of them are equal.
  abbrev pub Sorted : List (List ℕ × V) → Type 0
  Sorted [] = Unit {0}
  Sorted (e ∷ m) = Above e.0 m × Sorted m

  Above-lower :
      (j k : List ℕ) (m : List (List ℕ × V)) → string_lt j k ≡ true → Above k m → Above j m
  Above-lower j k [] h a = tt
  Above-lower j k ((i, v) ∷ m) h (a, as') = (string_lt_trans j k i h a, Above-lower j k m h as')

  Above-insert :
      (j k : List ℕ) (v : V) (m : List (List ℕ × V))
      → string_lt j k ≡ true
      → Above j m
      → Above j (insert k v m)
  unfolding insert
  Above-insert j k v [] h a = (h, tt)
  Above-insert j k v ((i, w) ∷ m) h (a, as') = elim (Bool-cases (string_lt k i)) [
    | inl before ↦ rw before (h, (a, as'))
    | inr behind ↦ rw behind (a, Above-insert j k v m h as')
  ]

  insert-Sorted :
      (k : List ℕ) (v : V) (m : List (List ℕ × V))
      → look_up k m ≡ none
      → Sorted m
      → Sorted (insert k v m)
  unfolding insert look_up
  insert-Sorted k v [] h s = (tt, tt)
  insert-Sorted k v ((j, w) ∷ m) h (a, s) = elim (Bool-cases (string_lt k j)) [
    | inl before ↦ rw before ((before, Above-lower k j m before a), (a, s))
    | inr behind ↦
        let other : string_eq j k ≡ false = ground (arith, h) in
        let rest : look_up k m ≡ none = ground (arith, h) in
        rw behind
          (Above-insert j k v m (string_lt_total k j other behind) a, insert-Sorted k v m rest s)
  ]

  emplace-Sorted : (k : List ℕ) (v : V) (m : List (List ℕ × V)) → Sorted m → Sorted (emplace k v m)
  unfolding emplace
  emplace-Sorted k v m s = elim (Option-cases (look_up k m)) [
    | inl gone ↦ rw gone (insert-Sorted k v m gone s)
    | inr (w, there) ↦ rw there s
  ]

  Above-overwrite :
      (j k : List ℕ) (v : V) (m : List (List ℕ × V)) → Above j m → Above j (overwrite k v m)
  unfolding overwrite
  Above-overwrite j k v [] a = tt
  Above-overwrite j k v ((i, w) ∷ m) (a, as') = elim (Bool-cases (string_eq i k)) [
    | inl same ↦ rw same (a, as')
    | inr other ↦ rw other (a, Above-overwrite j k v m as')
  ]

  overwrite-Sorted :
      (k : List ℕ) (v : V) (m : List (List ℕ × V)) → Sorted m → Sorted (overwrite k v m)
  unfolding overwrite
  overwrite-Sorted k v [] s = tt
  overwrite-Sorted k v ((i, w) ∷ m) (a, s) = elim (Bool-cases (string_eq i k)) [
    | inl same ↦ rw same (a, s)
    | inr other ↦ rw other (Above-overwrite i k v m a, overwrite-Sorted k v m s)
  ]

module _ {ℓ} {Info : Type ℓ} where
  -- Calls of RegisterHandler, in a row.
  unfoldable pub register_handlers : List (List ℕ × Info) → Builder Info → Result (Builder Info)
  register_handlers [] b = ok b
  register_handlers ((name, info) ∷ rest) b =
      register_handler name info b >>= register_handlers rest

  register-Sorted :
      (service method : List ℕ) (info : Info) (b : Builder Info)
      → Sorted b.rpc_handlers
      → Sorted (register service method info b).rpc_handlers
  unfolding register
  register-Sorted service method info b s =
      overwrite-Sorted service _ _ (emplace-Sorted service [] b.rpc_handlers s)

  -- What a call leaves of the builder's options, and of the order of its services.
  abbrev pub Keeps : Builder Info → Builder Info → Type 0
  Keeps b b' = (b'.options ≡ b.options) × Sorted b'.rpc_handlers

  register_handler-Keeps :
      (name : List ℕ) (info : Info) (b b' : Builder Info)
      → register_handler name info b ≡ ok b'
      → Sorted b.rpc_handlers
      → Keeps b b'
  unfolding register_handler register
  register_handler-Keeps name info b b' e s =
      let (names, _, made) =
        >>=-ok (λ names. ok (register names.0 names.1 info b)) (parse_method_full_name name) e in
      let same : register names.0 names.1 info b ≡ b' = cc made in
      subst (Keeps b) same (refl, register-Sorted names.0 names.1 info b s)

  pub register_handlers-Keeps :
      (calls : List (List ℕ × Info)) (b b' : Builder Info)
      → register_handlers calls b ≡ ok b'
      → Sorted b.rpc_handlers
      → Keeps b b'
  unfolding register_handlers
  register_handlers-Keeps [] b b' e s = let same : b ≡ b' = cc e in subst (Keeps b) same (refl, s)
  register_handlers-Keeps ((name, info) ∷ rest) b b' e s =
      let (b1, e1, e2) = >>=-ok (register_handlers rest) (register_handler name info b) e in
      let (same1, s1) = register_handler-Keeps name info b b1 e1 s in
      let (same2, s2) = register_handlers-Keeps rest b1 b' e2 s1 in (same2 ∙ same1, s2)
