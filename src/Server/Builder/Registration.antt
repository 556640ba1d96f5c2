-- ===== src/Server/Builder/Registration.antt =====
-- async_grpc/server.h: RegisterHandler, of a method that has a handler already or not.
use async_flatbuffer_grpc.Prelude.{
  ℕ, ◌≡◌, refl, sym, ◌∙◌, ap, true, false, ◌&&◌, Option, none, some, List, [], ◌∷◌, arith,
  if◌then◌else◌, ok, Bool-cases, Option-cases, ◌⊎◌, inl, inr, subst,
}
use async_flatbuffer_grpc.Server.MethodName.{parse_method_full_name}
use async_flatbuffer_grpc.Server.Builder.{
  string_eq, look_up, insert, emplace, overwrite, or_empty, Builder, register, register_handler,
  handler_of,
}

string_eq-true : (s t : List ℕ) → string_eq s t ≡ true → s ≡ t
string_eq-true [] [] h = refl
string_eq-true [] (b ∷ t) h = cc
string_eq-true (a ∷ s) [] h = cc
string_eq-true (a ∷ s) (b ∷ t) h = ground (arith, string_eq-true s t)

string_eq_self : (s : List ℕ) → string_eq s s ≡ true
string_eq_self [] = refl
string_eq_self (a ∷ s) = ground (arith, string_eq_self s)

-- The value of a key, or else the one given.
abbrev pub value_or {ℓ} : {V : Type ℓ} → Option V → V → V
value_or none v = v
value_or (some w) v = w

module _ {ℓ} {V : Type ℓ} where
  look_up-insert :
      (k j : List ℕ) (v : V) (m : List (List ℕ × V))
      → look_up k m ≡ none
      → look_up j (insert k v m) ≡ (if string_eq k j then some v else look_up j m)
  unfolding look_up insert
  look_up-insert k j v [] h = ground arith
  look_up-insert k j v ((i, w) ∷ m) h = ground (
    arith,
    look_up-insert k j v m,
    string_eq-true i j,
    string_eq_self k,
    string_eq-true k j,
    string_eq_self j,
  )

  look_up-emplace :
      (k j : List ℕ) (v : V) (m : List (List ℕ × V))
      → look_up j (emplace k v m)
        ≡ (if string_eq k j then some (value_or (look_up k m) v) else look_up j m)
  unfolding emplace
  look_up-emplace k j v m = elim (Option-cases (look_up k m)) [
    | inl absent ↦ rw absent (look_up-insert k j v m absent)
    | inr (w, there) ↦ rw there (kept w there (Bool-cases (string_eq k j)))
  ]
    where
      kept :
          (w : V)
          → look_up k m ≡ some w
          → (string_eq k j ≡ true) ⊎ (string_eq k j ≡ false)
          → look_up j m ≡ (if string_eq k j then some w else look_up j m)
      kept w there (inl e) = rw e (subst (λ i. look_up i m ≡ some w) (string_eq-true k j e) there)
      kept w there (inr e) = rw e refl

  look_up-overwrite :
      (k j : List ℕ) (v w : V) (m : List (List ℕ × V))
      → look_up k m ≡ some w
      → look_up j (overwrite k v m) ≡ (if string_eq k j then some v else look_up j m)
  unfolding look_up overwrite
  look_up-overwrite k j v w [] h = cc
  look_up-overwrite k j v w ((i, u) ∷ m) h = ground (
    arith,
    look_up-overwrite k j v w m,
    string_eq-true i k,
    string_eq-true i j,
    string_eq_self k,
    string_eq-true k j,
    string_eq_self j,
  )

module _ {ℓ} {Info : Type ℓ} where
  or_empty-value_or : (o : Option (List (List ℕ × Info))) → or_empty o ≡ value_or o []
  or_empty-value_or none = refl
  or_empty-value_or (some m) = refl

  registered_lem :
      (service method service' method' : List ℕ) (info : Info) (b : Builder Info)
      → handler_of service' method' (register service method info b) ≡ (
          if string_eq service service' && string_eq method method'
          then some (value_or (handler_of service method b) info)
          else handler_of service' method' b)
  unfolding register
  registered_lem service method service' method' info b =
      let m = b.rpc_handlers in
      let handlers = emplace service [] m in
      let methods = or_empty (look_up service m) in
      let made : look_up service handlers ≡ some methods =
        look_up-emplace service service [] m
        ∙ rw (string_eq_self service) (ap some (sym (or_empty-value_or (look_up service m)))) in
      let all = emplace method info methods in
      let found : look_up service' (overwrite service all handlers)
          ≡ (if string_eq service service' then some all else look_up service' handlers) =
        look_up-overwrite service service' all methods handlers made in
      rw (made, found) (by_service (Bool-cases (string_eq service service')))
    where
      by_service :
          (string_eq service service' ≡ true) ⊎ (string_eq service service' ≡ false)
          → look_up method' (
              or_empty (
                if string_eq service service'
                then some (emplace method info (or_empty (look_up service b.rpc_handlers)))
                else look_up service' (emplace service [] b.rpc_handlers)))
            ≡ (if string_eq service service' && string_eq method method'
                then some (value_or (handler_of service method b) info)
                else handler_of service' method' b)
      by_service (inl e) = rw e (
          look_up-emplace method method' info (or_empty (look_up service b.rpc_handlers))
          ∙ ap
              (λ s.
                if string_eq method method'
                then some (value_or (handler_of service method b) info)
                else look_up method' (or_empty (look_up s b.rpc_handlers)))
              (string_eq-true service service' e))
      by_service (inr e) =
          let same : look_up service' (emplace service [] b.rpc_handlers)
              ≡ look_up service' b.rpc_handlers =
            look_up-emplace service service' [] b.rpc_handlers ∙ rw e refl in
          rw (e, same) refl

  -- After the registration of a handler for a method's full name that parses, the method has that
  -- handler if it had none before, and else the one that it had: a second registration is ignored.
  -- Every other method of any service has what it had, and the options are unchanged.
  pub register_handler_lem :
      (method_full_name service method service' method' : List ℕ) (info : Info) (b : Builder Info)
      → parse_method_full_name method_full_name ≡ ok (service, method)
      → (b' : Builder Info) × (register_handler method_full_name info b ≡ ok b')
        × (b'.options ≡ b.options)
        × (handler_of service' method' b' ≡ (
            if string_eq service service' && string_eq method method'
            then some (value_or (handler_of service method b) info)
            else handler_of service' method' b))
  unfolding register_handler register
  register_handler_lem method_full_name service method service' method' info b parsed = (
    register service method info b,
    rw parsed refl,
    refl,
    registered_lem service method service' method' info b,
  )
