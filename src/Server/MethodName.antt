-- ===== src/Server/MethodName.antt =====
-- async_grpc/server.cc, Server::Builder::ParseMethodFullName. A string is the list of its bytes.
use async_flatbuffer_grpc.Prelude.{
  ℕ, ◌≡◌, ◌≢◌, refl, ap, ◌∙◌, Bool, true, false, not, ◌&&◌, List, [], ◌∷◌, ◌++◌, arith,
  if◌then◌else◌, ◌==◌, Result, ok, fault, out_of_range, check, ◌>>◌, ◌⊎◌, inl, inr,
}

abbrev pub slash : ℕ
slash = b'/'

-- std::getline(stream, line, '/'): the line, and what is left of the stream behind the delimiter.
unfoldable pub getline : List ℕ → List ℕ × List ℕ
getline [] = ([], [])
getline (c ∷ s) = let (line, rest) = getline s in if c == slash then ([], s) else (c ∷ line, rest)

abbrev pub is_empty : List ℕ → Bool
is_empty [] = true
is_empty (_ ∷ _) = false

-- The names of the service and of the method. `at(0)` of the empty string throws.
unfoldable pub parse_method_full_name : List ℕ → Result (List ℕ × List ℕ)
parse_method_full_name [] = fault out_of_range
parse_method_full_name (c ∷ stream) = do
  check (c == slash)
  let service = getline stream
  let method = getline service.1
  check (not (is_empty service.0) && not (is_empty method.0))
  ok (service.0, method.0)

-- No byte of the name is a slash.
abbrev pub HasNoSlash : List ℕ → Type 0
HasNoSlash [] = Unit {0}
HasNoSlash (c ∷ s) = (c ≢ slash) × HasNoSlash s

getline_delimited :
    (line rest : List ℕ) → HasNoSlash line → getline (line ++ slash ∷ rest) ≡ (line, rest)
unfolding getline
getline_delimited [] rest h = refl
getline_delimited (c ∷ line) rest h = ground (arith, getline_delimited line rest h.1)

getline_last : (line : List ℕ) → HasNoSlash line → getline line ≡ (line, [])
unfolding getline
getline_last [] h = refl
getline_last (c ∷ line) h = ground (arith, getline_last line h.1)

getline-HasNoSlash : (s : List ℕ) → HasNoSlash (getline s).0
unfolding getline
getline-HasNoSlash [] = tt
getline-HasNoSlash (c ∷ s) = ground (arith, getline-HasNoSlash s)

getline_split :
    (s : List ℕ)
    → ((s ≡ (getline s).0) × ((getline s).1 ≡ [])) ⊎ (s ≡ (getline s).0 ++ slash ∷ (getline s).1)
unfolding getline
getline_split [] = inl (refl, refl)
getline_split (c ∷ s) = ground (arith, getline_split s)

-- A full name made of a slash, a service name, a slash and a method name parses to the two names,
-- if neither is empty and neither has a slash in it.
pub parse_method_full_name_complete :
    (service method : List ℕ)
    → service ≢ []
    → method ≢ []
    → HasNoSlash service
    → HasNoSlash method
    → parse_method_full_name (slash ∷ service ++ slash ∷ method) ≡ ok (service, method)
unfolding parse_method_full_name
parse_method_full_name_complete service method s m hs hm =
    rw (getline_delimited service method hs, getline_last method hm) (ground arith)

-- A parse that succeeds, taken apart.
parse_parts :
    (c : ℕ) (stream service method : List ℕ)
    → parse_method_full_name (c ∷ stream) ≡ ok (service, method)
    → (c ≡ slash)
      × (service ≡ (getline stream).0)
      × (method ≡ (getline (getline stream).1).0)
      × (service ≢ [])
      × (method ≢ [])
unfolding parse_method_full_name
parse_parts c stream service method h = ground arith

-- The stream behind the first slash, from the two lines that are read from it.
rejoin :
    (stream : List ℕ)
    → (getline (getline stream).1).0 ≢ []
    → let service = (getline stream).0 in
      let method = (getline (getline stream).1).0 in
      (stream ≡ service ++ slash ∷ method)
      ⊎ ((rest : List ℕ) × (stream ≡ service ++ slash ∷ (method ++ slash ∷ rest)))
rejoin stream h = elim (getline_split stream) [
  | inl (_, ended) ↦ absurd (h (rw ended (unfold getline in refl)))
  | inr whole ↦ elim (getline_split (getline stream).1) [
    | inl (last, _) ↦ inl (whole ∙ ap (λ r. (getline stream).0 ++ slash ∷ r) last)
    | inr more ↦
        inr ((getline (getline stream).1).1, whole ∙ ap (λ r. (getline stream).0 ++ slash ∷ r) more)
  ]
]

-- What a parse returns: the full name is a slash, the service name, a slash and the method name,
-- and ends there or goes on with a slash; neither name is empty or has a slash in it.
pub parse_method_full_name_sound :
    (name service method : List ℕ)
    → parse_method_full_name name ≡ ok (service, method)
    → (service ≢ [])
      × (method ≢ [])
      × HasNoSlash service
      × HasNoSlash method
      × ((name ≡ slash ∷ (service ++ slash ∷ method))
          ⊎ ((rest : List ℕ) × (name ≡ slash ∷ (service ++ slash ∷ (method ++ slash ∷ rest)))))
parse_method_full_name_sound [] service method h = unfold parse_method_full_name in cc h
parse_method_full_name_sound (c ∷ stream) service method h =
    let (first, s, m, has_service, has_method) = parse_parts c stream service method h in
    (
      has_service,
      has_method,
      rw s (getline-HasNoSlash stream),
      rw m (getline-HasNoSlash (getline stream).1),
      ground (arith, rejoin stream (rw (← m) has_method)),
    )
