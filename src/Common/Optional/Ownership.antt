-- ===== src/Common/Optional/Ownership.antt =====
-- async_grpc/common/optional.h: each value in memory is owned by one optional, before and after an
-- assignment.
use async_flatbuffer_grpc.Prelude.{
  ℕ, suc, ◌≤◌, ◌≡◌, inl, inr, Bool-cases, true, Option, Option-cases, none, some, List, ◌∷◌, arith,
  ◌==◌, if◌then◌else◌, is_some, update, find, find-erase, find-insert,
}
use async_flatbuffer_grpc.Common.Optional.{Optionals, reset}

module _ {T : Type 0} where
  -- What the variable is worth.
  unfoldable pub content : Optionals T → ℕ → Option T
  content s i = elim (s.value_ i) [ none ↦ none | some p ↦ find p s.heap ]

  pub record Sound (s : Optionals T) : Type 0 where
    pub fresh : (p : ℕ) → s.next ≤ p → find p s.heap ≡ none
    pub engaged : (i p : ℕ) → s.value_ i ≡ some p → is_some (find p s.heap) ≡ true
    pub unshared : (i j p : ℕ) → s.value_ i ≡ some p → s.value_ j ≡ some p → i ≡ j
    pub owned : (p : ℕ) → is_some (find p s.heap) ≡ true → (i : ℕ) × (s.value_ i ≡ some p)

  module _ (s : Optionals T) (v : Sound s) (i : ℕ) where
    open v use {fresh, engaged, unshared, owned}

    -- The variable lets go of what it held.
    pub released-Sound :
        (o : Option ℕ)
        → s.value_ i ≡ o
        → Sound (record s { heap = reset o s.heap; value_ = update s.value_ i none })
    released-Sound none e = record {
      fresh = fresh;
      engaged = λ j p h. ground (arith, engaged j p);
      unshared = λ j k p h g. ground (arith, unshared j k p);
      owned = λ p h. let (j, f) = owned p h in (j, ground arith);
    }
    released-Sound (some q) e = record {
      fresh = λ p h. ground (arith, fresh p h, find-erase q p s.heap);
      engaged = λ j p h. ground (arith, engaged j p, unshared i j q, find-erase q p s.heap);
      unshared = λ j k p h g. ground (arith, unshared j k p);
      owned = λ p h.
          let (j, f) = owned p (ground (arith, find-erase q p s.heap)) in
          (j, ground (arith, find-erase q p s.heap));
    }

    pub released-content :
        (o : Option ℕ)
        → s.value_ i ≡ o
        → (j : ℕ)
        → content (record s { heap = reset o s.heap; value_ = update s.value_ i none }) j
          ≡ (if i == j then none else content s j)
    unfolding content
    released-content none e j = ground arith
    released-content (some q) e j = elim (Option-cases (s.value_ j)) [
      | inl empty ↦ ground (arith, empty)
      | inr (p, there) ↦ ground (arith, there, find-erase q p s.heap, unshared i j q)
    ]

    module _ (x : T) where
      abbrev pub made : List (ℕ × T)
      made = (s.next, x) ∷ s.heap

      pub assigned-Sound :
          (o : Option ℕ)
          → s.value_ i ≡ o
          → Sound (record {
            heap = reset o made;
            next = suc s.next;
            value_ = update s.value_ i (some s.next);
          })
      assigned-Sound none e = record {
        fresh = λ p h. ground (arith, fresh p, find-insert s.next p x s.heap);
        engaged = λ j p h. ground (arith, engaged j p, find-insert s.next p x s.heap);
        unshared = λ j k p h g. ground (arith, unshared j k p, fresh p, engaged j p, engaged k p);
        owned = λ p h. elim (Bool-cases (s.next == p)) [
          | inl new ↦ (i, ground arith)
          | inr old ↦
              let (j, f) = owned p (ground (arith, find-insert s.next p x s.heap)) in
              (j, ground arith)
        ];
      }
      assigned-Sound (some q) e = record {
        fresh = λ p h. ground (arith, fresh p, find-insert s.next p x s.heap, find-erase q p made);
        engaged = λ j p h. ground (
          arith,
          engaged j p,
          engaged i q,
          fresh q,
          unshared i j q,
          find-insert s.next p x s.heap,
          find-erase q p made,
        );
        unshared = λ j k p h g. ground (arith, unshared j k p, fresh p, engaged j p, engaged k p);
        owned = λ p h. elim (Bool-cases (s.next == p)) [
          | inl new ↦ (i, ground arith)
          | inr old ↦
              let (j, f) =
                owned p (ground (arith, find-insert s.next p x s.heap, find-erase q p made)) in
              (j, ground (arith, find-erase q p made))
        ];
      }

      pub assigned-content :
          (o : Option ℕ)
          → s.value_ i ≡ o
          → (j : ℕ)
          → content
              (record {
                heap = reset o made;
                next = suc s.next;
                value_ = update s.value_ i (some s.next);
              })
              j
            ≡ (if i == j then some x else content s j)
      unfolding content
      assigned-content none e j = elim (Option-cases (s.value_ j)) [
        | inl empty ↦ ground (arith, empty, find-insert s.next s.next x s.heap)
        | inr (p, there) ↦ ground (
          arith,
          there,
          engaged j p,
          fresh p,
          find-insert s.next p x s.heap,
          find-insert s.next s.next x s.heap,
        )
      ]
      assigned-content (some q) e j = elim (Option-cases (s.value_ j)) [
        | inl empty ↦ ground (
          arith,
          empty,
          engaged i q,
          fresh q,
          find-insert s.next s.next x s.heap,
          find-erase q s.next made,
        )
        | inr (p, there) ↦ ground (
          arith,
          there,
          engaged j p,
          engaged i q,
          fresh p,
          fresh q,
          unshared i j q,
          find-insert s.next p x s.heap,
          find-insert s.next s.next x s.heap,
          find-erase q p made,
          find-erase q s.next made,
        )
      ]
