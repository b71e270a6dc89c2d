-- ===== src/VersionVector/Pointwise.antt =====
-- The comparisons walk the union of the two key sets; here they are shown to decide statements about
-- every key, those without an entry included.
use mathlib.Core.Bool.{false≢true}
use openbookfs.Prelude.{
  ℤ, pos, eqb_ℤ, eqb_ℤ_iff, ltb_ℤ, ◌≡◌, refl, ◌⊎◌, inl, inr, ◌≢◌, [], ◌∷◌, Bool, true, false, Elem,
  arith, if◌then◌else◌, ◌<ℤ◌, ◌≤ℤ◌, ltb_ℤ→lt, ltb_ℤ→ge, lt→ltb_ℤ, ge→ltb_ℤ, Bool-cases, parts_of_eq,
  ◌↔◌,
}
use openbookfs.VersionVector.{
  VersionVector, KeySet, key_union, get, less_loop, less_equal_loop, equal_loop, less, less_equal,
  equal,
}
use openbookfs.VersionVector.Entries.{get-absent, Elem-key_union, Elem-or-not}

-- A statement about two numbers that holds at two zeros and at every key of the union holds at every key.
everywhere :
    (P : ℤ → ℤ → Type 0) (a b : VersionVector)
    → P (pos 0) (pos 0)
    → ((q : ℤ) → Elem q (key_union [] a b) → P (get a q) (get b q))
    → (q : ℤ) → P (get a q) (get b q)
everywhere P a b zeros walked q = elim (Elem-or-not q (key_union [] a b)) [
  | inl e ↦ walked q e
  | inr n ↦
      rw
        (
          get-absent a q (λ e. n ((Elem-key_union q a b).1 (inl e))),
          get-absent b q (λ e. n ((Elem-key_union q a b).1 (inr e))),
        )
        zeros
]

module _ (a b : VersionVector) where
  less_equal_loop→le :
      (ks : KeySet) → less_equal_loop ks a b ≡ true → (q : ℤ) → Elem q ks → get a q ≤ℤ get b q
  unfolding less_equal_loop
  less_equal_loop→le [] h q e = absurd e
  less_equal_loop→le (k ∷ ks) h q (inl e) = rw e (ltb_ℤ→ge (get b k) (get a k) (ground arith))
  less_equal_loop→le (k ∷ ks) h q (inr e) = less_equal_loop→le ks (ground arith) q e

  le→less_equal_loop :
      (ks : KeySet) → ((q : ℤ) → get a q ≤ℤ get b q) → less_equal_loop ks a b ≡ true
  unfolding less_equal_loop
  le→less_equal_loop [] h = refl
  le→less_equal_loop (k ∷ ks) h = rw (ge→ltb_ℤ (get b k) (get a k) (h k)) (le→less_equal_loop ks h)

  -- `a <= b` holds exactly when `a` is at most `b` at every key.
  pub less_equal_iff : (less_equal a b ≡ true) ↔ ((q : ℤ) → get a q ≤ℤ get b q)
  unfolding less_equal
  less_equal_iff = (
    λ h. everywhere ◌≤ℤ◌ a b (omega arith) (less_equal_loop→le (key_union [] a b) h),
    le→less_equal_loop (key_union [] a b),
  )

  equal_loop→eq : (ks : KeySet) → equal_loop ks a b ≡ true → (q : ℤ) → Elem q ks → get a q ≡ get b q
  unfolding equal_loop
  equal_loop→eq [] h q e = absurd e
  equal_loop→eq (k ∷ ks) h q (inl e) = rw e ((eqb_ℤ_iff (get a k) (get b k)).0 (ground arith))
  equal_loop→eq (k ∷ ks) h q (inr e) = equal_loop→eq ks (ground arith) q e

  eq→equal_loop : (ks : KeySet) → ((q : ℤ) → get a q ≡ get b q) → equal_loop ks a b ≡ true
  unfolding equal_loop
  eq→equal_loop [] h = refl
  eq→equal_loop (k ∷ ks) h = rw ((eqb_ℤ_iff (get a k) (get b k)).1 (h k)) (eq→equal_loop ks h)

  -- `a == b` holds exactly when the two read alike at every key.
  pub equal_iff : (equal a b ≡ true) ↔ ((q : ℤ) → get a q ≡ get b q)
  unfolding equal
  equal_iff = (
    λ h. everywhere ◌≡◌ a b refl (equal_loop→eq (key_union [] a b) h),
    eq→equal_loop (key_union [] a b),
  )

  equal_loop-false : (ks : KeySet) → equal_loop ks a b ≡ false → (q : ℤ) × (get a q ≢ get b q)
  unfolding equal_loop
  equal_loop-false [] h = cc
  equal_loop-false (k ∷ ks) h = elim (Bool-cases (eqb_ℤ (get a k) (get b k))) [
    | inl e ↦ equal_loop-false ks (ground arith)
    | inr e ↦ (k, λ p. ground (arith, (eqb_ℤ_iff (get a k) (get b k)).1 p))
  ]

  -- Where `==` fails, some key reads differently.
  pub equal-false : equal a b ≡ false → (q : ℤ) × (get a q ≢ get b q)
  unfolding equal
  equal-false = equal_loop-false (key_union [] a b)

  less_equal_loop-false :
      (ks : KeySet) → less_equal_loop ks a b ≡ false → (q : ℤ) × (get b q <ℤ get a q)
  unfolding less_equal_loop
  less_equal_loop-false [] h = cc
  less_equal_loop-false (k ∷ ks) h = elim (Bool-cases (ltb_ℤ (get b k) (get a k))) [
    | inl e ↦ (k, ltb_ℤ→lt (get b k) (get a k) e)
    | inr e ↦ less_equal_loop-false ks (ground arith)
  ]

  -- Where `<=` fails, some key of `a` is above that of `b`.
  pub less_equal-false : less_equal a b ≡ false → (q : ℤ) × (get b q <ℤ get a q)
  unfolding less_equal
  less_equal-false = less_equal_loop-false (key_union [] a b)

  less_loop→le :
      (ks : KeySet) (seen : Bool)
      → less_loop ks a b seen ≡ true
      → (q : ℤ) → Elem q ks
      → get a q ≤ℤ get b q
  unfolding less_loop
  less_loop→le [] seen h q e = absurd e
  less_loop→le (k ∷ ks) seen h q (inl e) = rw e (ltb_ℤ→ge (get b k) (get a k) (ground arith))
  less_loop→le (k ∷ ks) seen h q (inr e) =
      less_loop→le ks (if ltb_ℤ (get a k) (get b k) then true else seen) (ground arith) q e

  less_loop→lt :
      (ks : KeySet) (seen : Bool)
      → less_loop ks a b seen ≡ true
      → (seen ≡ true) ⊎ ((q : ℤ) × (get a q <ℤ get b q))
  unfolding less_loop
  less_loop→lt [] seen h = inl h
  less_loop→lt (k ∷ ks) seen h = elim (Bool-cases (ltb_ℤ (get a k) (get b k))) [
    | inl lt ↦ inr (k, ltb_ℤ→lt (get a k) (get b k) lt)
    | inr ge ↦ less_loop→lt ks seen (ground arith)
  ]

  le→less_loop :
      (ks : KeySet) (seen : Bool)
      → ((q : ℤ) → get a q ≤ℤ get b q)
      → (seen ≡ true) ⊎ ((q : ℤ) × Elem q ks × (get a q <ℤ get b q))
      → less_loop ks a b seen ≡ true
  unfolding less_loop
  le→less_loop [] seen h (inl e) = e
  le→less_loop [] seen h (inr (q, e, lt)) = absurd e
  le→less_loop (k ∷ ks) seen h (inl e) =
      rw (e, ge→ltb_ℤ (get b k) (get a k) (h k)) (le→less_loop ks _ h (inl (ground arith)))
  le→less_loop (k ∷ ks) seen h (inr (q, inl e, lt)) =
      rw (ge→ltb_ℤ (get b k) (get a k) (h k), lt→ltb_ℤ (get a k) (get b k) (rw e at lt))
        (le→less_loop ks true h (inl refl))
  le→less_loop (k ∷ ks) seen h (inr (q, inr e, lt)) =
      rw (ge→ltb_ℤ (get b k) (get a k) (h k)) (le→less_loop ks _ h (inr (q, e, lt)))

  -- `a < b` holds exactly when `a` is at most `b` at every key and below it at some key.
  pub less_iff :
      (less a b ≡ true) ↔ (((q : ℤ) → get a q ≤ℤ get b q) × ((q : ℤ) × (get a q <ℤ get b q)))
  unfolding less
  less_iff = (
    λ h. (
      everywhere ◌≤ℤ◌ a b (omega arith) (less_loop→le (key_union [] a b) false h),
      elim (less_loop→lt (key_union [] a b) false h) [ inl e ↦ absurd (false≢true e) | inr p ↦ p ],
    ),
    λ h. le→less_loop (key_union [] a b) false h.0 (inr (h.1.0, walked h.1.0 h.1.1, h.1.1)),
  )
    where
      walked : (q : ℤ) → get a q <ℤ get b q → Elem q (key_union [] a b)
      walked q lt = elim (Elem-or-not q (key_union [] a b)) [
        | inl e ↦ e
        | inr n ↦ absurd (
            omega (
              arith,
              parts_of_eq _ _ (get-absent a q (λ e. n ((Elem-key_union q a b).1 (inl e)))),
              parts_of_eq _ _ (get-absent b q (λ e. n ((Elem-key_union q a b).1 (inr e)))),
            ))
      ]
