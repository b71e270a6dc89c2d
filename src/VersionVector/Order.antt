-- ===== src/VersionVector/Order.antt =====
-- The comparisons as an order: what the peers rely on when they decide which copy is newer.
use openbookfs.Prelude.{
  ℤ, pos, eqb_ℤ, eqb_ℤ_iff, eqb_ℤ_refl, ◌≡◌, inl, inr, ◌≢◌, ◌+ℤ◌, +ℤ_parts, true, false, arith,
  if◌then◌else◌, ◌<ℤ◌, ◌≤ℤ◌, Bool-cases, eq_of_parts, parts_of_eq, ◌↔◌, ltb_ℤ, ltb_ℤ→ge, ◌&&◌,
  ltb_ℤ→lt,
}
use openbookfs.VersionVector.{
  VersionVector, get, assign, less, less_equal, greater, greater_equal, equal, not_equal,
}
use openbookfs.VersionVector.Entries.{get-assign}
use openbookfs.VersionVector.Pointwise.{
  less_equal_iff, equal_iff, less_iff, equal-false, less_equal-false,
}

-- `<` is a strict order: it is transitive, and no vector is below itself or below one that is below it.
pub less_strict_order :
    (a b c : VersionVector)
    → less a b ≡ true
    → less b c ≡ true
    → (less a c ≡ true) × (less c a ≡ false) × (less a a ≡ false)
less_strict_order a b c h k =
    (transitive, not_less c a (λ q. omega (arith, ab.0 q, bc.0 q)), not_less a a (λ q. omega arith))
  where
    ab : ((q : ℤ) → get a q ≤ℤ get b q) × ((q : ℤ) × (get a q <ℤ get b q))
    ab = (less_iff a b).0 h

    bc : ((q : ℤ) → get b q ≤ℤ get c q) × ((q : ℤ) × (get b q <ℤ get c q))
    bc = (less_iff b c).0 k

    transitive : less a c ≡ true
    transitive =
        (less_iff a c).1
          (λ q. omega (arith, ab.0 q, bc.0 q), (ab.1.0, omega (arith, ab.1.1, bc.0 ab.1.0)))

    not_less : (x y : VersionVector) → ((q : ℤ) → get y q ≤ℤ get x q) → less x y ≡ false
    not_less x y le = elim (Bool-cases (less x y)) [
      | inl e ↦ let lt = ((less_iff x y).0 e).1 in absurd (omega (arith, lt.1, le lt.0))
      | inr e ↦ e
    ]

-- `<=` holds both ways exactly for vectors that are `==`.
pub less_equal_antisym :
    (a b : VersionVector) → ((less_equal a b ≡ true) × (less_equal b a ≡ true)) ↔ (equal a b ≡ true)
less_equal_antisym a b = (
  λ h. (equal_iff a b).1 (λ q.
      eq_of_parts (get a q) (get b q)
        (omega (arith, (less_equal_iff a b).0 h.0 q, (less_equal_iff b a).0 h.1 q))),
  λ h. (
    (less_equal_iff a b).1
        (λ q. omega (arith, parts_of_eq (get a q) (get b q) ((equal_iff a b).0 h q))),
    (less_equal_iff b a).1
        (λ q. omega (arith, parts_of_eq (get a q) (get b q) ((equal_iff a b).0 h q))),
  ),
)

-- `a < b` computes as `a <= b && a != b`, although the code has a loop of its own for it.
pub less_lem : (a b : VersionVector) → less a b ≡ less_equal a b && not_equal a b
unfolding not_equal
less_lem a b = elim (Bool-cases (less_equal a b)) [
  | inr no_le ↦ rw no_le (less_false (λ h. cc ((less_equal_iff a b).1 ((less_iff a b).0 h).0)))
  | inl le ↦ elim (Bool-cases (equal a b)) [
    | inl same ↦
        rw (le, same)
          (less_false (λ h.
            let lt = ((less_iff a b).0 h).1 in
            absurd (omega (arith, lt.1, parts_of_eq _ _ ((equal_iff a b).0 same lt.0)))))
    | inr differ ↦
        let (q, ne) = equal-false a b differ in
        rw (le, differ)
          ((less_iff a b).1
            ((less_equal_iff a b).0 le, (q, below q (((less_equal_iff a b).0 le) q) ne)))
  ]
]
  where
    less_false : ¬ (less a b ≡ true) → less a b ≡ false
    less_false h = elim (Bool-cases (less a b)) [ inl e ↦ absurd (h e) | inr e ↦ e ]

    below : (q : ℤ) → get a q ≤ℤ get b q → get a q ≢ get b q → get a q <ℤ get b q
    below q le ne = elim (Bool-cases (ltb_ℤ (get a q) (get b q))) [
      | inl lt ↦ ltb_ℤ→lt (get a q) (get b q) lt
      | inr ge ↦
          absurd
            (ne (eq_of_parts (get a q) (get b q) (omega (arith, ltb_ℤ→ge (get a q) (get b q) ge))))
    ]

-- Two vectors are in conflict, neither `<=` the other, exactly when each is ahead at some key.
pub conflict_iff :
    (a b : VersionVector)
    → ((less_equal a b ≡ false) × (less_equal b a ≡ false))
      ↔ (((q : ℤ) × (get b q <ℤ get a q)) × ((q : ℤ) × (get a q <ℤ get b q)))
conflict_iff a b = (
  λ h. (less_equal-false a b h.0, less_equal-false b a h.1),
  λ h. (behind a b h.0, behind b a h.1),
)
  where
    behind : (x y : VersionVector) → ((q : ℤ) × (get y q <ℤ get x q)) → less_equal x y ≡ false
    behind x y h = elim (Bool-cases (less_equal x y)) [
      | inl e ↦ absurd (omega (arith, h.1, (less_equal_iff x y).0 e h.0))
      | inr e ↦ e
    ]

-- Adding one to any entry, present or not, gives a vector that is strictly newer.
pub less-assign_next : (m : VersionVector) (k : ℤ) → less m (assign k (get m k +ℤ pos 1) m) ≡ true
less-assign_next m k = (less_iff m (assign k (get m k +ℤ pos 1) m)).1 (
  λ q. rw get-assign (grows q),
  (k, rw (get-assign, eqb_ℤ_refl k) (omega (arith, +ℤ_parts (get m k) (pos 1)))),
)
  where
    grows : (q : ℤ) → get m q ≤ℤ (if eqb_ℤ k q then get m k +ℤ pos 1 else get m q)
    grows q = elim (Bool-cases (eqb_ℤ k q)) [
      | inl e ↦ rw (e, ← (eqb_ℤ_iff k q).0 e) (omega (arith, +ℤ_parts (get m k) (pos 1)))
      | inr e ↦ rw e (omega arith)
    ]

-- `>` and `>=` are the converses, so each strict comparison excludes the others.
pub comparisons_exclude :
    (a b : VersionVector)
    → less a b ≡ true
    → (greater a b ≡ false)
      × (greater_equal a b ≡ false)
      × (equal a b ≡ false)
      × (less_equal a b ≡ true)
unfolding greater greater_equal
comparisons_exclude a b h =
    let (q, lt) = ((less_iff a b).0 h).1 in
    (
      elim (Bool-cases (less b a)) [
        | inl e ↦ absurd (omega (arith, lt, ((less_iff b a).0 e).0 q))
        | inr e ↦ e
      ],
      elim (Bool-cases (less_equal b a)) [
        | inl e ↦ absurd (omega (arith, lt, (less_equal_iff b a).0 e q))
        | inr e ↦ e
      ],
      elim (Bool-cases (equal a b)) [
        | inl e ↦ absurd (omega (arith, lt, parts_of_eq _ _ ((equal_iff a b).0 e q)))
        | inr e ↦ e
      ],
      (less_equal_iff a b).1 ((less_iff a b).0 h).0,
    )
