-- ===== src/PriorityQueue/Priorities.antt =====
-- PriorityQueue.h: the set of the priorities that have elements, as the list of them in order.
use openbookfs.Prelude.{replicate, length}
use openbookfs.Prelude.{
  ℕ, zero, suc, ◌+◌, ◌<◌, ◌≡◌, refl, sym, ap, ◌∙◌, List, [], ◌∷◌, ◌++◌, some, arith, ltb, lt→ltb,
  ge→ltb, if◌then◌else◌, get_elem?, set, take,
}

-- std::set<int>::insert
unfoldable pub add_prio : ℕ → List ℕ → List ℕ
add_prio p [] = p ∷ []
add_prio p (q ∷ qs) =
    let later = q ∷ add_prio p qs in
    if ltb p q then p ∷ q ∷ qs else if ltb q p then later else q ∷ qs

add_prio-later : (p q : ℕ) (qs : List ℕ) → q < p → add_prio p (q ∷ qs) ≡ q ∷ add_prio p qs
unfolding add_prio
add_prio-later p q qs h = rw (ge→ltb p q (omega arith), lt→ltb q p h) refl

add_prio-same : (p : ℕ) (qs : List ℕ) → add_prio p (p ∷ qs) ≡ p ∷ qs
unfolding add_prio
add_prio-same p qs = rw (ge→ltb p p (omega arith)) refl

head_eq : (a b : ℕ) (xs ys : List ℕ) → a ∷ xs ≡ b ∷ ys → a ≡ b
head_eq a b xs ys e = cc

tail_eq : (a b : ℕ) (xs ys : List ℕ) → a ∷ xs ≡ b ∷ ys → xs ≡ ys
tail_eq a b xs ys e = cc

-- Where the lists with elements stand, counted from i.
module _ {T : Type 0} where
  abbrev pub nonempty : ℕ → List (List T) → List ℕ
  nonempty i [] = []
  nonempty i ([] ∷ xss) = nonempty (suc i) xss
  nonempty i ((x ∷ xs) ∷ xss) = i ∷ nonempty (suc i) xss

  add_prio-nonempty_lower :
      (p i : ℕ) (xss : List (List T)) → p < i → add_prio p (nonempty i xss) ≡ p ∷ nonempty i xss
  unfolding add_prio
  add_prio-nonempty_lower p i [] h = refl
  add_prio-nonempty_lower p i ([] ∷ xss) h = add_prio-nonempty_lower p (suc i) xss (omega arith)
  add_prio-nonempty_lower p i ((x ∷ xs) ∷ xss) h = rw (lt→ltb p i h) refl

  nonempty_filled :
      (i : ℕ) (xs : List T) (x : T) (xss : List (List T))
      → nonempty i ((xs ++ (x ∷ [])) ∷ xss) ≡ i ∷ nonempty (suc i) xss
  nonempty_filled i [] x xss = refl
  nonempty_filled i (y ∷ ys) x xss = refl

  -- An element more in one list puts that place into the set.
  pub add_prio-nonempty :
      (p i k : ℕ) (xss : List (List T)) (xs : List T) (x : T)
      → p ≡ i + k
      → get_elem? xss k ≡ some xs
      → add_prio p (nonempty i xss) ≡ nonempty i (set xss k (xs ++ (x ∷ [])))
  add_prio-nonempty p i k [] xs x e h = absurd cc
  add_prio-nonempty p i zero ([] ∷ xss) xs x e h =
      add_prio-nonempty_lower p (suc i) xss (omega arith)
      ∙ ap (λ q. q ∷ nonempty (suc i) xss) (omega arith)
      ∙ sym (nonempty_filled i xs x xss)
  add_prio-nonempty p i zero ((y ∷ ys) ∷ xss) xs x e h =
      ap (λ q. add_prio q (i ∷ nonempty (suc i) xss)) (omega arith)
      ∙ add_prio-same i (nonempty (suc i) xss)
      ∙ sym (nonempty_filled i xs x xss)
  add_prio-nonempty p i (suc k) ([] ∷ xss) xs x e h =
      add_prio-nonempty p (suc i) k xss xs x (omega arith) h
  add_prio-nonempty p i (suc k) ((y ∷ ys) ∷ xss) xs x e h =
      add_prio-later p i (nonempty (suc i) xss) (omega arith)
      ∙ ap (λ l. i ∷ l) (add_prio-nonempty p (suc i) k xss xs x (omega arith) h)

  -- What the set does when the place goes that has no elements any more.
  abbrev pub without : List T → ℕ → List ℕ → List ℕ
  without [] p ps = ps
  without (x ∷ xs) p ps = p ∷ ps

  -- The first place of the set has the first list with elements; every list before it is empty.
  abbrev pub FirstAt : ℕ → List (List T) → ℕ → List ℕ → Type 0
  FirstAt i xss p ps =
      (k : ℕ) × (x : T) × (xs : List T) × (p ≡ i + k)
      × (get_elem? xss k ≡ some (x ∷ xs))
      × (take k xss ≡ replicate k [])
      × (without xs p ps ≡ nonempty i (set xss k xs))

  pub nonempty-FirstAt :
      (i : ℕ) (xss : List (List T)) (p : ℕ) (ps : List ℕ)
      → nonempty i xss ≡ p ∷ ps
      → FirstAt i xss p ps
  nonempty-FirstAt i [] p ps h = absurd cc
  nonempty-FirstAt i ([] ∷ xss) p ps h =
      let r = nonempty-FirstAt (suc i) xss p ps h in
      (suc r.0, r.1, r.2, omega (arith, r.3), r.4, ap (λ l. [] ∷ l) r.5, r.6)
  nonempty-FirstAt i ((x ∷ []) ∷ xss) p ps h =
      let at = head_eq i p (nonempty (suc i) xss) ps h in
      (0, x, [], omega (arith, at), refl, refl, sym (tail_eq i p (nonempty (suc i) xss) ps h))
  nonempty-FirstAt i ((x ∷ y ∷ ys) ∷ xss) p ps h =
      let at = head_eq i p (nonempty (suc i) xss) ps h in
      (0, x, y ∷ ys, omega (arith, at), refl, refl, sym h)

  -- The set is empty when there are no elements at all.
  pub nonempty-none :
      (i : ℕ) (xss : List (List T)) → nonempty i xss ≡ [] → xss ≡ replicate (length xss) []
  nonempty-none i [] h = refl
  nonempty-none i ([] ∷ xss) h = ap (λ l. [] ∷ l) (nonempty-none (suc i) xss h)
  nonempty-none i ((x ∷ xs) ∷ xss) h = absurd cc
