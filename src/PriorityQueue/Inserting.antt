-- ===== src/PriorityQueue/Inserting.antt =====
-- PriorityQueue.h: what insert does at every priority.
use openbookfs.Prelude.{
  ==_ne, ==_iff, ◌==◌, ℕ-cases, Option-cases, ℕ, zero, suc, ◌≤◌, ◌<◌, ◌≡◌, inl, inr, refl, sym, ap,
  ◌∙◌, subst, List, [], ◌∷◌, ◌++◌, Option, none, some, arith, length, get_elem?, set, ltb, lt→ltb,
  ge→ltb, if◌then◌else◌, ℤ, pos, negsuc,
}
use openbookfs.Queue.{Queue}
use openbookfs.PriorityQueue.{PriorityQueue, insert, Inserted, refused, undefined}
use openbookfs.PriorityQueue.Priorities.{add_prio, add_prio-nonempty}
use openbookfs.PriorityQueue.Levels.{level_insert_lem}
use openbookfs.PriorityQueue.Order.{Keeps, level_at, LevelsHold-set, length-LevelsHold, Stores}

module _ {T : Type 0} where
  in_range :
      (xss : List (List T)) (p : ℕ) (xs : List T) → get_elem? xss p ≡ some xs → p < length xss
  in_range [] p xs e = absurd cc
  in_range (ys ∷ xss) zero xs e = omega arith
  in_range (ys ∷ xss) (suc p) xs e = omega (arith, in_range xss p xs e)

  outside : (qs : List (Queue T)) → get_elem? qs (length qs) ≡ none
  outside [] = refl
  outside (q ∷ qs) = outside qs

  insert_end :
      (x : T) (pq : PriorityQueue T) (n : ℕ)
      → length pq.levels ≡ n
      → insert x (pos n) pq ≡ undefined
  unfolding insert
  insert_end x pq n e =
      subst (λ m. insert x (pos m) pq ≡ undefined) e
        (rw (insert, ge→ltb (length pq.levels) (length pq.levels) (omega arith), outside pq.levels)
          refl)

  insert_above :
      (x : T) (pq : PriorityQueue T) (p : ℕ) → length pq.levels < p → insert x (pos p) pq ≡ refused
  unfolding insert
  insert_above x pq p h = rw (insert, lt→ltb (length pq.levels) p h) refl

  insert_negative : (x : T) (pq : PriorityQueue T) (n : ℕ) → insert x (negsuc n) pq ≡ refused
  unfolding insert
  insert_negative x pq n = refl

  insert_level :
      (size : ℕ) (xss : List (List T)) (xs : List T) (x : T) (p : ℕ) (pq : PriorityQueue T)
      → Keeps size xss pq
      → get_elem? xss p ≡ some xs
      → p < length xss
      → (length xs < size → Stores size (set xss p (xs ++ (x ∷ []))) (insert x (pos p) pq))
        × (size ≤ length xs → insert x (pos p) pq ≡ undefined)
  unfolding insert
  insert_level size xss xs x p pq k e lt =
      let level = level_at size p xss pq.levels xs k.0 e in
      let bound =
        ge→ltb (length pq.levels) p (omega (arith, length-LevelsHold size xss pq.levels k.0)) in
      let put = level_insert_lem size xs x level.0 level.2 in
      (
        λ room.
            let q = put.0 room in
            (
              record { levels = set pq.levels p q.0; prio_queue = add_prio p pq.prio_queue },
              rw (insert, bound, level.1, q.1) refl,
              (
                LevelsHold-set size p xss pq.levels (xs ++ (x ∷ [])) q.0 k.0 q.2,
                ap (add_prio p) k.1 ∙ add_prio-nonempty p 0 p xss xs x (omega arith) e,
              ),
            ),
        λ none_left. rw (insert, bound, level.1, put.1 none_left) refl,
      )

  -- What insert comes to at a priority: `at` is the list of that priority, if there is such a list.
  abbrev pub PutsAt : ℕ → List (List T) → T → ℕ → Option (List T) → Inserted T → Type 0
  PutsAt size xss x p (some xs) r =
      if ltb (length xs) size then Stores size (set xss p (xs ++ (x ∷ []))) r else (r ≡ undefined)
  PutsAt size xss x p none r = if p == length xss then (r ≡ undefined) else (r ≡ refused)

  abbrev pub PutsOrFails : ℕ → List (List T) → T → ℤ → Inserted T → Type 0
  PutsOrFails size xss x (pos p) r = PutsAt size xss x p (get_elem? xss p) r
  PutsOrFails size xss x (negsuc n) r = r ≡ refused

  missing : (xss : List (List T)) (p : ℕ) → get_elem? xss p ≡ none → length xss ≤ p
  missing [] p e = omega arith
  missing (xs ∷ xss) zero e = absurd cc
  missing (xs ∷ xss) (suc p) e = omega (arith, missing xss p e)

  insert_room :
      (size : ℕ) (xss : List (List T)) (xs : List T) (x : T) (p : ℕ) (pq : PriorityQueue T)
      → Keeps size xss pq
      → get_elem? xss p ≡ some xs
      → PutsAt size xss x p (some xs) (insert x (pos p) pq)
  insert_room size xss xs x p pq k e =
      let both = insert_level size xss xs x p pq k e (in_range xss p xs e) in
      elim (ℕ-cases (length xs) size) [
        | inl lt ↦ rw (lt→ltb (length xs) size lt) (both.0 lt)
        | inr le ↦ rw (ge→ltb (length xs) size le) (both.1 le)
      ]

  insert_missing :
      (size : ℕ) (xss : List (List T)) (x : T) (p : ℕ) (pq : PriorityQueue T)
      → Keeps size xss pq
      → get_elem? xss p ≡ none
      → PutsAt size xss x p none (insert x (pos p) pq)
  insert_missing size xss x p pq k e =
      let len = length-LevelsHold size xss pq.levels k.0 in
      elim (ℕ-cases (length xss) p) [
        | inl lt ↦
            rw (==_ne p (length xss) (λ q. omega arith)) (insert_above x pq p (omega (arith, len)))
        | inr le ↦
            let same : length xss ≡ p = omega (arith, missing xss p e) in
            rw ((==_iff p (length xss)).1 (sym same)) (insert_end x pq p (len ∙ same))
      ]

  -- A priority below the number of levels: the element goes to the end of the list of that priority, if
  -- it has room; if it has none, the null pointer is used. A priority that is that number itself names
  -- a level outside of the vector. A greater or a negative one is refused.
  pub insert_lem :
      (size : ℕ) (xss : List (List T)) (x : T) (prio : ℤ) (pq : PriorityQueue T)
      → Keeps size xss pq
      → PutsOrFails size xss x prio (insert x prio pq)
  insert_lem size xss x (negsuc n) pq k = insert_negative x pq n
  insert_lem size xss x (pos p) pq k = elim (Option-cases (get_elem? xss p)) [
    | inl e ↦ rw (e) (insert_missing size xss x p pq k e)
    | inr (xs, e) ↦ rw (e) (insert_room size xss xs x p pq k e)
  ]
