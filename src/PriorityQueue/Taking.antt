-- ===== src/PriorityQueue/Taking.antt =====
-- PriorityQueue.h: extract takes the elements in the order of the priorities.
use openbookfs.Prelude.{
  ℕ, zero, suc, ◌≡◌, ◌⊎◌, inl, inr, refl, sym, ap, ◌∙◌, List, [], ◌∷◌, Option, none, some, arith,
  length, get_elem?, set, take, replicate,
}
use openbookfs.Queue.{Queue}
use openbookfs.Queue.Segments.{head_or, contents}
use openbookfs.Queue.Fifo.{Represents, extract_lem}
use openbookfs.PriorityQueue.{
  PriorityQueue, create, take_first, remaining, Taken, taken, waiting, new_level,
}
use openbookfs.PriorityQueue.Priorities.{nonempty, without, nonempty-FirstAt, nonempty-none}
use openbookfs.PriorityQueue.Levels.{new_level-Represents}
use openbookfs.PriorityQueue.Order.{nonempty-replicate, LevelsHold, Keeps, level_at, LevelsHold-set}

module _ {T : Type 0} where
  -- An element comes from the front of the list of the lowest priority that has any.
  abbrev pub TakesFirst : ℕ → List (List T) → Taken T → Type 0
  TakesFirst size xss r =
      (p : ℕ) × (x : T) × (xs : List T) × (pq : PriorityQueue T) × (take p xss ≡ replicate p [])
      × (get_elem? xss p ≡ some (x ∷ xs))
      × (r ≡ taken x pq)
      × Keeps size (set xss p xs) pq

  remaining-contents :
      (first : Option ℕ) (items : List (ℕ × T)) (p : ℕ) (ps : List ℕ)
      → first ≡ head_or items none
      → remaining first p ps ≡ without (contents items) p ps
  remaining-contents first [] p ps e = rw (e) refl
  remaining-contents first (x ∷ items) p ps e = rw (e) refl

  remaining_lem :
      (size : ℕ) (xs : List T) (q : Queue T) (p : ℕ) (ps : List ℕ)
      → Represents size xs q
      → remaining q.items.first p ps ≡ without xs p ps
  remaining_lem size xs q p ps (free, items, s, c, len) =
      remaining-contents q.items.first items p ps s.1.0 ∙ ap (λ l. without l p ps) c

  take_from_lem :
      (size : ℕ) (xss : List (List T)) (pq : PriorityQueue T) (p : ℕ) (ps : List ℕ) (x : T)
      (xs : List T)
      → LevelsHold size xss pq.levels
      → pq.prio_queue ≡ p ∷ ps
      → get_elem? xss p ≡ some (x ∷ xs)
      → take p xss ≡ replicate p []
      → without xs p ps ≡ nonempty 0 (set xss p xs)
      → TakesFirst size xss (take_first pq)
  unfolding take_first
  take_from_lem size xss pq p ps x xs k e at before set_eq =
      let level = level_at size p xss pq.levels (x ∷ xs) k at in
      let got = extract_lem size (x ∷ xs) level.0 level.2 in
      (
        p,
        x,
        xs,
        record { levels = set pq.levels p got.0; prio_queue = remaining got.0.items.first p ps },
        before,
        at,
        rw (take_first, e, level.1, got.1) refl,
        (
          LevelsHold-set size p xss pq.levels xs got.0 k got.2,
          remaining_lem size xs got.0 p ps got.2 ∙ set_eq,
        ),
      )

  take_first_none : (pq : PriorityQueue T) → pq.prio_queue ≡ [] → take_first pq ≡ waiting
  unfolding take_first
  take_first_none pq e = rw (take_first, e) refl

  take_prios :
      (size : ℕ) (xss : List (List T)) (pq : PriorityQueue T) (ps : List ℕ)
      → Keeps size xss pq
      → pq.prio_queue ≡ ps
      → ((xss ≡ replicate (length xss) []) × (take_first pq ≡ waiting))
        ⊎ TakesFirst size xss (take_first pq)
  take_prios size xss pq [] k e = inl (nonempty-none 0 xss (sym k.1 ∙ e), take_first_none pq e)
  take_prios size xss pq (p ∷ ps) k e =
      let found = nonempty-FirstAt 0 xss p ps (sym k.1 ∙ e) in
      let at : p ≡ found.0 = omega (arith, found.3) in
      inr (
        take_from_lem size xss pq found.0 ps found.1 found.2 k.0 (e ∙ ap (λ q. q ∷ ps) at) found.4
          found.5 (ap (λ q. without found.2 q ps) (sym at) ∙ found.6))

  -- When no priority has elements extract waits, and otherwise it takes the first one, in the order of
  -- the priorities and then in the order of the insertions.
  pub take_first_lem :
      (size : ℕ) (xss : List (List T)) (pq : PriorityQueue T)
      → Keeps size xss pq
      → ((xss ≡ replicate (length xss) []) × (take_first pq ≡ waiting))
        ⊎ TakesFirst size xss (take_first pq)
  take_first_lem size xss pq k = take_prios size xss pq pq.prio_queue k refl

  levels-create :
      (nprio size : ℕ) (level : Queue T)
      → Represents size [] level
      → LevelsHold size (replicate nprio []) (replicate nprio level)
  levels-create zero size level r = tt
  levels-create (suc n) size level r = (r, levels-create n size level r)

  -- The constructor makes as many empty queues as it is told, each with as many free nodes.
  pub create-Keeps :
      (blank : T) (nprio size : ℕ) → Keeps size (replicate nprio []) (create blank nprio size)
  unfolding create
  create-Keeps blank nprio size = (
    levels-create nprio size (new_level blank size) (new_level-Represents blank size),
    sym (nonempty-replicate T 0 nprio),
  )
