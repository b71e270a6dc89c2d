-- ===== src/PriorityQueue/Order.antt =====
-- PriorityQueue.h: the operations against a list of bounded lists, one for each priority.
use openbookfs.Prelude.{
  ℕ, zero, suc, ◌≡◌, refl, ap, subst, List, [], ◌∷◌, some, length, get_elem?, set, replicate,
}
use openbookfs.Queue.{Queue}
use openbookfs.Queue.Fifo.{Represents}
use openbookfs.PriorityQueue.{PriorityQueue, Inserted, inserted}
use openbookfs.PriorityQueue.Priorities.{nonempty}

some_list : {A : Type 0} (a b : A) → some a ≡ some b → a ≡ b
some_list a b e = cc

pub nonempty-replicate : (T : Type 0) (i n : ℕ) → nonempty {T = T} i (replicate n []) ≡ []
nonempty-replicate T i zero = refl
nonempty-replicate T i (suc n) = nonempty-replicate T (suc i) n

module _ {T : Type 0} where
  -- Each level has the elements of its list.
  abbrev pub LevelsHold : ℕ → List (List T) → List (Queue T) → Type 0
  LevelsHold size [] [] = Unit {0}
  LevelsHold size [] (q ∷ qs) = ⊥
  LevelsHold size (xs ∷ xss) [] = ⊥
  LevelsHold size (xs ∷ xss) (q ∷ qs) = Represents size xs q × LevelsHold size xss qs

  abbrev pub Keeps : ℕ → List (List T) → PriorityQueue T → Type 0
  Keeps size xss pq = LevelsHold size xss pq.levels × (pq.prio_queue ≡ nonempty 0 xss)

  pub level_at :
      (size p : ℕ) (xss : List (List T)) (qs : List (Queue T)) (xs : List T)
      → LevelsHold size xss qs
      → get_elem? xss p ≡ some xs
      → (q : Queue T) × (get_elem? qs p ≡ some q) × Represents size xs q
  level_at size p [] [] xs h e = absurd cc
  level_at size p [] (q ∷ qs) xs h e = absurd h
  level_at size p (ys ∷ xss) [] xs h e = absurd h
  level_at size zero (ys ∷ xss) (q ∷ qs) xs h e =
      (q, refl, subst (λ l. Represents size l q) (some_list ys xs e) h.0)
  level_at size (suc p) (ys ∷ xss) (q ∷ qs) xs h e = level_at size p xss qs xs h.1 e

  pub LevelsHold-set :
      (size p : ℕ) (xss : List (List T)) (qs : List (Queue T)) (xs : List T) (q : Queue T)
      → LevelsHold size xss qs
      → Represents size xs q
      → LevelsHold size (set xss p xs) (set qs p q)
  LevelsHold-set size p [] [] xs q h r = tt
  LevelsHold-set size p [] (s ∷ qs) xs q h r = absurd h
  LevelsHold-set size p (ys ∷ xss) [] xs q h r = absurd h
  LevelsHold-set size zero (ys ∷ xss) (s ∷ qs) xs q h r = (r, h.1)
  LevelsHold-set size (suc p) (ys ∷ xss) (s ∷ qs) xs q h r =
      (h.0, LevelsHold-set size p xss qs xs q h.1 r)

  pub length-LevelsHold :
      (size : ℕ) (xss : List (List T)) (qs : List (Queue T))
      → LevelsHold size xss qs
      → length qs ≡ length xss
  length-LevelsHold size [] [] h = refl
  length-LevelsHold size [] (q ∷ qs) h = absurd h
  length-LevelsHold size (xs ∷ xss) [] h = absurd h
  length-LevelsHold size (xs ∷ xss) (q ∷ qs) h = ap suc (length-LevelsHold size xss qs h.1)

  abbrev pub Stores : ℕ → List (List T) → Inserted T → Type 0
  Stores size xss r = (pq : PriorityQueue T) × (r ≡ inserted pq) × Keeps size xss pq
