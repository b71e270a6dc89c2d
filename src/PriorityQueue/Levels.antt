-- ===== src/PriorityQueue/Levels.antt =====
-- PriorityQueue.h: the queue of one priority is a first-in first-out queue of bounded size.
use openbookfs.Prelude.{
  ℕ, ◌+◌, ◌≤◌, ◌<◌, ◌≡◌, ◌⊎◌, inl, inr, refl, sym, ap, ◌∙◌, subst, List, [], ◌∷◌, ◌++◌, Option,
  none, some, arith, length, append_assoc, append_nil, length-append,
}
use openbookfs.Queue.{Queue, put}
use openbookfs.Queue.Nodes.{Node}
use openbookfs.Queue.Segments.{
  last_or, Fresh, AllDistinct, Agrees-write, contents, contents-append, length-contents,
  AllDistinct-Apart, Fresh-append, Fresh-append_left, Fresh-append_right, AllDistinct-rotate,
}
use openbookfs.Queue.Removal.{pop_back-Pops, pop_back-none}
use openbookfs.Queue.Fifo.{Represents, Shares, moved_node, filled, filled-Loose}
use openbookfs.Queue.Blocks.{below, length-below, fill-Filled}
use openbookfs.PriorityQueue.{level_insert, new_level}

-- a list is empty or has a last element
abbrev HasLast : {A : Type 0} → List A → Type 0
HasLast {A} xs = (xs ≡ []) ⊎ ((ys : List A) × (y : A) × (xs ≡ ys ++ (y ∷ [])))

last-cons : {A : Type 0} (x : A) (xs : List A) → HasLast xs → HasLast (x ∷ xs)
last-cons x xs (inl e) = inr ([], x, ap (λ l. x ∷ l) e)
last-cons x xs (inr (ys, y, e)) = inr (x ∷ ys, y, ap (λ l. x ∷ l) e)

last-cases : {A : Type 0} (xs : List A) → HasLast xs
last-cases [] = inl refl
last-cases (x ∷ xs) = last-cons x xs (last-cases xs)

module _ {T : Type 0} where
  Fresh-move :
      (i : ℕ) (n m : ℕ × T) (xs ys : List (ℕ × T))
      → n.0 ≡ m.0
      → Fresh i (xs ++ (n ∷ ys))
      → Fresh i (xs ++ (ys ++ (m ∷ [])))
  Fresh-move i n m xs ys e f =
      let right = Fresh-append_right i xs (n ∷ ys) f in
      Fresh-append i xs (ys ++ (m ∷ [])) (Fresh-append_left i xs (n ∷ ys) f)
        (Fresh-append i ys (m ∷ []) right.1 ((λ q. right.0 (q ∙ sym e)), tt))

  -- The last free node becomes the last one of the other chain.
  AllDistinct-move :
      (n m : ℕ × T) (xs ys : List (ℕ × T))
      → n.0 ≡ m.0
      → AllDistinct (xs ++ (n ∷ ys))
      → AllDistinct (xs ++ (ys ++ (m ∷ [])))
  AllDistinct-move n m [] ys e d = AllDistinct-rotate n m ys e d
  AllDistinct-move n m (x ∷ xs) ys e d =
      (Fresh-move x.0 n m xs ys e d.0, AllDistinct-move n m xs ys e d.1)

  abbrev pub Puts : ℕ → List T → Option (Queue T) → Type 0
  Puts size xs r = (q : Queue T) × (r ≡ some q) × Represents size xs q

  Fresh-mid :
      (n : ℕ × T) (xs ys : List (ℕ × T))
      → AllDistinct (xs ++ (n ∷ ys))
      → Fresh n.0 xs × Fresh n.0 ys
  Fresh-mid n [] ys d = (tt, d.0)
  Fresh-mid n (x ∷ xs) ys d =
      let rest = Fresh-mid n xs ys d.1 in
      (((λ e. (Fresh-append_right x.0 xs (n ∷ ys) d.0).0 (sym e)), rest.0), rest.1)

  AllDistinct-drop :
      (n : ℕ × T) (xs ys : List (ℕ × T)) → AllDistinct (xs ++ (n ∷ ys)) → AllDistinct (xs ++ ys)
  AllDistinct-drop n [] ys d = d.1
  AllDistinct-drop n (x ∷ xs) ys d = (
    Fresh-append x.0 xs ys (Fresh-append_left x.0 xs (n ∷ ys) d.0)
        (Fresh-append_right x.0 xs (n ∷ ys) d.0).1,
    AllDistinct-drop n xs ys d.1,
  )

  level_insert_free :
      (size : ℕ) (xs : List T) (x : T) (q : Queue T) (n : ℕ × T) (free items : List (ℕ × T))
      → Shares q.memblock (free ++ (n ∷ [])) items q.free q.items
      → contents items ≡ xs
      → length (free ++ (n ∷ [])) + length items ≡ size
      → Puts size (xs ++ (x ∷ [])) (level_insert x q)
  unfolding level_insert
  level_insert_free size xs x q n free items s c len =
      let taken = pop_back-Pops q.memblock n free q.free s.0 in
      let g = taken.1 in
      let v : Node T = record { datum = x; next = (g n.0).next; prev = (g n.0).prev } in
      let d = subst AllDistinct (append_assoc free (n ∷ []) items) s.2 in
      let out = Fresh-mid n free items d in
      let moved =
        moved_node q.memblock g (filled g n.0 x) n x free items taken.0 q.items taken.3 s.1 out.0
          out.1 (AllDistinct-Apart free items (AllDistinct-drop n free items d))
          (filled-Loose g n x taken.3.1)
          (Agrees-write g n.0 v free out.0, Agrees-write g n.0 v items out.1) in
      (
        put x q n.0 taken.0 g,
        rw (level_insert, taken.2) refl,
        (
          free,
          items ++ ((n.0, x) ∷ []),
          (moved.0, moved.1, AllDistinct-move n (n.0, x) free items refl d),
          contents-append items (n.0, x) ∙ ap (λ l. l ++ (x ∷ [])) c,
          omega (arith, len, length-append free (n ∷ []), length-append items ((n.0, x) ∷ [])),
        ),
      )

  level_insert_full : (x : T) (q : Queue T) → q.free.last ≡ none → level_insert x q ≡ none
  unfolding level_insert
  level_insert_full x q e = rw (level_insert, pop_back-none q.memblock q.free e) refl

  level_insert-cases :
      (size : ℕ) (xs : List T) (x : T) (q : Queue T) (r : Represents size xs q)
      → HasLast r.0
      → (length xs < size → Puts size (xs ++ (x ∷ [])) (level_insert x q))
        × (size ≤ length xs → level_insert x q ≡ none)
  level_insert-cases size xs x q (free, items, s, c, len) (inl e) = (
    λ lt. absurd (omega (arith, ap length e, ap length c, length-contents items, len)),
    λ le. level_insert_full x q (s.0.1 ∙ ap (last_or none) e),
  )
  level_insert-cases size xs x q (free, items, s, c, len) (inr (ys, n, e)) = (
    λ lt.
        level_insert_free size xs x q n ys items
          (subst (λ l. Shares q.memblock l items q.free q.items) e s) c
          (subst (λ l. length l + length items ≡ size) e len),
    λ le. absurd (
        omega
          (arith, ap length e, length-append ys (n ∷ []), ap length c, length-contents items, len)),
  )

  -- A level with a free node takes the element at its end; without one there is nothing to take.
  pub level_insert_lem :
      (size : ℕ) (xs : List T) (x : T) (q : Queue T)
      → Represents size xs q
      → (length xs < size → Puts size (xs ++ (x ∷ [])) (level_insert x q))
        × (size ≤ length xs → level_insert x q ≡ none)
  level_insert_lem size xs x q r = level_insert-cases size xs x q r (last-cases r.0)

  pub new_level-Represents : (blank : T) (size : ℕ) → Represents size [] (new_level blank size)
  new_level-Represents blank size =
      let filled = fill-Filled blank size in
      (
        below blank size,
        [],
        (
          filled.0,
          (refl, refl, tt, tt),
          subst AllDistinct (sym (append_nil (below blank size))) filled.0.3,
        ),
        refl,
        omega (arith, length-below blank size),
      )
