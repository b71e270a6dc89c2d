-- ===== src/Queue/Fifo.antt =====
-- Queue.h: insert and extract are those of a first-in first-out queue of bounded size.
use openbookfs.Prelude.{
  ℕ, suc, ◌+◌, ◌≤◌, ◌<◌, ◌≡◌, refl, sym, ap, ◌∙◌, subst, List, [], ◌∷◌, ◌++◌, none, arith, length,
  append_assoc, length-append,
}
use openbookfs.Queue.{
  Queue, insert, extract, put, Inserted, inserted, full, Extracted, extracted, empty,
}
use openbookfs.Queue.Nodes.{Node, Heap, Ends, write, push_back}
use openbookfs.Queue.Segments.{
  Fresh, AllDistinct, Apart, Agrees, Segment-Agrees, Agrees-write, Agrees-trans, Agrees-refl,
  write_self, contents, contents-append, length-contents,
}
use openbookfs.Queue.Segments.{
  AllDistinct-Apart, AllDistinct-rotate, AllDistinct-append_right, Apart-sym, Fresh-append_left,
  Fresh-append_right,
}
use openbookfs.Queue.Chains.{Holds, Loose, push_back-Pushes}
use openbookfs.Queue.Removal.{Taken, pop_front-Pops, pop_front-none}

module _ {T : Type 0} where
  pub Holds-Agrees :
      (g h : Heap T) (xs : List (ℕ × T)) (e : Ends) → Agrees g h xs → Holds h xs e → Holds g xs e
  Holds-Agrees g h xs e a s = (s.0, s.1, Segment-Agrees g h none none xs a s.2, s.3)

  -- A node of the block is free or holds an element, and never both.
  abbrev pub Shares : Heap T → List (ℕ × T) → List (ℕ × T) → Ends → Ends → Type 0
  Shares h free items f i = Holds h free f × Holds h items i × AllDistinct (free ++ items)

  -- The queue has these elements in this order, and this many nodes.
  abbrev pub Represents : ℕ → List T → Queue T → Type 0
  Represents capacity xs q =
      (free items : List (ℕ × T)) × Shares q.memblock free items q.free q.items
      × (contents items ≡ xs)
      × (length free + length items ≡ capacity)

  -- A node that was taken from one chain is put at the end of the other; k is the heap in between,
  -- where the node may hold another element.
  pub moved_node :
      (h g k : Heap T) (n : ℕ × T) (x : T) (from to : List (ℕ × T)) (e t : Ends)
      → Taken h n from e g
      → Holds h to t
      → Fresh n.0 from
      → Fresh n.0 to
      → Apart from to
      → Loose k (n.0, x)
      → Agrees k g from × Agrees k g to
      → Holds (push_back n.0 t k).1 from e
        × Holds (push_back n.0 t k).1 (to ++ ((n.0, x) ∷ [])) (push_back n.0 t k).0
  moved_node h g k n x from to e t taken s f1 f2 a loose agree =
      let pushed =
        push_back-Pushes k to (n.0, x) t
          (Holds-Agrees k h to t (Agrees-trans k g h to agree.1 (taken.2 to f2 a)) s) f2 loose in
      (
        Holds-Agrees (push_back n.0 t k).1 k from e (pushed.1 from f1 (Apart-sym from to a))
            (Holds-Agrees k g from e agree.0 taken.0),
        pushed.0,
      )

  -- the element goes into the node
  abbrev pub filled : Heap T → ℕ → T → Heap T
  filled g n x = write g n (record { datum = x; next = (g n).next; prev = (g n).prev })

  pub filled-Loose : (g : Heap T) (n : ℕ × T) (x : T) → Loose g n → Loose (filled g n.0 x) (n.0, x)
  filled-Loose g n x l =
      write_self g n.0 (record { datum = x; next = (g n.0).next; prev = (g n.0).prev })
      ∙ ap (λ v. record { datum = x; next = v.next; prev = v.prev }) l

  abbrev pub Puts : ℕ → List T → Inserted T → Type 0
  Puts capacity xs r = (q : Queue T) × (r ≡ inserted q) × Represents capacity xs q

  insert_free :
      (capacity : ℕ) (xs : List T) (x : T) (q : Queue T) (n : ℕ × T) (free items : List (ℕ × T))
      → Shares q.memblock (n ∷ free) items q.free q.items
      → contents items ≡ xs
      → suc (length free) + length items ≡ capacity
      → Puts capacity (xs ++ (x ∷ [])) (insert x q)
  unfolding insert
  insert_free capacity xs x q n free items s c len =
      let taken = pop_front-Pops q.memblock n free q.free s.0 in
      let g = taken.1 in
      let v : Node T = record { datum = x; next = (g n.0).next; prev = (g n.0).prev } in
      let out = s.2.0 in
      let moved =
        moved_node q.memblock g (filled g n.0 x) n x free items taken.0 q.items taken.3 s.1
          (Fresh-append_left n.0 free items out) (Fresh-append_right n.0 free items out)
          (AllDistinct-Apart free items s.2.1) (filled-Loose g n x taken.3.1)
          (
            Agrees-write g n.0 v free (Fresh-append_left n.0 free items out),
            Agrees-write g n.0 v items (Fresh-append_right n.0 free items out),
          ) in
      (
        put x q n.0 taken.0 g,
        rw (insert, taken.2) refl,
        (
          free,
          items ++ ((n.0, x) ∷ []),
          (
            moved.0,
            moved.1,
            subst AllDistinct (append_assoc free items ((n.0, x) ∷ []))
                (AllDistinct-rotate n (n.0, x) (free ++ items) refl s.2),
          ),
          contents-append items (n.0, x) ∙ ap (λ l. l ++ (x ∷ [])) c,
          omega (arith, length-append items ((n.0, x) ∷ [])),
        ),
      )

  -- Below its capacity a queue takes an element at its end; at its capacity insert waits.
  pub insert_lem :
      (capacity : ℕ) (xs : List T) (x : T) (q : Queue T)
      → Represents capacity xs q
      → (length xs < capacity → Puts capacity (xs ++ (x ∷ [])) (insert x q))
        × (capacity ≤ length xs → insert x q ≡ full)
  unfolding insert
  insert_lem capacity xs x q ([], items, s, c, len) = (
    λ lt. absurd (omega (arith, ap length c, length-contents items)),
    λ le. rw (insert, pop_front-none q.memblock q.free s.0.0) refl,
  )
  insert_lem capacity xs x q (n ∷ free, items, s, c, len) = (
    λ lt. insert_free capacity xs x q n free items s c len,
    λ le. absurd (omega (arith, ap length c, length-contents items)),
  )

  -- The first element, if there is one, comes out; extract of an empty queue waits.
  abbrev pub Gets : ℕ → List T → Extracted T → Type 0
  Gets capacity [] r = r ≡ empty
  Gets capacity (x ∷ xs) r = (q : Queue T) × (r ≡ extracted x q) × Represents capacity xs q

  extract_first :
      (capacity : ℕ) (q : Queue T) (n : ℕ × T) (free items : List (ℕ × T))
      → Shares q.memblock free (n ∷ items) q.free q.items
      → length free + suc (length items) ≡ capacity
      → Gets capacity (n.1 ∷ contents items) (extract q)
  unfolding extract
  extract_first capacity q n free items s len =
      let taken = pop_front-Pops q.memblock n items q.items s.1 in
      let g = taken.1 in
      let apart = Apart-sym free (n ∷ items) (AllDistinct-Apart free (n ∷ items) s.2) in
      let moved =
        moved_node q.memblock g g n n.1 items free taken.0 q.free taken.3 s.0
          (AllDistinct-append_right free (n ∷ items) s.2).0 apart.0 apart.1 taken.3.1
          (Agrees-refl g items, Agrees-refl g free) in
      (
        record {
          memblock = (push_back n.0 q.free g).1;
          free = (push_back n.0 q.free g).0;
          items = taken.0;
        },
        rw (extract, taken.2)
            (ap
              (λ d. extracted d (record {
                memblock = (push_back n.0 q.free g).1;
                free = (push_back n.0 q.free g).0;
                items = taken.0;
              }))
              (ap (λ v. v.datum) taken.3.1)),
        (
          free ++ (n ∷ []),
          items,
          (moved.1, moved.0, subst AllDistinct (sym (append_assoc free (n ∷ []) items)) s.2),
          refl,
          omega (arith, length-append free (n ∷ [])),
        ),
      )

  pub extract_lem :
      (capacity : ℕ) (xs : List T) (q : Queue T)
      → Represents capacity xs q
      → Gets capacity xs (extract q)
  unfolding extract
  extract_lem capacity xs q (free, [], s, c, len) =
      subst (λ l. Gets capacity l (extract q)) c
        (rw (extract, pop_front-none q.memblock q.items s.1.0) refl)
  extract_lem capacity xs q (free, n ∷ items, s, c, len) =
      subst (λ l. Gets capacity l (extract q)) c (extract_first capacity q n free items s len)
