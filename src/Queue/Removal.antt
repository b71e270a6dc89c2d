-- ===== src/Queue/Removal.antt =====
-- Queue.h and PriorityQueue.h: what pop_front and pop_back do to the chain between two pointers.
use openbookfs.Prelude.{
  ℕ, ◌≡◌, refl, sym, ap, ◌∙◌, subst, List, [], ◌∷◌, ◌++◌, Option, none, some, if◌then◌else◌,
}
use openbookfs.Queue.Nodes.{
  Node, Heap, Ends, write, with_next, with_prev, set_next, set_prev, same_node, unlink, pop_front,
  pop_back,
}
use openbookfs.Queue.Segments.{
  last_or, Segment, Fresh, AllDistinct, Apart, Agrees, write_self, write_ne,
}
use openbookfs.Queue.Segments.{
  Fresh-append_right, AllDistinct-append_left, Agrees-write, Agrees-trans, Fresh-last_or,
  Segment-write,
}
use openbookfs.Queue.Segments.{
  Segment-with_next, Segment-with_prev, Segment-append_left, Segment-append_right,
}
use openbookfs.Queue.Segments.{last_or_append, last_or-some, Apart-last}
use openbookfs.Queue.Chains.{same_node_only, same_node_other, Holds, Loose}

module _ {T : Type 0} where
  -- The node is out of the chain and loose, and other chains are as before.
  abbrev pub Taken : Heap T → ℕ × T → List (ℕ × T) → Ends → Heap T → Type 0
  Taken h x xs e g =
      Holds g xs e × Loose g x × ((ys : List (ℕ × T)) → Fresh x.0 ys → Apart xs ys → Agrees g h ys)

  abbrev pub Pops : Heap T → ℕ × T → List (ℕ × T) → Option (ℕ × Ends × Heap T) → Type 0
  Pops h x xs r = (e : Ends) × (g : Heap T) × (r ≡ some (x.0, e, g)) × Taken h x xs e g

  pop_front_first :
      (h : Heap T) (x : ℕ) (e : Ends)
      → e.first ≡ some x
      → pop_front e h
        ≡ some (
          x,
          record { first = (h x).next; last = if same_node x e.last then none else e.last },
          unlink x h,
        )
  unfolding pop_front
  pop_front_first h x e k = rw (k) refl

  pub pop_front-none : (h : Heap T) (e : Ends) → e.first ≡ none → pop_front e h ≡ none
  unfolding pop_front
  pop_front-none h e k = rw (k) refl

  -- the node written as a loose one
  abbrev loose : Heap T → ℕ → Heap T
  loose g n = write g n (record { datum = (g n).datum; next = none; prev = none })

  unlink_lem :
      (h : Heap T) (n : ℕ) (d : T) (p q : Option ℕ)
      → h n ≡ record { datum = d; next = q; prev = p }
      → unlink n h ≡ loose (set_prev q p (set_next p q h)) n
  unfolding unlink
  unlink_lem h n d p q k = rw (k) refl

  loose-Loose : (g : Heap T) (n : ℕ × T) → (g n.0).datum ≡ n.1 → Loose (loose g n.0) n
  loose-Loose g n k =
      write_self g n.0 (record { datum = (g n.0).datum; next = none; prev = none })
      ∙ ap (λ d. record { datum = d; next = none; prev = none }) k

  taken_only :
      (h : Heap T) (x : ℕ × T) (e : Ends)
      → e.first ≡ none
      → e.last ≡ none
      → (h x.0).datum ≡ x.1
      → Taken h x [] e (loose h x.0)
  taken_only h x e f l k = (
    (f, l, tt, tt),
    loose-Loose h x k,
    λ ys g a. Agrees-write h x.0 (record { datum = (h x.0).datum; next = none; prev = none }) ys g,
  )

  abbrev first_unlinked : Heap T → ℕ → Heap T
  first_unlinked h y = write h y (with_prev none (h y))

  taken_first :
      (h : Heap T) (x y : ℕ × T) (xs : List (ℕ × T)) (e : Ends)
      → e.first ≡ some y.0
      → e.last ≡ last_or (some y.0) xs
      → Segment h none (x ∷ y ∷ xs) none
      → AllDistinct (x ∷ y ∷ xs)
      → Taken h x (y ∷ xs) e (loose (first_unlinked h y.0) x.0)
  taken_first h x y xs e f l s d =
      let g = first_unlinked h y.0 in
      let v : Node T = record { datum = (g x.0).datum; next = none; prev = none } in
      (
        (
          f,
          l,
          Segment-write g x.0 v none none (y ∷ xs) d.0
              (Segment-with_prev h (some x.0) none none y xs d.1 s.1),
          d.1,
        ),
        loose-Loose g x
            (ap (λ n. n.datum) (write_ne h (with_prev none (h y.0)) (λ q. d.0.0 (sym q)) ∙ s.0)),
        λ ys k a.
            Agrees-trans (loose g x.0) g h ys (Agrees-write g x.0 v ys k)
              (Agrees-write h y.0 (with_prev none (h y.0)) ys a.0),
      )

  pub pop_front-Pops :
      (h : Heap T) (x : ℕ × T) (xs : List (ℕ × T)) (e : Ends)
      → Holds h (x ∷ xs) e
      → Pops h x xs (pop_front e h)
  pop_front-Pops h x [] e s =
      let ends : Ends = record {
        first = (h x.0).next;
        last = if same_node x.0 e.last then none else e.last;
      } in
      (
        ends,
        unlink x.0 h,
        pop_front_first h x.0 e s.0,
        subst (Taken h x [] ends) (sym (unlink_lem h x.0 x.1 none none s.2.0)) (
            taken_only h x ends (ap (λ n. n.next) s.2.0) (same_node_only x.0 e.last s.1)
              (ap (λ n. n.datum) s.2.0)),
      )
  pop_front-Pops h x (y ∷ xs) e s =
      let ends : Ends = record {
        first = (h x.0).next;
        last = if same_node x.0 e.last then none else e.last;
      } in
      let l = last_or-some y.0 xs in
      (
        ends,
        unlink x.0 h,
        pop_front_first h x.0 e s.0,
        subst (Taken h x (y ∷ xs) ends) (sym (unlink_lem h x.0 x.1 none (some y.0) s.2.0)) (
            taken_first h x y xs ends (ap (λ n. n.next) s.2.0)
              (same_node_other x.0 l.0 e.last (s.1 ∙ l.1)
                  (λ q. Fresh-last_or x.0 y xs l.0 s.3.0 l.1 (sym q))
                ∙ sym l.1)
              s.2 s.3),
      )

  pop_back_last :
      (h : Heap T) (x : ℕ) (e : Ends)
      → e.last ≡ some x
      → pop_back e h
        ≡ some (
          x,
          record { first = if same_node x e.first then none else e.first; last = (h x).prev },
          unlink x h,
        )
  unfolding pop_back
  pop_back_last h x e k = rw (k) refl

  pub pop_back-none : (h : Heap T) (e : Ends) → e.last ≡ none → pop_back e h ≡ none
  unfolding pop_back
  pop_back-none h e k = rw (k) refl

  abbrev last_unlinked : Heap T → ℕ → Heap T
  last_unlinked h l = write h l (with_next none (h l))

  taken_last :
      (h : Heap T) (x y : ℕ × T) (xs : List (ℕ × T)) (e : Ends) (l : ℕ)
      → e.first ≡ some y.0
      → e.last ≡ last_or (some y.0) xs
      → last_or (some y.0) xs ≡ some l
      → (h x.0).datum ≡ x.1
      → Segment h none (y ∷ xs) (some x.0)
      → AllDistinct (y ∷ xs)
      → Fresh x.0 (y ∷ xs)
      → Taken h x (y ∷ xs) e (loose (last_unlinked h l) x.0)
  taken_last h x y xs e l f k m w s d fresh =
      let g = last_unlinked h l in
      let v : Node T = record { datum = (g x.0).datum; next = none; prev = none } in
      (
        (
          f,
          k,
          Segment-write g x.0 v none none (y ∷ xs) fresh
              (Segment-with_next h l none (some x.0) none y xs d m s),
          d,
        ),
        loose-Loose g x (
            ap (λ n. n.datum) (write_ne h (with_next none (h l)) (Fresh-last_or x.0 y xs l fresh m))
            ∙ w),
        λ ys p a.
            Agrees-trans (loose g x.0) g h ys (Agrees-write g x.0 v ys p)
              (Agrees-write h l (with_next none (h l)) ys (Apart-last y xs ys l m a)),
      )

  Fresh-end : (xs : List (ℕ × T)) (x : ℕ × T) → AllDistinct (xs ++ (x ∷ [])) → Fresh x.0 xs
  Fresh-end [] x d = tt
  Fresh-end (y ∷ xs) x d =
      ((λ q. (Fresh-append_right y.0 xs (x ∷ []) d.0).0 (sym q)), Fresh-end xs x d.1)

  pub pop_back-Pops :
      (h : Heap T) (x : ℕ × T) (xs : List (ℕ × T)) (e : Ends)
      → Holds h (xs ++ (x ∷ [])) e
      → Pops h x xs (pop_back e h)
  pop_back-Pops h x [] e s =
      let ends : Ends = record {
        first = if same_node x.0 e.first then none else e.first;
        last = (h x.0).prev;
      } in
      (
        ends,
        unlink x.0 h,
        pop_back_last h x.0 e s.1,
        subst (Taken h x [] ends) (sym (unlink_lem h x.0 x.1 none none s.2.0)) (
            taken_only h x ends (same_node_only x.0 e.first s.0) (ap (λ n. n.prev) s.2.0)
              (ap (λ n. n.datum) s.2.0)),
      )
  pop_back-Pops h x (y ∷ xs) e s =
      let ends : Ends = record {
        first = if same_node x.0 e.first then none else e.first;
        last = (h x.0).prev;
      } in
      let l = last_or-some y.0 xs in
      let node = (Segment-append_right h none none (y ∷ xs) (x ∷ []) s.2).0 in
      let out = Fresh-end (y ∷ xs) x s.3 in
      (
        ends,
        unlink x.0 h,
        pop_back_last h x.0 e (s.1 ∙ last_or_append (some y.0) xs x),
        subst (Taken h x (y ∷ xs) ends)
            (sym (
              unlink_lem h x.0 x.1 (some l.0) none
                (node ∙ ap (λ p. record { datum = x.1; next = none; prev = p }) l.1)))
            (taken_last h x y xs ends l.0 (same_node_other x.0 y.0 e.first s.0 out.0)
              (ap (λ n. n.prev) node) l.1 (ap (λ n. n.datum) node)
              (Segment-append_left h none none (y ∷ xs) (x ∷ []) s.2)
              (AllDistinct-append_left (y ∷ xs) (x ∷ []) s.3) out),
      )
