-- ===== src/Queue/Chains.antt =====
-- Queue.h and PriorityQueue.h: what push_back, pop_front and pop_back do to the chain between two pointers.
use openbookfs.Prelude.{
  ℕ, ◌≡◌, ◌≢◌, refl, sym, ap, ◌∙◌, subst, List, [], ◌∷◌, ◌++◌, Option, none, some, ==_iff, ==_ne,
  if◌then◌else◌,
}
use openbookfs.Queue.Nodes.{Heap, Ends, write, with_next, same_node, insert_after, push_back}
use openbookfs.Queue.Segments.{
  head_or, last_or, Segment, Fresh, AllDistinct, Apart, Agrees, write_self, write_ne,
}
use openbookfs.Queue.Segments.{
  AllDistinct-append, Agrees-write, Agrees-trans, Agrees-refl, Fresh-last_or, Segment-write,
}
use openbookfs.Queue.Segments.{Segment-with_next, Segment-append, Segment-last}
use openbookfs.Queue.Segments.{last_or_append, last_or-some, Apart-last}

-- the other pointer of the chain, when the node that is taken is the only one, and when it is not
pub same_node_only :
    (x : ℕ) (p : Option ℕ) → p ≡ some x → (if same_node x p then none else p) ≡ none
same_node_only x p k = rw (k, (==_iff x x).1 refl) refl

pub same_node_other :
    (x l : ℕ) (p : Option ℕ) → p ≡ some l → x ≢ l → (if same_node x p then none else p) ≡ some l
same_node_other x l p k d = rw (k, ==_ne x l d) refl

module _ {T : Type 0} where
  -- The chain of these nodes stands between the two pointers.
  abbrev pub Holds : Heap T → List (ℕ × T) → Ends → Type 0
  Holds h xs e =
      (e.first ≡ head_or xs none)
      × (e.last ≡ last_or none xs)
      × Segment h none xs none
      × AllDistinct xs

  -- A node in no chain.
  abbrev pub Loose : Heap T → ℕ × T → Type 0
  Loose h n = h n.0 ≡ record { datum = n.1; next = none; prev = none }

  -- the node before the insertion, written as the new last one
  abbrev own : Heap T → ℕ × T → ℕ → Heap T
  own h n l = write h n.0 (record { datum = n.1; next = none; prev = some l })

  abbrev linked : Heap T → ℕ × T → ℕ → Heap T
  linked h n l = write (own h n l) l (with_next (some n.0) (own h n l l))

  insert_after_end :
      (h : Heap T) (n : ℕ × T) (l : ℕ)
      → Loose h n
      → (h l).next ≡ none
      → insert_after n.0 l h ≡ linked h n l
  unfolding insert_after
  insert_after_end h n l s k = rw (k, s) refl

  pub push_back_end :
      (h : Heap T) (n : ℕ) (e : Ends) (l : ℕ)
      → e.last ≡ some l
      → push_back n e h ≡ (record { first = e.first; last = some n }, insert_after n l h)
  unfolding push_back
  push_back_end h n e l k = rw (k) refl

  push_back-none :
      (h : Heap T) (n : ℕ) (e : Ends)
      → e.last ≡ none
      → push_back n e h ≡ (record { first = some n; last = some n }, h)
  unfolding push_back
  push_back-none h n e k = rw (k) refl

  -- The node stands at the end, and other chains are as before.
  abbrev pub Pushes : Heap T → Heap T → List (ℕ × T) → ℕ × T → Ends → Type 0
  Pushes g h xs n e =
      Holds g (xs ++ (n ∷ [])) e
      × ((ys : List (ℕ × T)) → Fresh n.0 ys → Apart xs ys → Agrees g h ys)

  linked_end :
      (h : Heap T) (x : ℕ × T) (xs : List (ℕ × T)) (n : ℕ × T) (l : ℕ) (e : Ends)
      → last_or (some x.0) xs ≡ some l
      → e.first ≡ some x.0
      → Segment h none (x ∷ xs) none
      → AllDistinct (x ∷ xs)
      → Fresh n.0 (x ∷ xs)
      → Pushes (linked h n l) h (x ∷ xs) n (record { first = e.first; last = some n.0 })
  linked_end h x xs n l e k first s d f = (
    (
      first,
      sym (last_or_append (some x.0) xs n),
      Segment-append (linked h n l) none none (x ∷ xs) (n ∷ [])
          (Segment-with_next (own h n l) l none none (some n.0) x xs d k (
            Segment-write h n.0 (record { datum = n.1; next = none; prev = some l }) none none
              (x ∷ xs) f s))
          (
            write_ne (own h n l) (with_next (some n.0) (own h n l l)) (Fresh-last_or n.0 x xs l f k)
                ∙ write_self h n.0 (record { datum = n.1; next = none; prev = some l })
                ∙ ap (λ p. record { datum = n.1; next = none; prev = p }) (sym k),
            tt,
          ),
      AllDistinct-append (x ∷ xs) n d f,
    ),
    λ ys g a.
        Agrees-trans (linked h n l) (own h n l) h ys
          (Agrees-write (own h n l) l (with_next (some n.0) (own h n l l)) ys
            (Apart-last x xs ys l k a))
          (Agrees-write h n.0 (record { datum = n.1; next = none; prev = some l }) ys g),
  )

  pub push_back-Pushes :
      (h : Heap T) (xs : List (ℕ × T)) (n : ℕ × T) (e : Ends)
      → Holds h xs e
      → Fresh n.0 xs
      → Loose h n
      → Pushes (push_back n.0 e h).1 h xs n (push_back n.0 e h).0
  push_back-Pushes h [] n e s f o =
      subst (λ r. Pushes r.1 h [] n r.0) (sym (push_back-none h n.0 e s.1))
        ((refl, refl, (o, tt), (tt, tt)), λ ys g a. Agrees-refl h ys)
  push_back-Pushes h (x ∷ xs) n e s f o =
      let l = last_or-some x.0 xs in
      subst (λ r. Pushes r.1 h (x ∷ xs) n r.0) (sym (push_back_end h n.0 e l.0 (s.1 ∙ l.1)))
        (subst (λ g. Pushes g h (x ∷ xs) n (record { first = e.first; last = some n.0 }))
          (sym (insert_after_end h n l.0 o (Segment-last h none none x xs l.0 l.1 s.2)))
          (linked_end h x xs n l.0 e l.1 s.0 s.2 s.3 f))
