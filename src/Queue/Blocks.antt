-- ===== src/Queue/Blocks.antt =====
-- Queue.h and PriorityQueue.h: the chains of free nodes that the constructors build.
use openbookfs.Prelude.{
  ℕ, zero, suc, ◌≤◌, ◌≡◌, refl, sym, ap, ◌∙◌, subst, List, [], ◌∷◌, ◌++◌, none, some, arith, length,
  length-append, append_nil,
}
use openbookfs.Queue.{create, chain_nodes}
use openbookfs.Queue.Nodes.{Heap, Ends, no_nodes, push_back, fill}
use openbookfs.Queue.Segments.{Fresh, AllDistinct, Fresh-append, Apart-sym}
use openbookfs.Queue.Chains.{Holds, Loose, push_back_end, push_back-Pushes}
use openbookfs.Queue.Fifo.{Represents}

module _ {T : Type 0} (blank : T) where
  abbrev pub new_block : Heap T
  new_block i = record { datum = blank; next = none; prev = none }

  pub below : ℕ → List (ℕ × T)
  below zero = []
  below (suc n) = below n ++ ((n, blank) ∷ [])

  Fresh-below : (n i : ℕ) → n ≤ i → Fresh i (below n)
  unfolding below
  Fresh-below zero i h = tt
  Fresh-below (suc n) i h =
      Fresh-append i (below n) ((n, blank) ∷ []) (Fresh-below n i (omega arith))
        ((λ e. omega arith), tt)

  pub length-below : (n : ℕ) → length (below n) ≡ n
  unfolding below
  length-below zero = refl
  length-below (suc n) = omega (arith, length-append (below n) ((n, blank) ∷ []), length-below n)

  -- The first nodes are chained, and the others are as they were.
  abbrev pub Filled : ℕ → Ends × Heap T → Type 0
  Filled n s = Holds s.1 (below n) s.0 × ((i : ℕ) → n ≤ i → Loose s.1 (i, blank))

  pub fill-Filled : (n : ℕ) → Filled n (fill n (no_nodes, new_block))
  unfolding below fill
  fill-Filled zero = ((refl, refl, tt, tt), λ i h. refl)
  fill-Filled (suc n) =
      let before = fill-Filled n in
      let s = fill n (no_nodes, new_block) in
      let pushed =
        push_back-Pushes s.1 (below n) (n, blank) s.0 before.0 (Fresh-below n n (omega arith))
          (before.1 n (omega arith)) in
      (
        pushed.0,
        λ i h.
            (pushed.1 ((i, blank) ∷ []) ((λ e. omega arith), tt)
              (Apart-sym ((i, blank) ∷ []) (below n) (Fresh-below n i (omega arith), tt))).0
            ∙ before.1 i (omega arith),
      )

  abbrev first_node : Ends × Heap T
  first_node = (record { first = some 0; last = some 0 }, new_block)

  last-chain_nodes : (n : ℕ) → (chain_nodes n first_node).0.last ≡ some n
  unfolding chain_nodes
  last-chain_nodes zero = refl
  last-chain_nodes (suc n) = refl

  -- The constructor of Queue.h builds the chain that appending node after node builds.
  chain_nodes-fill : (n : ℕ) → chain_nodes n first_node ≡ fill (suc n) (no_nodes, new_block)
  unfolding chain_nodes fill push_back
  chain_nodes-fill zero = refl
  chain_nodes-fill (suc n) =
      let s = chain_nodes n first_node in
      sym (push_back_end s.1 (suc n) s.0 n (last-chain_nodes n))
      ∙ ap (λ r. push_back (suc n) r.0 r.1) (chain_nodes-fill n)

  pub create-Represents : (n : ℕ) → Represents (suc n) [] (create blank n)
  unfolding create
  create-Represents n =
      let filled = subst (Filled (suc n)) (sym (chain_nodes-fill n)) (fill-Filled (suc n)) in
      (
        below (suc n),
        [],
        (
          filled.0,
          (refl, refl, tt, tt),
          subst AllDistinct (sym (append_nil (below (suc n)))) filled.0.3,
        ),
        refl,
        omega (arith, length-below (suc n)),
      )
