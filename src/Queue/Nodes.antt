-- ===== src/Queue/Nodes.antt =====
-- Queue.h and PriorityQueue.h: doubly linked nodes, and a chain of them between two pointers.
use openbookfs.Prelude.{ℕ, zero, suc, ◌==◌, if◌then◌else◌, Bool, false, Option, none, some}

pub record Node (T : Type 0) : Type 0 where
  pub datum : T
  pub next : Option ℕ
  pub prev : Option ℕ

-- the nodes of a block
abbrev pub Heap : Type 0 → Type 0
Heap T = ℕ → Node T

-- the first and the last node of a chain
pub record Ends : Type 0 where
  pub first : Option ℕ
  pub last : Option ℕ

abbrev pub no_nodes : Ends
no_nodes = record { first = none; last = none }

-- pointers compared
abbrev pub same_node : ℕ → Option ℕ → Bool
same_node n none = false
same_node n (some m) = n == m

module _ {T : Type 0} where
  unfoldable pub write : Heap T → ℕ → Node T → Heap T
  write h n v i = if n == i then v else h i

  abbrev pub with_next : Option ℕ → Node T → Node T
  with_next p v = record { datum = v.datum; next = p; prev = v.prev }

  abbrev pub with_prev : Option ℕ → Node T → Node T
  with_prev p v = record { datum = v.datum; next = v.next; prev = p }

  -- `if(p) p->next = v` and `if(p) p->prev = v`
  abbrev pub set_next : Option ℕ → Option ℕ → Heap T → Heap T
  set_next none v h = h
  set_next (some p) v h = write h p (with_next v (h p))

  abbrev pub set_prev : Option ℕ → Option ℕ → Heap T → Heap T
  set_prev none v h = h
  set_prev (some p) v h = write h p (with_prev v (h p))

  -- Node::insertAfter
  unfoldable pub insert_after : ℕ → ℕ → Heap T → Heap T
  insert_after n parent h =
      let next = (h parent).next in
      let own = write h n (record { datum = (h n).datum; next = next; prev = some parent }) in
      set_prev next (some n) (set_next (some parent) (some n) own)

  -- Node::insertBefore
  unfoldable pub insert_before : ℕ → ℕ → Heap T → Heap T
  insert_before n child h =
      let prev = (h child).prev in
      let own = write h n (record { datum = (h n).datum; next = some child; prev = prev }) in
      set_prev (some child) (some n) (set_next prev (some n) own)

  -- Node::extract, and Node::remove of PriorityQueue.h
  unfoldable pub unlink : ℕ → Heap T → Heap T
  unlink n h =
      let before = (h n).prev in
      let after = (h n).next in
      let linked = set_prev after before (set_next before after h) in
      write linked n (record { datum = (linked n).datum; next = none; prev = none })

  -- push_back of PriorityQueue.h; free and the end of insert of Queue.h do the same.
  unfoldable pub push_back : ℕ → Ends → Heap T → Ends × Heap T
  push_back n e h = elim e.last [
    | none ↦ (record { first = some n; last = some n }, h)
    | some l ↦ (record { first = e.first; last = some n }, insert_after n l h)
  ]

  -- pop_front of PriorityQueue.h, alloc and the middle of extract of Queue.h: nothing when the chain
  -- has no node.
  unfoldable pub pop_front : Ends → Heap T → Option (ℕ × Ends × Heap T)
  pop_front e h = elim e.first [
    | none ↦ none
    | some n ↦ some (
      n,
      record { first = (h n).next; last = if same_node n e.last then none else e.last },
      unlink n h,
    )
  ]

  -- push_front of PriorityQueue.h, which nothing calls
  unfoldable pub push_front : ℕ → Ends → Heap T → Ends × Heap T
  push_front n e h = elim e.first [
    | none ↦ (record { first = some n; last = some n }, h)
    | some f ↦ (record { first = some n; last = e.last }, insert_before n f h)
  ]

  -- pop_back of PriorityQueue.h
  unfoldable pub pop_back : Ends → Heap T → Option (ℕ × Ends × Heap T)
  pop_back e h = elim e.last [
    | none ↦ none
    | some n ↦ some (
      n,
      record { first = if same_node n e.first then none else e.first; last = (h n).prev },
      unlink n h,
    )
  ]

  -- The loop of the constructor of PriorityQueue.h for one priority: nodes 0 to n - 1 are put in a chain.
  unfoldable pub fill : ℕ → Ends × Heap T → Ends × Heap T
  fill zero s = s
  fill (suc n) s = let before = fill n s in push_back n before.0 before.1
