-- ===== src/Queue.antt =====
-- Queue.h: a queue of bounded size on doubly linked nodes that are allocated once. A pointer to a node
-- is its place in the block m_memblock, the null pointer is `none`. The mutex is held during each
-- operation; a wait on a condition is an outcome of the operation.
pub mod Nodes
pub mod Segments
pub mod Chains
pub mod Removal
pub mod Fifo
pub mod Runs
pub mod Blocks
use openbookfs.Prelude.{ℕ, zero, suc, Option, none, some}
use openbookfs.Queue.Nodes.{Node, Heap, Ends, no_nodes, write, insert_after, push_back, pop_front}

pub record Queue (T : Type 0) : Type 0 where
  pub memblock : Heap T
  pub free : Ends
  pub items : Ends

-- What an operation comes to: it ends, or waits on the condition m_notFull or m_notEmpty.
pub data Inserted (T : Type 0) : Type 0 where
  inserted : Queue T → Inserted T
  full : Inserted T

pub data Extracted (T : Type 0) : Type 0 where
  extracted : T → Queue T → Extracted T
  empty : Extracted T

module _ {T : Type 0} where
  -- The loop of the constructor: node i is put after the last one, for i from 1 to the size.
  unfoldable pub chain_nodes : ℕ → Ends × Heap T → Ends × Heap T
  chain_nodes zero s = s
  chain_nodes (suc n) s =
      let before = chain_nodes n s in
      (record { first = before.0.first; last = some (suc n) }, insert_after (suc n) n before.1)

  -- The constructor. The block has `suc n` nodes.
  unfoldable pub create : T → ℕ → Queue T
  create blank n =
      let chained = chain_nodes n (
        record { first = some 0; last = some 0 },
        λ i. record { datum = blank; next = none; prev = none },
      ) in
      record { memblock = chained.1; free = chained.0; items = no_nodes }

  abbrev pub put : T → Queue T → ℕ → Ends → Heap T → Queue T
  put x q n free h =
      let after =
        push_back n q.items
          (write h n (record { datum = x; next = (h n).next; prev = (h n).prev })) in
      record { memblock = after.1; free = free; items = after.0 }

  -- insert, until it ends or waits; when it is woken and takes the mutex again, it allocates once more.
  unfoldable pub insert : T → Queue T → Inserted T
  insert x q = elim (pop_front q.free q.memblock) [
    | none ↦ full
    | some a ↦ inserted (put x q a.0 a.1 a.2)
  ]

  abbrev pub give_back : Queue T → ℕ → Ends → Heap T → Extracted T
  give_back q n items h =
      let after = push_back n q.free h in
      extracted (h n).datum (record { memblock = after.1; free = after.0; items = items })

  -- extract, until it ends or waits
  unfoldable pub extract : Queue T → Extracted T
  extract q = elim (pop_front q.items q.memblock) [
    | none ↦ empty
    | some a ↦ give_back q a.0 a.1 a.2
  ]
