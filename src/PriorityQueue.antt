-- ===== src/PriorityQueue.antt =====
-- PriorityQueue.h: a queue for each priority, on nodes of its own, and the set of the priorities that
-- have elements. Priority i owns the nodes i * size to (i + 1) * size - 1 of m_dataStore, and they never
-- leave it: they are the block of a `Queue`, with m_freeStore[i] and m_queueStore[i] as its chains. The
-- mutex is held during each operation.
pub mod Priorities
pub mod Levels
pub mod Order
pub mod Inserting
pub mod Taking
use openbookfs.Prelude.{
  ℕ, zero, suc, Option, none, some, List, [], ◌∷◌, ℤ, pos, negsuc, Bool, true, false,
}
use openbookfs.Prelude.{length, get_elem?, set, replicate, ltb, if◌then◌else◌}
use openbookfs.Queue.{Queue, put, extract, Extracted, extracted, empty}
use openbookfs.Queue.Nodes.{Node, Heap, Ends, no_nodes, pop_back, fill}
use openbookfs.PriorityQueue.Priorities.{add_prio}

pub record PriorityQueue (T : Type 0) : Type 0 where
  pub levels : List (Queue T)
  pub prio_queue : List ℕ

-- What an operation comes to: it ends, throws the exception, waits on m_notEmpty, or uses a null pointer
-- or an element outside of a vector.
pub data Inserted (T : Type 0) : Type 0 where
  inserted : PriorityQueue T → Inserted T
  refused : Inserted T
  undefined : Inserted T

pub data Taken (T : Type 0) : Type 0 where
  taken : T → PriorityQueue T → Taken T
  waiting : Taken T
  no_node : Taken T

-- `prio > m_queueStore.size()`: a negative int becomes a number above every size.
abbrev pub above_size : ℤ → ℕ → Bool
above_size (pos p) size = ltb size p
above_size (negsuc n) size = true

abbrev pub place_of : ℤ → ℕ
place_of (pos p) = p
place_of (negsuc n) = 0

-- The priority leaves the set when its queue is empty now.
abbrev pub remaining : Option ℕ → ℕ → List ℕ → List ℕ
remaining none p ps = ps
remaining (some n) p ps = p ∷ ps

module _ {T : Type 0} where
  abbrev pub new_level : T → ℕ → Queue T
  new_level blank size =
      let filled = fill size (no_nodes, λ i. record { datum = blank; next = none; prev = none }) in
      record { memblock = filled.1; free = filled.0; items = no_nodes }

  -- the constructor
  unfoldable pub create : T → ℕ → ℕ → PriorityQueue T
  create blank nprio size = record {
    levels = replicate nprio (new_level blank size);
    prio_queue = [];
  }

  -- A free node is taken from the end of m_freeStore[prio], and appended to m_queueStore[prio].
  unfoldable pub level_insert : T → Queue T → Option (Queue T)
  level_insert x q = elim (pop_back q.free q.memblock) [
    | none ↦ none
    | some a ↦ some (put x q a.0 a.1 a.2)
  ]

  abbrev pub put_level : PriorityQueue T → ℕ → Option (Queue T) → Inserted T
  put_level pq p none = undefined
  put_level pq p (some level) =
      inserted (record { levels = set pq.levels p level; prio_queue = add_prio p pq.prio_queue })

  abbrev pub insert_at : T → PriorityQueue T → ℕ → Option (Queue T) → Inserted T
  insert_at x pq p none = undefined
  insert_at x pq p (some level) = put_level pq p (level_insert x level)

  -- insert. pop_back removes the node before anything asks whether there is one, so the wait for a
  -- free node is not reached.
  unfoldable pub insert : T → ℤ → PriorityQueue T → Inserted T
  insert x prio pq =
      if above_size prio (length pq.levels)
      then refused
      else insert_at x pq (place_of prio) (get_elem? pq.levels (place_of prio))

  abbrev pub take_level : PriorityQueue T → ℕ → List ℕ → Extracted T → Taken T
  take_level pq p ps empty = no_node
  take_level pq p ps (extracted x level) =
      taken x
        (record { levels = set pq.levels p level; prio_queue = remaining level.items.first p ps })

  abbrev pub take_from : PriorityQueue T → ℕ → List ℕ → Option (Queue T) → Taken T
  take_from pq p ps none = no_node
  take_from pq p ps (some level) = take_level pq p ps (extract level)

  -- extract, until it ends or waits: the first element of the lowest priority in the set.
  unfoldable pub take_first : PriorityQueue T → Taken T
  take_first pq = elim pq.prio_queue [
    | [] ↦ waiting
    | p ∷ ps ↦ take_from pq p ps (get_elem? pq.levels p)
  ]

  -- empty
  unfoldable pub is_empty : PriorityQueue T → Bool
  is_empty pq = elim pq.prio_queue [ [] ↦ true | _ ∷ _ ↦ false ]
