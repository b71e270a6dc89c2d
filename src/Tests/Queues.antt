-- ===== src/Tests/Queues.antt =====
-- Queue.h and PriorityQueue.h: small queues.
use openbookfs.Prelude.{◌⊎◌, replicate, ℕ, ◌≡◌, [], ◌∷◌, List, pos}
use openbookfs.Queue.{create}
use openbookfs.Queue.Runs.{Op, inserts, extracts, run, run_list, create-run}
use openbookfs.PriorityQueue.{PriorityQueue, insert, take_first, waiting}
use openbookfs.PriorityQueue as Prio
use openbookfs.PriorityQueue.Inserting.{PutsOrFails, insert_lem}
use openbookfs.PriorityQueue.Taking.{TakesFirst, take_first_lem, create-Keeps}

-- two nodes: the third insertion waits
abbrev ops : List (Op ℕ)
ops = inserts 5 ∷ inserts 6 ∷ inserts 7 ∷ extracts ∷ inserts 8 ∷ extracts ∷ extracts ∷ extracts ∷ []

create-run_example : run ops (create 0 1) ≡ run_list 2 ops []
create-run_example = create-run 0 1 ops

abbrev lists : List (List ℕ)
lists = [] ∷ [] ∷ []

abbrev two_levels : PriorityQueue ℕ
two_levels = Prio.create 0 2 1

insert_lem_example : PutsOrFails 1 lists 5 (pos 1) (insert 5 (pos 1) two_levels)
insert_lem_example = insert_lem 1 lists 5 (pos 1) two_levels (create-Keeps 0 2 1)

take_first_lem_example :
    ((lists ≡ replicate 2 []) × (take_first two_levels ≡ waiting))
    ⊎ TakesFirst 1 lists (take_first two_levels)
take_first_lem_example = take_first_lem 1 lists two_levels (create-Keeps 0 2 1)
