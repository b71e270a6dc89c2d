-- ===== src/Queue/Runs.antt =====
-- Queue.h: any sequence of operations, against a list of bounded length.
use openbookfs.Prelude.{
  ℕ, suc, ◌≡◌, refl, ap, List, [], ◌∷◌, ◌++◌, length, ltb, lt→ltb, ge→ltb, if◌then◌else◌, ℕ-cases,
  inl, inr,
}
use openbookfs.Queue.{
  Queue, insert, extract, create, Inserted, inserted, full, Extracted, extracted, empty,
}
use openbookfs.Queue.Fifo.{Represents, insert_lem, extract_lem}
use openbookfs.Queue.Blocks.{create-Represents}

-- The operations of the threads, in the order in which they hold the mutex.
pub data Op (T : Type 0) : Type 0 where
  inserts : T → Op T
  extracts : Op T

-- what an operation shows: it ended, with or without an element, or it waits and has changed nothing
pub data Event (T : Type 0) : Type 0 where
  stored : Event T
  received : T → Event T
  waits : Event T

module _ {T : Type 0} where
  -- The queue of the program. An operation that waits leaves the queue as it is.
  abbrev pub after_insert : Queue T → Inserted T → Event T × Queue T
  after_insert q (inserted r) = (stored, r)
  after_insert q full = (waits, q)

  abbrev pub after_extract : Queue T → Extracted T → Event T × Queue T
  after_extract q (extracted x r) = (received x, r)
  after_extract q empty = (waits, q)

  abbrev pub step : Op T → Queue T → Event T × Queue T
  step (inserts x) q = after_insert q (insert x q)
  step extracts q = after_extract q (extract q)

  abbrev pub run : List (Op T) → Queue T → List (Event T)
  run [] q = []
  run (op ∷ ops) q = (step op q).0 ∷ run ops (step op q).1

  -- A list of at most `capacity` elements.
  abbrev pub run_list : ℕ → List (Op T) → List T → List (Event T)
  run_list capacity [] xs = []
  run_list capacity (inserts x ∷ ops) xs =
      let room = stored ∷ run_list capacity ops (xs ++ (x ∷ [])) in
      let wait = waits ∷ run_list capacity ops xs in if ltb (length xs) capacity then room else wait
  run_list capacity (extracts ∷ ops) [] = waits ∷ run_list capacity ops []
  run_list capacity (extracts ∷ ops) (x ∷ xs) = received x ∷ run_list capacity ops xs

  pub run_lem :
      (capacity : ℕ) (ops : List (Op T)) (xs : List T) (q : Queue T)
      → Represents capacity xs q
      → run ops q ≡ run_list capacity ops xs
  run_lem capacity [] xs q r = refl
  run_lem capacity (inserts x ∷ ops) xs q r = elim (ℕ-cases (length xs) capacity) [
    | inl lt ↦
        let put = (insert_lem capacity xs x q r).0 lt in
        rw (lt→ltb (length xs) capacity lt, put.1)
          (ap (λ l. stored ∷ l) (run_lem capacity ops (xs ++ (x ∷ [])) put.0 put.2))
    | inr le ↦
        rw (ge→ltb (length xs) capacity le, (insert_lem capacity xs x q r).1 le)
          (ap (λ l. waits ∷ l) (run_lem capacity ops xs q r))
  ]
  run_lem capacity (extracts ∷ ops) [] q r =
      rw (extract_lem capacity [] q r) (ap (λ l. waits ∷ l) (run_lem capacity ops [] q r))
  run_lem capacity (extracts ∷ ops) (x ∷ xs) q r =
      let got = extract_lem capacity (x ∷ xs) q r in
      rw (got.1) (ap (λ l. received x ∷ l) (run_lem capacity ops xs got.0 got.2))

  -- The queue of the constructor does what a list of bounded length does, whatever the operations.
  pub create-run :
      (blank : T) (n : ℕ) (ops : List (Op T)) → run ops (create blank n) ≡ run_list (suc n) ops []
  create-run blank n ops = run_lem (suc n) ops [] (create blank n) (create-Represents blank n)
