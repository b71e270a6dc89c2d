-- ===== src/JobWorker.antt =====
-- backend/LongJob.h and LongJob.cpp: the queue of jobs, linked through `LongJob::next`. A job is its
-- place in the list of the pointers `next` of all jobs.
pub mod Linked
pub mod Shutdown
use openbookfs.Prelude.{
  ℕ, zero, suc, Bool, true, false, ◌==◌, if◌then◌else◌, List, [], ◌∷◌, Option, none, some,
  get_elem?, set,
}

pub record JobWorker : Type 0 where
  pub next : List (Option ℕ)
  pub first : Option ℕ
  pub last : Option ℕ

-- `m_last->next = job` or `m_first = job`, and then `m_last = job`.
unfoldable pub enqueue : ℕ → JobWorker → JobWorker
enqueue job w = elim w.last [
  | some l ↦ record { next = set w.next l (some job); first = w.first; last = some job }
  | none ↦ record { next = w.next; first = some job; last = some job }
]

-- `m_first == m_last`
same_pointer : Option ℕ → Option ℕ → Bool
same_pointer none none = true
same_pointer (some a) (some b) = a == b
same_pointer _ _ = false

unfoldable pub next_of : ℕ → List (Option ℕ) → Option ℕ
next_of j next = elim (get_elem? next j) [ none ↦ none | some p ↦ p ]

-- The critical section of `main`: the job and the queue after it, or none while it waits.
unfoldable pub take_job : JobWorker → Option (ℕ × JobWorker)
unfolding same_pointer next_of
take_job w = elim w.first [
  | none ↦ none
  | some job ↦ some (
    job,
    if same_pointer w.first w.last
        then record { next = w.next; first = none; last = none }
        else record { next = set w.next job none; first = next_of job w.next; last = w.last },
  )
]

-- The loop at the end of `main`, which unlinks the jobs that are left: `m_first` and the pointers.
-- The fuel is a bound on the rounds; without an end within it there is no result.
unfoldable pub unlink_jobs : ℕ → Option ℕ → List (Option ℕ) → Option (List (Option ℕ))
unfolding next_of
unlink_jobs fuel none next = some next
unlink_jobs zero (some j) next = none
unlink_jobs (suc fuel) (some j) next = unlink_jobs fuel (next_of j next) (set next j none)

-- `m_last.clear()` and the loop.
unfoldable pub shut_down : ℕ → JobWorker → Option JobWorker
unfolding unlink_jobs
shut_down fuel w = elim (unlink_jobs fuel w.first w.next) [
  | none ↦ none
  | some next ↦ some (record { next = next; first = none; last = none })
]
