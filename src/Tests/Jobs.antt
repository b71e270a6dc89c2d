-- ===== src/Tests/Jobs.antt =====
-- backend/LongJob.cpp: two jobs in the queue, and a third one.
use openbookfs.Prelude.{ℕ, ◌≡◌, refl, inl, inr, [], ◌∷◌, some, none, arith, Elem}
use openbookfs.JobWorker.{JobWorker, enqueue, shut_down}
use openbookfs.JobWorker.Linked.{Holds, enqueue_lem}
use openbookfs.JobWorker.Shutdown.{Unlinked, shut_down_lem}

abbrev two_jobs : JobWorker
two_jobs = record { next = some 1 ∷ none ∷ none ∷ []; first = some 0; last = some 1 }

two_jobs-Holds : Holds (0 ∷ 1 ∷ []) two_jobs
two_jobs-Holds = (refl, (1, refl, (refl, (refl, refl))), (only_one, ((λ e. e), tt)))
  where
    only_one : ¬ Elem {A = ℕ} 0 (1 ∷ [])
    only_one (inl e) = absurd (omega arith)
    only_one (inr e) = e

not_there : ¬ Elem {A = ℕ} 2 (0 ∷ 1 ∷ [])
not_there (inl e) = absurd (omega arith)
not_there (inr (inl e)) = absurd (omega arith)
not_there (inr (inr e)) = e

enqueue_lem_example : Holds (0 ∷ 1 ∷ 2 ∷ []) (enqueue 2 two_jobs)
enqueue_lem_example = enqueue_lem 2 (0 ∷ 1 ∷ []) two_jobs two_jobs-Holds not_there refl

shut_down_lem_example :
    (after : JobWorker) × (shut_down 2 two_jobs ≡ some after)
    × Holds [] after
    × Unlinked (0 ∷ 1 ∷ []) two_jobs.next after.next
shut_down_lem_example = shut_down_lem (0 ∷ 1 ∷ []) two_jobs two_jobs-Holds
