-- ===== src/JobWorker/Shutdown.antt =====
-- The end of the worker: the loop that unlinks the jobs ends, and no job is linked afterwards.
use openbookfs.Prelude.{
  ℕ, zero, suc, ◌<◌, ◌≡◌, refl, sym, ap, subst, ◌∙◌, inl, inr, List, [], ◌∷◌, Option, none, some,
  arith, get_elem?, set, get_elem?-set_self, get_elem?-set_ne, Elem, length,
}
use openbookfs.JobWorker.{JobWorker, next_of, unlink_jobs, shut_down}
use openbookfs.JobWorker.Linked.{Chain, AreDistinct, Holds, Chain-set, in_range}

next_of_lem :
    (j : ℕ) (p : Option ℕ) (next : List (Option ℕ)) → get_elem? next j ≡ some p → next_of j next ≡ p
unfolding next_of
next_of_lem j p next h = rw (h, next_of) refl

-- The jobs are unlinked, and the pointers of all others are as they were.
pub record Unlinked (jobs : List ℕ) (before after : List (Option ℕ)) : Type 0 where
  pub cleared : (j : ℕ) → Elem j jobs → get_elem? after j ≡ some none
  pub others : (j : ℕ) → ¬ Elem j jobs → get_elem? after j ≡ get_elem? before j

unlink_jobs-Chain :
    (fuel j l : ℕ) (js : List ℕ) (next : List (Option ℕ))
    → Chain next j js l
    → AreDistinct (j ∷ js)
    → length js < fuel
    → (after : List (Option ℕ)) × (unlink_jobs fuel (some j) next ≡ some after)
      × Unlinked (j ∷ js) next after
unfolding unlink_jobs
unlink_jobs-Chain zero j l js next c d h = absurd (omega arith)
unlink_jobs-Chain (suc fuel) j l [] next c d h = (
  set next j none,
  ap (λ p. unlink_jobs fuel p (set next j none)) (next_of_lem j none next c.1),
  record {
    cleared = λ i e. elim e [
      | inl same ↦
          subst (λ q. get_elem? (set next j none) q ≡ some none) (sym same)
            (get_elem?-set_self next j none (in_range next j none c.1))
      | inr rest ↦ absurd rest
    ];
    others = λ i out. get_elem?-set_ne next none (λ e. out (inl (sym e)));
  },
)
unlink_jobs-Chain (suc fuel) j l (k ∷ ks) next c d h =
    let first : List (Option ℕ) = set next j none in
    let (after, ends, rest) =
      unlink_jobs-Chain fuel k l ks first (Chain-set next j none k l ks d.0 c.1) d.1
        (omega arith) in
    (
      after,
      ap (λ p. unlink_jobs fuel p first) (next_of_lem j (some k) next c.0) ∙ ends,
      record {
        cleared = λ i e. elim e [
          | inl same ↦
              subst (λ q. get_elem? after q ≡ some none) (sym same)
                (rest.others j d.0 ∙ get_elem?-set_self next j none (in_range next j (some k) c.0))
          | inr later ↦ rest.cleared i later
        ];
        others = λ i out.
            rest.others i (λ e. out (inr e)) ∙ get_elem?-set_ne next none (λ e. out (inl (sym e)));
      },
    )

-- The shutdown ends within as many rounds as jobs are held; after it no job is held, the jobs that
-- were held are unlinked, and no other pointer has changed.
pub shut_down_lem :
    (jobs : List ℕ) (w : JobWorker)
    → Holds jobs w
    → (after : JobWorker) × (shut_down (length jobs) w ≡ some after)
      × Holds [] after
      × Unlinked jobs w.next after.next
unfolding shut_down unlink_jobs
shut_down_lem [] w (first, last) = (
  record { next = w.next; first = none; last = none },
  (rw (first, shut_down) refl),
  (refl, refl),
  record { cleared = λ j e. absurd e; others = λ j out. refl },
)
shut_down_lem (j ∷ js) w (first, (l, last, chain), distinct) =
    let (next, ends, unlinked) =
      unlink_jobs-Chain (suc (length js)) j l js w.next chain distinct (omega arith) in
    (
      record { next = next; first = none; last = none },
      (rw (first, shut_down, ends) refl),
      (refl, refl),
      unlinked,
    )
