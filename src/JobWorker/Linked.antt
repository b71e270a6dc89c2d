-- ===== src/JobWorker/Linked.antt =====
-- The linked jobs are a queue: first in, first out.
use openbookfs.Prelude.{
  ℕ, zero, suc, ◌<◌, ◌≡◌, refl, sym, subst, ◌∙◌, ◌≢◌, ◌⊎◌, inl, inr, List, [], ◌∷◌, ◌++◌, Option,
  none, some, arith, get_elem?, set, get_elem?-set_self, get_elem?-set_ne, Elem, length,
}
use openbookfs.JobWorker.{JobWorker, enqueue, same_pointer, next_of, take_job}

-- From `j` the pointers lead through the other jobs to the last one.
abbrev pub Chain : List (Option ℕ) → ℕ → List ℕ → ℕ → Type 0
Chain next j [] l = (l ≡ j) × (get_elem? next j ≡ some none)
Chain next j (k ∷ ks) l = (get_elem? next j ≡ some (some k)) × Chain next k ks l

abbrev pub AreDistinct : List ℕ → Type 0
AreDistinct [] = Unit {0}
AreDistinct (j ∷ js) = (¬ Elem j js) × AreDistinct js

-- The worker holds these jobs, in this order.
abbrev pub Holds : List ℕ → JobWorker → Type 0
Holds [] w = (w.first ≡ none) × (w.last ≡ none)
Holds (j ∷ js) w =
    (w.first ≡ some j) × ((l : ℕ) × (w.last ≡ some l) × Chain w.next j js l) × AreDistinct (j ∷ js)

pub in_range :
    (next : List (Option ℕ)) (j : ℕ) (p : Option ℕ) → get_elem? next j ≡ some p → j < length next
in_range [] j p h = absurd cc
in_range (x ∷ xs) zero p h = omega arith
in_range (x ∷ xs) (suc j) p h = omega (arith, in_range xs j p h)

Chain-last : (next : List (Option ℕ)) (j l : ℕ) (js : List ℕ) → Chain next j js l → Elem l (j ∷ js)
Chain-last next j l [] c = inl c.0
Chain-last next j l (k ∷ ks) c = inr (Chain-last next k l ks c.1)

pub Chain-set :
    (next : List (Option ℕ)) (i : ℕ) (p : Option ℕ) (j l : ℕ) (js : List ℕ)
    → ¬ Elem i (j ∷ js)
    → Chain next j js l
    → Chain (set next i p) j js l
Chain-set next i p j l [] out c = (c.0, get_elem?-set_ne next p (λ e. out (inl e)) ∙ c.1)
Chain-set next i p j l (k ∷ ks) out c = (
  get_elem?-set_ne next p (λ e. out (inl e)) ∙ c.0,
  Chain-set next i p k l ks (λ e. out (inr e)) c.1,
)

Chain-append :
    (next : List (Option ℕ)) (job j l : ℕ) (js : List ℕ)
    → AreDistinct (j ∷ js)
    → ¬ Elem job (j ∷ js)
    → get_elem? next job ≡ some none
    → Chain next j js l
    → Chain (set next l (some job)) j (js ++ job ∷ []) job
Chain-append next job j l [] d out fresh c = (
  subst (λ q. get_elem? (set next q (some job)) j ≡ some (some job)) (sym c.0)
      (get_elem?-set_self next j (some job) (in_range next j none c.1)),
  (refl, get_elem?-set_ne next (some job) (λ e. out (inl (sym e ∙ c.0))) ∙ fresh),
)
Chain-append next job j l (k ∷ ks) d out fresh c = (
  get_elem?-set_ne next (some job)
        (λ e. d.0 (subst (λ q. Elem q (k ∷ ks)) e (Chain-last next k l ks c.1)))
      ∙ c.0,
  Chain-append next job k l ks d.1 (λ e. out (inr e)) fresh c.1,
)

Elem-append : (x y : ℕ) (xs : List ℕ) → Elem x (xs ++ y ∷ []) → Elem x xs ⊎ (x ≡ y)
Elem-append x y [] (inl e) = inr e
Elem-append x y [] (inr e) = absurd e
Elem-append x y (z ∷ zs) (inl e) = inl (inl e)
Elem-append x y (z ∷ zs) (inr e) = elim (Elem-append x y zs e) [
  | inl m ↦ inl (inr m)
  | inr s ↦ inr s
]

AreDistinct-append :
    (xs : List ℕ) (y : ℕ) → AreDistinct xs → ¬ Elem y xs → AreDistinct (xs ++ y ∷ [])
AreDistinct-append [] y d out = ((λ e. e), tt)
AreDistinct-append (x ∷ xs) y d out = (
  λ e. elim (Elem-append x y xs e) [ inl m ↦ d.0 m | inr s ↦ out (inl (sym s)) ],
  AreDistinct-append xs y d.1 (λ e. out (inr e)),
)

-- Enqueueing a job that is not linked yet puts it behind the jobs that are there.
pub enqueue_lem :
    (job : ℕ) (jobs : List ℕ) (w : JobWorker)
    → Holds jobs w
    → ¬ Elem job jobs
    → get_elem? w.next job ≡ some none
    → Holds (jobs ++ job ∷ []) (enqueue job w)
unfolding enqueue
enqueue_lem job [] w (first, last) out fresh =
    rw (last, enqueue) ((refl, (job, refl, (refl, fresh)), ((λ e. e), tt)))
enqueue_lem job (j ∷ js) w (first, (l, last, chain), distinct) out fresh =
    rw (last, enqueue)
      ((
        first,
        (job, refl, Chain-append w.next job j l js distinct out fresh chain),
        AreDistinct-append (j ∷ js) job distinct out,
      ))

abbrev pub Takes : List ℕ → Option (ℕ × JobWorker) → Type 0
Takes [] r = r ≡ none
Takes (j ∷ js) none = ⊥
Takes (j ∷ js) (some (job, after)) =
    (job ≡ j) × Holds js after × (get_elem? after.next j ≡ some none)

take_only :
    (j l : ℕ) (w : JobWorker)
    → w.first ≡ some j
    → w.last ≡ some l
    → l ≡ j
    → take_job w ≡ some (j, record { next = w.next; first = none; last = none })
unfolding take_job same_pointer
take_only j l w first last same = ground (arith, first, last, same)

take_first :
    (j l k : ℕ) (w : JobWorker)
    → w.first ≡ some j
    → w.last ≡ some l
    → l ≢ j
    → get_elem? w.next j ≡ some (some k)
    → take_job w ≡ some (j, record { next = set w.next j none; first = some k; last = w.last })
unfolding take_job same_pointer next_of
take_first j l k w first last other linked = ground (arith, first, last, linked)

-- Where jobs are held, the worker takes the first one, holds the others, and has unlinked it; where
-- none is held it waits.
pub take_job_lem : (jobs : List ℕ) (w : JobWorker) → Holds jobs w → Takes jobs (take_job w)
unfolding take_job
take_job_lem [] w (first, last) = rw (first, take_job) refl
take_job_lem (j ∷ []) w (first, (l, last, (same, ends)), distinct) =
    subst (Takes (j ∷ [])) (sym (take_only j l w first last same)) ((refl, (refl, refl), ends))
take_job_lem (j ∷ k ∷ ks) w (first, (l, last, (linked, chain)), distinct) =
    let other : l ≢ j =
      λ e. distinct.0 (subst (λ q. Elem q (k ∷ ks)) e (Chain-last w.next k l ks chain)) in
    subst (Takes (j ∷ k ∷ ks)) (sym (take_first j l k w first last other linked)) (
      (
        refl,
        (refl, (l, last, Chain-set w.next j none k l ks distinct.0 chain), distinct.1),
        get_elem?-set_self w.next j none (in_range w.next j (some k) linked),
      ))
