-- ===== src/Connection/Draining.antt =====
-- backend/Connection.cpp: the end of main empties the outbound queue.
use openbookfs.Prelude.{length-set}
use openbookfs.PriorityQueue.Priorities.{nonempty, nonempty-none}
use openbookfs.PriorityQueue.Order.{nonempty-replicate}
use openbookfs.Prelude.{
  ℕ, zero, suc, ◌<◌, true, false, List, [], ◌∷◌, ◌≡◌, inl, inr, refl, sym, ap, subst, ◌∙◌, arith,
  some, set, replicate, length, Bool-cases,
}
use openbookfs.PriorityQueue.{PriorityQueue, is_empty}
use openbookfs.PriorityQueue.Order.{Keeps}
use openbookfs.PriorityQueue.Taking.{take_first_lem}
use openbookfs.Connection.Threads.{drain, in_order, in_order-first}

module _ {M : Type 0} where
  is_empty-prio_queue :
      (outbound : PriorityQueue M) → is_empty outbound ≡ true → outbound.prio_queue ≡ []
  unfolding is_empty
  is_empty-prio_queue outbound h = no_prios outbound.prio_queue h
    where
      no_prios : (l : List ℕ) → elim l [ [] ↦ true | _ ∷ _ ↦ false ] ≡ true → l ≡ []
      no_prios [] e = refl
      no_prios (p ∷ ps) e = absurd cc

  no_elements :
      (size : ℕ) (xss : List (List M)) (outbound : PriorityQueue M)
      → Keeps size xss outbound
      → xss ≡ replicate (length xss) []
      → is_empty outbound ≡ true
  unfolding is_empty
  no_elements size xss outbound k e =
      rw (k.1 ∙ ap (nonempty 0) e ∙ nonempty-replicate M 0 (length xss)) refl

  length-set_list : (xss : List (List M)) (p : ℕ) (xs : List M) → length (set xss p xs) ≡ length xss
  length-set_list xss p xs = length-set xss p xs

  -- The end of main comes to its end: with a round for each message, and one more, the outbound queue is
  -- left without any, and keeps its priorities and its nodes.
  pub drain_lem :
      (size fuel : ℕ) (xss : List (List M)) (outbound : PriorityQueue M)
      → Keeps size xss outbound
      → length (in_order xss) < fuel
      → (after : PriorityQueue M) × (drain fuel outbound ≡ some after)
        × Keeps size (replicate (length xss) []) after
  unfolding drain
  drain_lem size zero xss outbound k h = absurd (omega arith)
  drain_lem size (suc fuel) xss outbound k h = elim (Bool-cases (is_empty outbound)) [
    | inl e ↦ (
      outbound,
      rw (drain, e) refl,
      subst (λ l. Keeps size l outbound)
          (nonempty-none 0 xss (sym k.1 ∙ is_empty-prio_queue outbound e)) k,
    )
    | inr e ↦ elim (take_first_lem size xss outbound k) [
      | inl (none_left, w) ↦
          absurd (true_false (sym (no_elements size xss outbound k none_left) ∙ e))
      | inr (p, x, xs, after, before, at, t, keeps) ↦
          let order = in_order-first p xss x xs before at in
          let rest =
            drain_lem size fuel (set xss p xs) after keeps (omega (arith, ap length order)) in
          (
            rest.0,
            rw (drain, e, t) rest.1,
            subst (λ n. Keeps size (replicate n []) rest.0) (length-set_list xss p xs) rest.2,
          )
    ]
  ]
    where
      true_false : ¬ (true ≡ false)
      true_false q = cc
