-- ===== src/Connection/Threads.antt =====
-- backend/Connection.cpp: the threads listen and shout with the queues between them and the handler, and
-- what main does with the queue at the end. A thread that holds a queue alone runs to its end or waits.
use openbookfs.Prelude.{
  ℕ, zero, suc, ◌<◌, ℤ, pos, eqb_ℤ, if◌then◌else◌, Bool, true, false, List, [], ◌∷◌, ◌++◌, ◌≡◌, inl,
  inr, refl, sym, ap, ◌∙◌, arith, Option, some, none, get_elem?, set, take, replicate, length,
}
use openbookfs.PriorityQueue.{
  PriorityQueue, insert, Inserted, inserted, refused, undefined, take_first, taken, waiting,
  no_node, is_empty,
}
use openbookfs.PriorityQueue.Order.{Keeps}
use openbookfs.PriorityQueue.Taking.{take_first_lem}

-- How shout ends: at a Quit, or by an exception of a write; or it waits, for a message or in a write; or a
-- null pointer is used; or it is not at its end after the rounds that are given.
pub data ShoutEnd : Type 0 where
  at_quit by_exception waits at_null running : ShoutEnd

-- The messages whose write has returned, and the end.
abbrev pub Sent : Type 0 → Type 0
Sent M = List M × ShoutEnd

some_list : {A : Type 0} (a b : A) → some a ≡ some b → a ≡ b
some_list a b e = cc

first_list : {A : Type 0} (a b : A) (l m : List A) → a ∷ l ≡ b ∷ m → a ≡ b
first_list a b l m e = cc

other_lists : {A : Type 0} (a b : A) (l m : List A) → a ∷ l ≡ b ∷ m → l ≡ m
other_lists a b l m e = cc

module _ {M : Type 0} where
  -- enqueueMessage: only for the peer that the connection serves now.
  unfoldable pub enqueue_message : ℤ → ℤ → M → ℤ → PriorityQueue M → Inserted M
  enqueue_message peer_id mine message prio outbound =
      if eqb_ℤ peer_id mine then insert message prio outbound else inserted outbound

  -- listen, with the messages that are read until an exception; then Quit is inserted.
  unfoldable pub listen : M → List M → PriorityQueue M → Inserted M
  listen quit [] inbound = insert quit (pos 0) inbound
  listen quit (m ∷ ms) inbound = elim (insert m (pos 0) inbound) [
    | inserted after ↦ listen quit ms after
    | refused ↦ insert quit (pos 0) inbound
    | undefined ↦ undefined
  ]

  abbrev pub also : M → Sent M → Sent M
  also m s = (m ∷ s.0, s.1)

  -- A write of Marshall returns, or throws; when no outcome is left it waits.
  abbrev pub written : M → List Bool → (List Bool → Sent M) → Sent M
  written m [] go_on = ([], waits)
  written m (true ∷ writes) go_on = also m (go_on writes)
  written m (false ∷ writes) go_on = ([], by_exception)

  -- shout, with nobody else at the queue; `is_quit` compares the type of a message, and the outcomes of the
  -- writes are given in their order.
  unfoldable pub shout : (M → Bool) → ℕ → List Bool → PriorityQueue M → Sent M
  shout is_quit zero writes outbound = ([], running)
  shout is_quit (suc fuel) writes outbound = elim (take_first outbound) [
    | taken m after ↦
        let go_on = λ (left : List Bool). shout is_quit fuel left after in
        let more = written m writes go_on in if is_quit m then ([], at_quit) else more
    | waiting ↦ ([], waits)
    | no_node ↦ ([], at_null)
  ]

  -- The end of main: unsent messages are taken out and dropped. Nothing stands for a wait.
  unfoldable pub drain : ℕ → PriorityQueue M → Option (PriorityQueue M)
  drain zero outbound = none
  drain (suc fuel) outbound = elim (is_empty outbound) [
    | true ↦ some outbound
    | false ↦ elim (take_first outbound) [
      | taken m after ↦ drain fuel after
      | waiting ↦ none
      | no_node ↦ none
    ]
  ]

  -- The elements in the order in which they come out.
  abbrev pub in_order : List (List M) → List M
  in_order [] = []
  in_order (xs ∷ xss) = xs ++ in_order xss

  -- What becomes of a list of messages: they are sent one after the other, up to the first Quit, which
  -- is not sent, and no further than the first write that does not return.
  abbrev pub until_end : (M → Bool) → List M → List Bool → Sent M
  until_end is_quit [] writes = ([], waits)
  until_end is_quit (m ∷ ms) [] = if is_quit m then ([], at_quit) else ([], waits)
  until_end is_quit (m ∷ ms) (false ∷ writes) =
      if is_quit m then ([], at_quit) else ([], by_exception)
  until_end is_quit (m ∷ ms) (true ∷ writes) =
      let (sent, end) = until_end is_quit ms writes in
      if is_quit m then ([], at_quit) else (m ∷ sent, end)

  pub in_order-first :
      (p : ℕ) (xss : List (List M)) (x : M) (xs : List M)
      → take p xss ≡ replicate p []
      → get_elem? xss p ≡ some (x ∷ xs)
      → in_order xss ≡ x ∷ in_order (set xss p xs)
  in_order-first p [] x xs t g = absurd cc
  in_order-first zero (ys ∷ xss) x xs t g = ap (λ l. l ++ in_order xss) (some_list ys (x ∷ xs) g)
  in_order-first (suc p) (ys ∷ xss) x xs t g =
      let empty = first_list ys [] (take p xss) (replicate p []) t in
      ap (λ l. l ++ in_order xss) empty
      ∙ in_order-first p xss x xs (other_lists ys [] (take p xss) (replicate p []) t) g
      ∙ ap (λ l. x ∷ (l ++ in_order (set xss p xs))) (sym empty)

  in_order-none : (n : ℕ) → in_order (replicate n []) ≡ []
  in_order-none zero = refl
  in_order-none (suc n) = in_order-none n

  -- One round, where what is left does what the list says.
  written-until_end :
      (is_quit : M → Bool) (m : M) (ms : List M) (writes : List Bool) (go_on : List Bool → Sent M)
      → ((left : List Bool) → go_on left ≡ until_end is_quit ms left)
      → (if is_quit m then ([], at_quit) else written m writes go_on)
        ≡ until_end is_quit (m ∷ ms) writes
  written-until_end is_quit m ms [] go_on h = refl
  written-until_end is_quit m ms (true ∷ writes) go_on h =
      ap (λ s. if is_quit m then ([], at_quit) else also m s) (h writes)
  written-until_end is_quit m ms (false ∷ writes) go_on h = refl

  -- Without other threads shout takes the messages of the queue in the order of their priorities, and
  -- of the same priority in the order of their insertion. It sends them up to the first Quit, which it does
  -- not send, and where a write throws or waits, it sends neither that message nor a later one. When no
  -- message is left it waits. A round for each message, and one more, is enough.
  pub shout_lem :
      (is_quit : M → Bool) (size fuel : ℕ) (writes : List Bool) (xss : List (List M))
      (outbound : PriorityQueue M)
      → Keeps size xss outbound
      → length (in_order xss) < fuel
      → shout is_quit fuel writes outbound ≡ until_end is_quit (in_order xss) writes
  unfolding shout
  shout_lem is_quit size zero writes xss outbound k h = absurd (omega arith)
  shout_lem is_quit size (suc fuel) writes xss outbound k h =
      elim (take_first_lem size xss outbound k) [
        | inl (none_left, e) ↦
            rw (shout, e)
              (ap (λ l. until_end is_quit l writes)
                (sym (ap in_order none_left ∙ in_order-none (length xss))))
        | inr (p, x, xs, after, before, at, e, keeps) ↦
            let order = in_order-first p xss x xs before at in
            rw (shout, e, order)
              (written-until_end is_quit x (in_order (set xss p xs)) writes
                (λ left. shout is_quit fuel left after)
                (λ left.
                  shout_lem is_quit size fuel left (set xss p xs) after keeps
                    (omega (arith, ap length order))))
      ]
