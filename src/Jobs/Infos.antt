-- ===== src/Jobs/Infos.antt =====
-- jobs/SendTree.cpp: what a call of sendMessage and the second loop over the children of a directory do.
use openbookfs.Prelude.{
  ℤ, ℕ, suc, ◌≤◌, ◌≡◌, refl, sym, subst, ◌⊎◌, inl, inr, Bool, true, false, if◌then◌else◌, List, [],
  ◌∷◌, ◌++◌, none, some, String, Elem, arith, Option-cases,
}
use openbookfs.Database.{FilePath}
use openbookfs.Jobs.Tree.{
  Tree, TreeMessage, dir_chunk, node_info, Answer, queued, ignored, absent, full, Sending, Run,
  ended, overrun, running, next, answered, send, listing, subscribed_listing, info, send_infos,
  lose,
}

pub Elem-append_left : {A : Type 0} (x : A) (xs ys : List A) → Elem x xs → Elem x (xs ++ ys)
Elem-append_left x [] ys e = absurd e
Elem-append_left x (z ∷ xs) ys (inl e) = inl e
Elem-append_left x (z ∷ xs) ys (inr e) = inr (Elem-append_left x xs ys e)

pub Elem-append_right : {A : Type 0} (x : A) (xs ys : List A) → Elem x ys → Elem x (xs ++ ys)
Elem-append_right x [] ys e = e
Elem-append_right x (z ∷ xs) ys e = inr (Elem-append_right x xs ys e)

-- Nothing that is sent is taken back, and what is lost is lost.
abbrev pub Kept : Sending → Sending → Type 0
Kept s after = (s.lost ≤ after.lost) × ((m : TreeMessage) → Elem m s.sent → Elem m after.sent)

-- The message is sent, or a call has put nothing into a queue.
abbrev pub Delivered : TreeMessage → Sending → Type 0
Delivered m s = (1 ≤ s.lost) ⊎ Elem m s.sent

-- Each of these messages is.
abbrev pub AllSent : List TreeMessage → Sending → Sending → Type 0
AllSent ms s after = Kept s after × ((m : TreeMessage) → Elem m ms → Delivered m after)

pub Kept-refl : (s : Sending) → Kept s s
Kept-refl s = (omega arith, λ m e. e)

pub Kept-trans : (a b c : Sending) → Kept a b → Kept b c → Kept a c
Kept-trans a b c h k = (let le = h.0 in let le' = k.0 in omega arith, λ m e. k.1 m (h.1 m e))

pub Delivered-Kept : (m : TreeMessage) (a b : Sending) → Kept a b → Delivered m a → Delivered m b
Delivered-Kept m a b k (inl lost) = inl (let le = k.0 in omega arith)
Delivered-Kept m a b k (inr e) = inr (k.1 m e)

module _ (t : Tree) where
  -- A run ends with this, or a queue had no free node when sendMessage was called.
  abbrev pub Ends : (Sending → Type 0) → Run → Type 0
  Ends P (ended s) = P s
  Ends P overrun = (k : ℕ) × (t.answer k ≡ full)
  Ends P running = ⊥

  pub Ends-weaken :
      (P Q : Sending → Type 0) (r : Run) → ((s : Sending) → P s → Q s) → Ends P r → Ends Q r
  Ends-weaken P Q (ended s) f h = f s h
  Ends-weaken P Q overrun f h = h
  Ends-weaken P Q running f h = h

  -- After a call of sendMessage: the message is sent and true is the result, or something is lost.
  abbrev pub Told : TreeMessage → Sending → Bool → Sending → Type 0
  Told c s ok after = Kept s after × (((ok ≡ true) × Elem c after.sent) ⊎ (1 ≤ after.lost))

  Ends-answered :
      (P : Sending → Type 0) (c : TreeMessage) (s : Sending) (f : Bool → Sending → Run) (a : Answer)
      → t.answer s.calls ≡ a
      → ((ok : Bool) (after : Sending) → Told c s ok after → Ends P (f ok after))
      → Ends P (next (answered a c s) f)
  Ends-answered P c s f queued e h =
      h true (record s { calls = suc s.calls; sent = s.sent ++ c ∷ [] })
        (
          (omega arith, λ m here. Elem-append_left m s.sent (c ∷ []) here),
          inl (refl, Elem-append_right c s.sent (c ∷ []) (inl refl)),
        )
  Ends-answered P c s f ignored e h =
      h true (lose s) ((omega arith, λ m here. here), inr (omega arith))
  Ends-answered P c s f absent e h =
      h false (lose s) ((omega arith, λ m here. here), inr (omega arith))
  Ends-answered P c s f full e h = (s.calls, e)

  pub Ends-send :
      (P : Sending → Type 0) (c : TreeMessage) (s : Sending) (f : Bool → Sending → Run)
      → ((ok : Bool) (after : Sending) → Told c s ok after → Ends P (f ok after))
      → Ends P (next (send t c s) f)
  unfolding send
  Ends-send P c s f h = Ends-answered P c s f (t.answer s.calls) refl h

  -- Where false is the result something is lost.
  pub Told-lost : (c : TreeMessage) (s after : Sending) → Told c s false after → 1 ≤ after.lost
  Told-lost c s after (_, inl (e, _)) = absurd (false_ne_true e)
    where
      false_ne_true : false ≡ true → ⊥
      false_ne_true q = cc
  Told-lost c s after (_, inr lost) = lost

  pub Told-Delivered :
      (c : TreeMessage) (s after : Sending) (ok : Bool) → Told c s ok after → Delivered c after
  Told-Delivered c s after ok (_, inl (_, e)) = inr e
  Told-Delivered c s after ok (_, inr lost) = inl lost

  -- What a peer is owed for the children of a directory: what the system says of each that has a `stat`.
  unfoldable pub owed_infos : FilePath → List String → List TreeMessage
  owed_infos dir [] = []
  owed_infos dir (child ∷ children) = elim (t.stat (t.paths.join dir child)) [
    | none ↦ owed_infos dir children
    | some size ↦ node_info (info t dir child size) ∷ owed_infos dir children
  ]

  -- What a peer is owed for a directory: its listing, then its files.
  abbrev pub owed : FilePath → List TreeMessage
  owed dir = dir_chunk dir (listing t dir) ∷ owed_infos dir (subscribed_listing t dir)

  abbrev pub InfosSent : FilePath → List String → Sending → Sending → Type 0
  InfosSent dir children = AllSent (owed_infos dir children)

  owed_infos_more :
      (dir : FilePath) (child : String) (cs : List String) (size : ℤ)
      → t.stat (t.paths.join dir child) ≡ some size
      → owed_infos dir (child ∷ cs) ≡ node_info (info t dir child size) ∷ owed_infos dir cs
  unfolding owed_infos
  owed_infos_more dir child cs size p = rw (p, owed_infos) refl

  owed_infos_skip :
      (dir : FilePath) (child : String) (cs : List String)
      → t.stat (t.paths.join dir child) ≡ none
      → owed_infos dir (child ∷ cs) ≡ owed_infos dir cs
  unfolding owed_infos
  owed_infos_skip dir child cs p = rw (p, owed_infos) refl

  abbrev go_on : FilePath → List String → Bool → Sending → Run
  go_on dir cs ok after = if ok then send_infos t dir cs after else ended after

  send_infos_more :
      (dir : FilePath) (child : String) (cs : List String) (size : ℤ) (s : Sending)
      → t.stat (t.paths.join dir child) ≡ some size
      → send_infos t dir (child ∷ cs) s
        ≡ next (send t (node_info (info t dir child size)) s) (go_on dir cs)
  unfolding send_infos
  send_infos_more dir child cs size s p = rw (p, send_infos) refl

  send_infos_skip :
      (dir : FilePath) (child : String) (cs : List String) (s : Sending)
      → t.stat (t.paths.join dir child) ≡ none
      → send_infos t dir (child ∷ cs) s ≡ send_infos t dir cs s
  unfolding send_infos
  send_infos_skip dir child cs s p = rw (p, send_infos) refl

  -- After one child.
  one_child :
      (dir : FilePath) (cs : List String) (c : TreeMessage) (s after : Sending) (ok : Bool)
      → Told c s ok after
      → Ends (InfosSent dir cs after) (send_infos t dir cs after)
      → Ends (AllSent (c ∷ owed_infos dir cs) s) (go_on dir cs ok after)
  one_child dir cs c s after true h ih =
      Ends-weaken (InfosSent dir cs after) (AllSent (c ∷ owed_infos dir cs) s)
        (send_infos t dir cs after)
        (λ last k. (
          Kept-trans s after last h.0 k.0,
          λ m e. elim e [
            | inl same ↦
                subst (λ x. Delivered x last) (sym same)
                  (Delivered-Kept c after last k.0 (Told-Delivered c s after true h))
            | inr later ↦ k.1 m later
          ],
        ))
        ih
  one_child dir cs c s after false h ih = (h.0, λ m e. inl (Told-lost c s after h))

  -- The loop ends, and all that is owed for the children is sent, or something is lost.
  pub send_infos-Ends :
      (dir : FilePath) (children : List String) (s : Sending)
      → Ends (InfosSent dir children s) (send_infos t dir children s)
  unfolding send_infos owed_infos
  send_infos-Ends dir [] s = (Kept-refl s, λ m e. absurd e)
  send_infos-Ends dir (child ∷ cs) s = elim (Option-cases (t.stat (t.paths.join dir child))) [
    | inl p ↦
        subst (λ l. Ends (AllSent l s) (send_infos t dir (child ∷ cs) s))
          (sym (owed_infos_skip dir child cs p))
          (subst (λ r. Ends (InfosSent dir cs s) r) (sym (send_infos_skip dir child cs s p))
            (send_infos-Ends dir cs s))
    | inr (size, p) ↦
        let c = node_info (info t dir child size) in
        subst (λ l. Ends (AllSent l s) (send_infos t dir (child ∷ cs) s))
          (sym (owed_infos_more dir child cs size p))
          (subst (λ r. Ends (AllSent (c ∷ owed_infos dir cs) s) r)
            (sym (send_infos_more dir child cs size s p))
            (Ends-send (AllSent (c ∷ owed_infos dir cs) s) c s (go_on dir cs)
              (λ ok after h. one_child dir cs c s after ok h (send_infos-Ends dir cs after))))
  ]
