-- ===== src/Jobs/Coverage.antt =====
-- jobs/SendTree.cpp: the job ends, and lists every directory of the tree to a peer that stays.
use openbookfs.Prelude.{
  ℕ, zero, suc, ◌+◌, ◌≤◌, ◌<◌, ◌≡◌, refl, sym, subst, ◌⊎◌, inl, inr, Bool, true, false,
  if◌then◌else◌, List, [], ◌∷◌, ◌++◌, Elem, arith,
}
use openbookfs.Database.{FilePath}
use openbookfs.Backend.{Backend, build_peer_map}
use openbookfs.Jobs.Tree.{
  Tree, TreeMessage, dir_chunk, id_map, full, no_calls, Sending, Run, ended, overrun, running, next,
  and_then, send, listing, subscribed_listing, subdirectories, send_infos, send_dirs, go,
}
use openbookfs.Jobs.Directories.{
  Reaches, itself, deeper, Holds, AllHold, directory, no_directory, one_more, AllHold-append,
}
use openbookfs.Jobs.Infos.{
  Elem-append_left, Elem-append_right, Kept, Delivered, Kept-refl, Kept-trans, Delivered-Kept, Ends,
  Ends-weaken, Told, Ends-send, Told-lost, Told-Delivered, owed, InfosSent, send_infos-Ends,
}

module _ (t : Tree) where
  Reaches-cases :
      (x d : FilePath)
      → Reaches t x d
      → (x ≡ d) ⊎ ((y : FilePath) × Elem y (subdirectories t x (listing t x)) × Reaches t y d)
  Reaches-cases x d (itself _) = inl refl
  Reaches-cases x d (deeper _ y _ e r) = inr (y, e, r)

  Ends-and_then :
      (P Q : Sending → Type 0) (r : Run) (f : Sending → Run)
      → Ends t P r
      → ((s : Sending) → P s → Ends t Q (f s))
      → Ends t Q (and_then r f)
  Ends-and_then P Q (ended s) f h k = k s h
  Ends-and_then P Q overrun f h k = h
  Ends-and_then P Q running f h k = h

  -- All that is owed for the directories in the queue and below them is sent, or something is lost.
  abbrev TreesSent : List FilePath → Sending → Sending → Type 0
  TreesSent queue s after =
      Kept s after
      × ((top d : FilePath) (m : TreeMessage)
          → Elem top queue
          → Reaches t top d
          → Elem m (owed t d)
          → Delivered m after)

  abbrev chunk : FilePath → TreeMessage
  chunk d = dir_chunk d (listing t d)

  abbrev subs : FilePath → List FilePath
  subs d = subdirectories t d (listing t d)

  -- The round for one directory, and the rounds for the others.
  one_round :
      (d top e : FilePath) (queue : List FilePath) (m : TreeMessage) (first second last : Sending)
      → Delivered (chunk d) first
      → InfosSent t d (subscribed_listing t d) first second
      → TreesSent (queue ++ subs d) second last
      → Elem top (d ∷ queue)
      → Reaches t top e
      → Elem m (owed t e)
      → Delivered m last
  one_round d top e queue m first second last here infos rest (inr later) r o =
      rest.1 top e m (Elem-append_left top queue (subs d) later) r o
  one_round d top e queue m first second last here infos rest (inl same) r o =
      elim (Reaches-cases d e (subst (λ x. Reaches t x e) same r)) [
        | inr (y, inside, below) ↦ rest.1 y e m (Elem-append_right y queue (subs d) inside) below o
        | inl same_dir ↦ elim (subst (λ x. Elem m (owed t x)) (sym same_dir) o) [
          | inl is_chunk ↦ Delivered-Kept m second last rest.0 (
              Delivered-Kept m first second infos.0
                (subst (λ x. Delivered x first) (sym is_chunk) here))
          | inr is_info ↦ Delivered-Kept m second last rest.0 (infos.1 m is_info)
        ]
      ]

  abbrev go_on : ℕ → FilePath → List FilePath → Bool → Sending → Run
  go_on fuel d queue ok after =
      if ok
      then and_then (send_infos t d (subscribed_listing t d) after)
          (send_dirs t fuel (queue ++ subs d))
      else ended after

  send_dirs_round :
      (fuel : ℕ) (d : FilePath) (queue : List FilePath) (s : Sending)
      → send_dirs t (suc fuel) (d ∷ queue) s ≡ next (send t (chunk d) s) (go_on fuel d queue)
  unfolding send_dirs
  send_dirs_round fuel d queue s = refl

  after_chunk :
      (fuel : ℕ) (d : FilePath) (queue : List FilePath) (ok : Bool) (s after : Sending)
      → Told t (chunk d) s ok after
      → ((second : Sending)
          → Ends t (TreesSent (queue ++ subs d) second) (send_dirs t fuel (queue ++ subs d) second))
      → Ends t (TreesSent (d ∷ queue) s) (go_on fuel d queue ok after)
  after_chunk fuel d queue false s after h ih =
      (h.0, λ top e m q r o. inl (Told-lost t (chunk d) s after h))
  after_chunk fuel d queue true s after h ih =
      Ends-and_then (InfosSent t d (subscribed_listing t d) after) (TreesSent (d ∷ queue) s)
        (send_infos t d (subscribed_listing t d) after) (send_dirs t fuel (queue ++ subs d))
        (send_infos-Ends t d (subscribed_listing t d) after)
        (λ second infos.
          Ends-weaken t (TreesSent (queue ++ subs d) second) (TreesSent (d ∷ queue) s)
            (send_dirs t fuel (queue ++ subs d) second)
            (λ last rest. (
              Kept-trans s second last (Kept-trans s after second h.0 infos.0) rest.0,
              λ top e m q r o.
                  one_round d top e queue m after second last
                    (Told-Delivered t (chunk d) s after true h) infos rest q r o,
            ))
            (ih second))

  send_dirs-Ends :
      (fuel n : ℕ) (queue : List FilePath) (s : Sending)
      → AllHold t queue n
      → n < fuel
      → Ends t (TreesSent queue s) (send_dirs t fuel queue s)
  unfolding send_dirs
  send_dirs-Ends zero n queue s h lt = absurd (omega arith)
  send_dirs-Ends (suc fuel) n [] s h lt = (Kept-refl s, λ top d m q r o. absurd q)
  send_dirs-Ends (suc fuel) n (d ∷ queue) s (one_more _ _ _ b _ (directory _ a below) hs le) lt =
      let ih : (second : Sending)
          → Ends t (TreesSent (queue ++ subs d) second)
              (send_dirs t fuel (queue ++ subs d) second) =
        λ second.
          send_dirs-Ends fuel (b + a) (queue ++ subs d) second
            (AllHold-append t queue (subs d) b a (b + a) hs below (omega arith)) (omega arith) in
      subst (λ r. Ends t (TreesSent (d ∷ queue) s) r) (sym (send_dirs_round fuel d queue s))
        (Ends-send t (TreesSent (d ∷ queue) s) (chunk d) s (go_on fuel d queue)
          (λ ok after h. after_chunk fuel d queue ok s after h ih))

  Ends-cases :
      (P : Sending → Type 0) (r : Run)
      → Ends t P r
      → ((s : Sending) × (r ≡ ended s) × P s) ⊎ ((r ≡ overrun) × ((k : ℕ) × (t.answer k ≡ full)))
  Ends-cases P (ended s) h = inl (s, refl, h)
  Ends-cases P overrun h = inr (refl, h)
  Ends-cases P running h = absurd h

  go-Ends :
      (n fuel : ℕ) (backend : Backend) (d : FilePath) (m : TreeMessage)
      → Holds t "/" n
      → n < fuel
      → Reaches t "/" d
      → Elem m (id_map (build_peer_map backend []) ∷ owed t d)
      → Ends t (Delivered m) (go t fuel backend)
  unfolding go
  go-Ends n fuel backend d m h lt r o =
      let first = id_map (build_peer_map backend []) in
      let roots : List FilePath = "/" ∷ [] in
      Ends-send t (Delivered m) first no_calls (λ _ after. send_dirs t fuel roots after)
        (λ ok after told.
          Ends-weaken t (TreesSent roots after) (Delivered m) (send_dirs t fuel roots after)
            (λ last sent. elim o [
              | inl same ↦
                  subst (λ x. Delivered x last) (sym same)
                    (Delivered-Kept first after last sent.0
                      (Told-Delivered t first no_calls after ok told))
              | inr later ↦ sent.1 "/" d m (inl refl) r later
            ])
            (send_dirs-Ends fuel n roots after
              (one_more "/" [] n 0 n h (no_directory 0) (omega arith)) lt))

  -- In a tree of at most n directories the job comes to an end on any more fuel than n, whatever comes of its calls
  -- of sendMessage. Either it ends, and then at least one call has put nothing into a queue, or each of these
  -- messages has been put into one: the map of peers, and for every directory that is reached from the root
  -- its listing and what the system says of each subscribed child that has a `stat`. Or it crashes, and then
  -- one of the answers is that of a queue without a free node.
  pub go_lem :
      (n fuel : ℕ) (backend : Backend) (d : FilePath) (m : TreeMessage)
      → Holds t "/" n
      → n < fuel
      → Reaches t "/" d
      → Elem m (id_map (build_peer_map backend []) ∷ owed t d)
      → ((after : Sending) × (go t fuel backend ≡ ended after)
          × ((1 ≤ after.lost) ⊎ Elem m after.sent))
        ⊎ ((go t fuel backend ≡ overrun) × ((k : ℕ) × (t.answer k ≡ full)))
  go_lem n fuel backend d m h lt r o =
      Ends-cases (Delivered m) (go t fuel backend) (go-Ends n fuel backend d m h lt r o)
