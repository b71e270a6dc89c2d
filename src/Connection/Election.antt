-- ===== src/Connection/Election.antt =====
-- backend/Connection.cpp, leaderElect: two peers that draw different numbers elect one of them.
use openbookfs.Prelude.{
  ℕ, ==_iff, ==_ne, ltb, not, List, [], ◌∷◌, ◌++◌, map, ◌≡◌, ◌≢◌, refl, sym, ap, ◌∙◌, append_assoc,
  arith,
}
use openbookfs.Connection.Wire.{msg_leader_elect, Packet, plain, Peer, heard, write_msg, read}
use openbookfs.Connection.{leader_elect}

abbrev pub elect : ℕ → Packet
elect n = plain (msg_leader_elect n)

-- The numbers that the two peers draw: the same ones, and then `mine` here and `theirs` there.
pub leader_elect-draws :
    (same more : List ℕ) (mine theirs : ℕ) (rest : List Packet) (p : Peer)
    → mine ≢ theirs
    → leader_elect
        (same ++ mine ∷ more)
        (record p { incoming = map elect same ++ elect theirs ∷ rest })
      ≡ heard
          (ltb theirs mine)
          (record p { incoming = rest; sent = p.sent ++ (map elect same ++ elect mine ∷ []) })
unfolding leader_elect write_msg read
leader_elect-draws [] more mine theirs rest p differ = rw (==_ne mine theirs differ) refl
leader_elect-draws (n ∷ same) more mine theirs rest p differ = rw ((==_iff n n).1 refl) (
    leader_elect-draws same more mine theirs rest (record p { sent = p.sent ++ elect n ∷ [] })
      differ
    ∙ ap (λ l. heard (ltb theirs mine) (record p { incoming = rest; sent = l }))
        (append_assoc p.sent (elect n ∷ []) (map elect same ++ elect mine ∷ [])))

-- Two peers, each of which receives what the other sends, draw the same numbers for any number of rounds
-- and then different ones: each of them ends there, what each has sent is what the other has taken from
-- the socket, and one of them is the leader and the other is not.
pub leader_elect_lem :
    (same more more' : List ℕ) (a b : ℕ) (rest rest' : List Packet) (p q : Peer)
    → a ≢ b
    → let sent_a = map elect same ++ elect a ∷ [] in
      let sent_b = map elect same ++ elect b ∷ [] in
      (leader_elect (same ++ a ∷ more) (record p { incoming = sent_b ++ rest })
        ≡ heard (ltb b a) (record p { incoming = rest; sent = p.sent ++ sent_a }))
      × (leader_elect (same ++ b ∷ more') (record q { incoming = sent_a ++ rest' })
          ≡ heard (ltb a b) (record q { incoming = rest'; sent = q.sent ++ sent_b }))
      × (ltb a b ≡ not (ltb b a))
leader_elect_lem same more more' a b rest rest' p q differ = (
  ap (λ l. leader_elect (same ++ a ∷ more) (record p { incoming = l }))
        (append_assoc (map elect same) (elect b ∷ []) rest)
      ∙ leader_elect-draws same more a b rest p differ,
  ap (λ l. leader_elect (same ++ b ∷ more') (record q { incoming = l }))
        (append_assoc (map elect same) (elect a ∷ []) rest')
      ∙ leader_elect-draws same more' b a rest' q (λ e. differ (sym e)),
  ground arith,
)
