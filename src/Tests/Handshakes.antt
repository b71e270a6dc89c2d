-- ===== src/Tests/Handshakes.antt =====
-- backend/Connection.cpp with ciphers that stand for the libraries': a key is written in front.
use openbookfs.Prelude.{
  ℕ, ◌==◌, ltb, not, ◌≡◌, ◌≢◌, ◌⊎◌, ◌↔◌, String, refl, Bool, true, false, List, [], ◌∷◌, ◌++◌, some,
  none, arith, replicate, length, if◌then◌else◌, pos, sym, subst,
}
use openbookfs.Marshall.{Byte}
use openbookfs.Connection.{
  Crypto, Rsa, set_up_keys, key_exchange, leader_elect, send_cek, recv_cek, content_message,
  handshake, authenticate_peer,
}
use openbookfs.Connection.Wire.{
  Heard, Packet, Peer, plain, sealed, msg_auth_req, write_msg, read, heard, failed,
  msg_key_exchange,
}
use openbookfs.Connection.Election.{elect, leader_elect_lem}
use openbookfs.Connection.Keys.{Carries, recv_cek-send_cek, handshake-follower}
use openbookfs.Connection.Authentication.{conversation, authenticate_peer_iff}
use openbookfs.Connection.Threads.{shout, by_exception, listen, drain}
use openbookfs.Connection.Threads.{shout_lem}
use openbookfs.Connection.Draining.{drain_lem}
use openbookfs.Connection.Listening.{listen_lem}
use openbookfs.PriorityQueue.{PriorityQueue, create, insert, Inserted, inserted, refused, undefined}
use openbookfs.PriorityQueue.Inserting.{insert_lem}
use openbookfs.PriorityQueue.Order.{Keeps, Stores}
use openbookfs.PriorityQueue.Taking.{create-Keeps}

abbrev no_peer : Peer
no_peer = record {
  is_remote = true;
  is_ui = false;
  cek = [];
  iv = [];
  aes = none;
  incoming = [];
  sent = [];
}

-- A draw, and then different numbers.
leader_elect_lem_example :
    (leader_elect (7 ∷ 3 ∷ []) (record no_peer { incoming = elect 7 ∷ elect 9 ∷ [] })
      ≡ heard (ltb 9 3) (record no_peer { incoming = []; sent = elect 7 ∷ elect 3 ∷ [] }))
    × (leader_elect (7 ∷ 9 ∷ []) (record no_peer { incoming = elect 7 ∷ elect 3 ∷ [] })
        ≡ heard (ltb 3 9) (record no_peer { incoming = []; sent = elect 7 ∷ elect 9 ∷ [] }))
    × (ltb 3 9 ≡ not (ltb 9 3))
leader_elect_lem_example =
    leader_elect_lem (7 ∷ []) [] [] 3 9 [] [] no_peer no_peer (λ e. omega arith)

abbrev block : ℕ → List Byte
block n = replicate 16 n

abbrev toy : Crypto
toy = record {
  ephemeral_public = 1 ∷ [];
  static_public = 2 ∷ [];
  agree = λ s e. some (block 4 ++ block 5);
  aes_encrypt = λ k b. b;
  aes_decrypt = λ k b. b;
  cmac = λ k b. block 9;
  takes_key = λ k iv. length k == 16;
}

toy-Carries : Carries toy (block 4) (block 5) (block 6) (block 7)
toy-Carries = record {
  cek_back = refl;
  iv_back = refl;
  cek_block = refl;
  iv_block = refl;
  cmac_block = refl;
  taken = refl;
}

recv_cek-send_cek_example :
    (send_cek toy (block 6) (block 7) (block 4, block 5) no_peer
      ≡ heard tt (record no_peer {
        cek = block 6;
        iv = block 7;
        aes = some (block 6, block 7);
        sent = plain (content_message toy (block 4) (block 5) (block 6) (block 7)) ∷ [];
      }))
    × (recv_cek toy
          (block 4, block 5)
          (record no_peer {
            incoming = plain (content_message toy (block 4) (block 5) (block 6) (block 7)) ∷ [];
          })
        ≡ heard tt (record no_peer { cek = block 6; iv = block 7; incoming = [] }))
recv_cek-send_cek_example =
    recv_cek-send_cek toy (block 4) (block 5) (block 6) (block 7) [] no_peer no_peer toy-Carries

abbrev any_rsa : Rsa
any_rsa = record {
  loads = λ k. true;
  max_length = λ k. 8;
  encrypt = λ k b. b;
  decrypt_own = λ b. some b;
}

-- A peer that has kept the key of an earlier connection.
abbrev used_peer : Peer
used_peer = record no_peer { cek = block 6; iv = block 7 }

abbrev announced : List Packet
announced =
    elect 9
    ∷ plain (msg_key_exchange (1 ∷ []) (2 ∷ []))
    ∷ plain (content_message toy (block 4) (block 5) (block 6) (block 7))
    ∷ []

abbrev follow : Peer → Heard (String × String)
follow p =
    handshake toy any_rsa "me" "my key" (3 ∷ []) (block 1) (block 2) (block 3)
      (record p { incoming = announced })

abbrev left : List Packet
left = plain (content_message toy (block 4) (block 5) (block 6) (block 7)) ∷ []

abbrev said : List Packet
said = elect 3 ∷ plain (msg_key_exchange (1 ∷ []) (2 ∷ [])) ∷ []

-- Without a key nothing more is sent or read.
follow_run : follow no_peer ≡ failed (record no_peer { incoming = left; sent = said })
unfolding handshake set_up_keys leader_elect key_exchange write_msg read
follow_run = refl

handshake-follower_example :
    follow used_peer
    ≡ failed (record used_peer {
      aes = some (block 6, block 7);
      incoming = left;
      sent = said ++ sealed (block 6) (block 7) (msg_auth_req "me" "my key") ∷ [];
    })
handshake-follower_example =
    handshake-follower toy any_rsa "me" "my key" [] [] 3 9 (1 ∷ []) (2 ∷ []) (block 4 ++ block 5)
      (block 1) (block 2) (block 3) (content_message toy (block 4) (block 5) (block 6) (block 7)) []
      used_peer (omega arith) refl refl

abbrev talk : List Byte → Bool → Heard (String × String)
talk answer response = authenticate_peer any_rsa "me" "my key" (block 3) (
    conversation any_rsa "me" "my key" "you" "your key" [] [] (block 3) (block 8) (block 8) answer
      response [] no_peer)

authenticate_peer_iff_example :
    (((q : Peer) × (talk (block 3) true ≡ heard ("your key", "you") q))
      ↔ ((block 3 ≡ block 3) × (true ≡ true)))
    × (((q : Peer) × (talk (block 3) true ≡ failed q)) ↔ ((block 3 ≢ block 3) ⊎ (true ≡ false)))
authenticate_peer_iff_example =
    authenticate_peer_iff any_rsa "me" "my key" "you" "your key" [] [] (block 3) (block 8) (block 8)
      (block 3) true [] no_peer refl (refl, refl, refl)

abbrev small : PriorityQueue ℕ
small = create 0 2 3

abbrev is_zero : ℕ → Bool
is_zero n = n == 0

abbrev queue_after : Inserted ℕ → PriorityQueue ℕ
queue_after (inserted q) = q
queue_after refused = small
queue_after undefined = small

queue_after-Keeps :
    (xss : List (List ℕ)) (r : Inserted ℕ) → Stores 3 xss r → Keeps 3 xss (queue_after r)
queue_after-Keeps xss r (q, e, k) = subst (λ x. Keeps 3 xss (queue_after x)) (sym e) k

abbrev one_more : ℕ → ℕ → PriorityQueue ℕ → PriorityQueue ℕ
one_more n prio q = queue_after (insert n (pos prio) q)

-- A message of the second priority, then one of the first, and a Quit of the second.
abbrev loaded : PriorityQueue ℕ
loaded = one_more 0 1 (one_more 5 0 (one_more 6 1 small))

loaded-Keeps : Keeps 3 ((5 ∷ []) ∷ (6 ∷ 0 ∷ []) ∷ []) loaded
loaded-Keeps =
    let first =
      queue_after-Keeps ([] ∷ (6 ∷ []) ∷ []) (insert 6 (pos 1) small)
        (insert_lem 3 ([] ∷ [] ∷ []) 6 (pos 1) small (create-Keeps 0 2 3)) in
    let second =
      queue_after-Keeps ((5 ∷ []) ∷ (6 ∷ []) ∷ []) (insert 5 (pos 0) (one_more 6 1 small))
        (insert_lem 3 ([] ∷ (6 ∷ []) ∷ []) 5 (pos 0) (one_more 6 1 small) first) in
    queue_after-Keeps ((5 ∷ []) ∷ (6 ∷ 0 ∷ []) ∷ [])
      (insert 0 (pos 1) (one_more 5 0 (one_more 6 1 small)))
      (insert_lem 3 ((5 ∷ []) ∷ (6 ∷ []) ∷ []) 0 (pos 1) (one_more 5 0 (one_more 6 1 small)) second)

-- The second write throws.
shout_lem_example : shout is_zero 4 (true ∷ false ∷ []) loaded ≡ (5 ∷ [], by_exception)
shout_lem_example =
    shout_lem is_zero 3 4 (true ∷ false ∷ []) ((5 ∷ []) ∷ (6 ∷ 0 ∷ []) ∷ []) loaded loaded-Keeps
      (omega arith)

drain_lem_example :
    (after : PriorityQueue ℕ) × (drain 1 small ≡ some after) × Keeps {T = ℕ} 3 ([] ∷ [] ∷ []) after
drain_lem_example = drain_lem 3 1 ([] ∷ [] ∷ []) small (create-Keeps 0 2 3) (omega arith)

-- Two messages and the Quit fill the three nodes.
abbrev two : List ℕ
two = 5 ∷ 6 ∷ []

listen_lem_example :
    if ltb (length two) 3
    then Stores 3 ((5 ∷ 6 ∷ 0 ∷ []) ∷ [] ∷ []) (listen 0 two small)
    else (listen 0 two small ≡ undefined)
listen_lem_example = listen_lem 3 0 two [] ([] ∷ []) small (omega arith) (create-Keeps 0 2 3)
