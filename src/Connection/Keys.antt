-- ===== src/Connection/Keys.antt =====
-- backend/Connection.cpp: how the content key gets, and does not get, from the leader to the follower.
use openbookfs.Connection.{exchange_keys}
use openbookfs.Connection.Wire.{bind_heard, msg_auth_req}
use openbookfs.Prelude.{
  Bool-cases, inl, inr, ℕ, ◌==◌, ==_iff, ltb, if◌then◌else◌, Bool, true, false, List, [], ◌∷◌, ◌++◌,
  map, ◌≡◌, ◌≢◌, ◌<◌, refl, ap, ◌∙◌, arith, Bool-cases, inl, inr, ge→ltb, some, String, length,
  take, drop,
}
use openbookfs.Marshall.{Byte}
use openbookfs.Connection.Wire.{
  Message, msg_key_exchange, msg_cek, Packet, plain, sealed, Peer, Heard, Talk, heard, failed,
  write_msg, read, same_bytes,
}
use openbookfs.Connection.{
  Crypto, Rsa, blocksize, content_message, key_exchange, send_cek, recv_cek, set_up_keys,
  authenticate_peer, handshake,
}
use openbookfs.Connection.Election.{elect, leader_elect-draws}

pub same_bytes_refl : (xs : List Byte) → same_bytes xs xs ≡ true
unfolding same_bytes
same_bytes_refl [] = refl
same_bytes_refl (x ∷ xs) = rw ((==_iff x x).1 refl, same_bytes_refl xs) refl

-- What AES and CMAC give for a key and a vector of one block each, which GCM takes.
pub record Carries (crypto : Crypto) (kek mack cek iv : List Byte) : Type 0 where
  pub cek_back : crypto.aes_decrypt kek (crypto.aes_encrypt kek cek) ≡ cek
  pub iv_back : crypto.aes_decrypt kek (crypto.aes_encrypt kek iv) ≡ iv
  pub cek_block : length (crypto.aes_encrypt kek cek) ≡ blocksize
  pub iv_block : length (crypto.aes_encrypt kek iv) ≡ blocksize
  pub cmac_block :
      length (crypto.cmac mack (crypto.aes_encrypt kek cek ++ crypto.aes_encrypt kek iv))
      ≡ blocksize
  pub taken : crypto.takes_key cek iv ≡ true

-- Under the same two keys recvCEK reads from the message of sendCEK the key and the vector that sendCEK
-- has chosen, and takes that message and no other from the socket.
pub recv_cek-send_cek :
    (crypto : Crypto) (kek mack cek iv : List Byte) (rest : List Packet) (p q : Peer)
    → Carries crypto kek mack cek iv
    → let packet = plain (content_message crypto kek mack cek iv) in
      (send_cek crypto cek iv (kek, mack) p
        ≡ heard tt
            (record p { cek = cek; iv = iv; aes = some (cek, iv); sent = p.sent ++ packet ∷ [] }))
      × (recv_cek crypto (kek, mack) (record q { incoming = packet ∷ rest })
          ≡ heard tt (record q { cek = cek; iv = iv; incoming = rest }))
unfolding send_cek write_msg recv_cek read
recv_cek-send_cek crypto kek mack cek iv rest p q c =
    let cmac = crypto.cmac mack (crypto.aes_encrypt kek cek ++ crypto.aes_encrypt kek iv) in
    (
      rw (c.taken) refl,
      rw (c.cek_block, c.iv_block, c.cmac_block, same_bytes_refl cmac, c.cek_back, c.iv_back) refl,
    )

-- A content key whose digest is not that of its two parts is refused.
pub recv_cek-tampered :
    (crypto : Crypto) (kek mack key iv cmac : List Byte) (rest : List Packet) (q : Peer)
    → same_bytes (crypto.cmac mack (key ++ iv)) cmac ≡ false
    → (r : Peer) × (recv_cek crypto
          (kek, mack)
          (record q { incoming = plain (msg_cek key iv cmac) ∷ rest })
        ≡ failed r)
unfolding recv_cek read
recv_cek-tampered crypto kek mack key iv cmac rest q h =
    elim (Bool-cases (length key == blocksize)) [
      | inr e ↦ (record q { incoming = rest }, rw (e) refl)
      | inl e ↦ elim (Bool-cases (length iv == blocksize)) [
        | inr f ↦ (record q { incoming = rest }, rw (e, f) refl)
        | inl f ↦ elim (Bool-cases (length cmac == blocksize)) [
          | inr g ↦ (record q { incoming = rest }, rw (e, f, g) refl)
          | inl g ↦ (record q { incoming = rest }, rw (e, f, g, h) refl)
        ]
      ]
    ]

-- What the two sides have after the exchange of keys: GCM takes the leader's new key, or the key that the
-- follower had, or it throws.
abbrev pub keyed : Crypto → Bool → List Byte → List Byte → Message → Peer → Heard (Unit {0})
keyed crypto true cek iv content p =
    if crypto.takes_key cek iv
    then heard tt
        (record p { cek = cek; iv = iv; aes = some (cek, iv); sent = p.sent ++ plain content ∷ [] })
    else failed (record p { cek = cek; iv = iv })
keyed crypto false cek iv content p =
    if crypto.takes_key p.cek p.iv
    then heard tt (record p { aes = some (p.cek, p.iv) })
    else failed p

exchange_keys_lem :
    (crypto : Crypto) (am_leader : Bool) (ekey skey shared cek iv : List Byte) (rest : List Packet)
    (p : Peer)
    → crypto.agree skey ekey ≡ some shared
    → let sent =
        p.sent ++ plain (msg_key_exchange crypto.ephemeral_public crypto.static_public) ∷ [] in
      let content =
        content_message crypto
          (take blocksize shared)
          (take blocksize (drop blocksize shared))
          cek
          iv in
      exchange_keys crypto cek iv am_leader
        (record p { incoming = plain (msg_key_exchange ekey skey) ∷ rest })
      ≡ keyed crypto am_leader cek iv content (record p { incoming = rest; sent = sent })
unfolding key_exchange send_cek write_msg read
exchange_keys_lem crypto true ekey skey shared cek iv rest p agreed =
    elim (Bool-cases (crypto.takes_key cek iv)) [
      | inl e ↦ rw (agreed) (rw (e) refl)
      | inr e ↦ rw (agreed) (rw (e) refl)
    ]
exchange_keys_lem crypto false ekey skey shared cek iv rest p agreed =
    elim (Bool-cases (crypto.takes_key p.cek p.iv)) [
      | inl e ↦ rw (agreed) (rw (e) refl)
      | inr e ↦ rw (agreed) (rw (e) refl)
    ]

-- The two ends of a remote connection after the first part of the handshake.
pub set_up_keys_lem :
    (crypto : Crypto) (same more : List ℕ) (mine theirs : ℕ) (ekey skey shared cek iv : List Byte)
    (rest : List Packet) (p : Peer)
    → mine ≢ theirs
    → crypto.agree skey ekey ≡ some shared
    → let numbers = same ++ mine ∷ more in
      let incoming = map elect same ++ elect theirs ∷ plain (msg_key_exchange ekey skey) ∷ rest in
      let sent =
        (p.sent ++ (map elect same ++ elect mine ∷ []))
        ++ plain (msg_key_exchange crypto.ephemeral_public crypto.static_public) ∷ [] in
      let content =
        content_message crypto
          (take blocksize shared)
          (take blocksize (drop blocksize shared))
          cek
          iv in
      set_up_keys crypto numbers cek iv (record p { incoming = incoming })
      ≡ keyed crypto (ltb theirs mine) cek iv content (record p { incoming = rest; sent = sent })
unfolding set_up_keys
set_up_keys_lem crypto same more mine theirs ekey skey shared cek iv rest p differ agreed =
    let key = plain (msg_key_exchange ekey skey) in
    ap (λ r. bind_heard r (exchange_keys crypto cek iv))
      (leader_elect-draws same more mine theirs (key ∷ rest) p differ)
    ∙ exchange_keys_lem crypto (ltb theirs mine) ekey skey shared cek iv rest
        (record p { sent = p.sent ++ (map elect same ++ elect mine ∷ []) }) agreed

auth_refused :
    (rsa : Rsa) (display_name public_key : String) (challenge : List Byte) (content : Message)
    (rest : List Packet) (key : List Byte × List Byte) (q : Peer)
    → q.is_remote ≡ true
    → authenticate_peer rsa display_name public_key challenge
        (record q { aes = some key; incoming = plain content ∷ rest })
      ≡ failed (record q {
        aes = some key;
        incoming = plain content ∷ rest;
        sent = q.sent ++ sealed key.0 key.1 (msg_auth_req display_name public_key) ∷ [];
      })
unfolding authenticate_peer write_msg read
auth_refused rsa display_name public_key challenge content rest key q remote = rw (remote) refl

handshake_remote :
    (crypto : Crypto) (rsa : Rsa) (display_name public_key : String) (numbers : List ℕ)
    (cek iv challenge : List Byte) (p : Peer)
    → p.is_remote ≡ true
    → handshake crypto rsa display_name public_key numbers cek iv challenge p
      ≡ bind_heard
          (set_up_keys crypto numbers cek iv p)
          (λ _. authenticate_peer rsa display_name public_key challenge)
unfolding handshake
handshake_remote crypto rsa display_name public_key numbers cek iv challenge p remote =
    rw (remote) refl

-- The follower of a remote connection, which has drawn the smaller number, and for which DH2 agrees on a
-- value, keeps the key and the vector it had. If GCM does not take them, its
-- handshake ends with an exception before it reads another packet, and it is left without a new cipher. If
-- GCM takes them, it has a cipher with them; the next packet is the content key of the leader, which is not
-- sealed, and the handshake ends with an exception when it reads that.
pub handshake-follower :
    (crypto : Crypto) (rsa : Rsa) (display_name public_key : String) (same more : List ℕ)
    (mine theirs : ℕ) (ekey skey shared cek iv challenge : List Byte) (content : Message)
    (rest : List Packet) (p : Peer)
    → mine < theirs
    → crypto.agree skey ekey ≡ some shared
    → p.is_remote ≡ true
    → let incoming =
        map elect same
        ++ elect theirs ∷ plain (msg_key_exchange ekey skey) ∷ plain content ∷ rest in
      let sent =
        (p.sent ++ (map elect same ++ elect mine ∷ []))
        ++ plain (msg_key_exchange crypto.ephemeral_public crypto.static_public) ∷ [] in
      let stopped : Peer = record p { incoming = plain content ∷ rest; sent = sent } in
      handshake crypto rsa display_name public_key
        (same ++ mine ∷ more)
        cek
        iv
        challenge
        (record p { incoming = incoming })
      ≡ failed (
          if crypto.takes_key p.cek p.iv
          then record stopped {
            aes = some (p.cek, p.iv);
            sent = sent ++ sealed p.cek p.iv (msg_auth_req display_name public_key) ∷ [];
          }
          else stopped)
handshake-follower crypto rsa display_name public_key same more mine theirs ekey skey shared cek iv
      challenge content rest p less agreed remote =
    let key = plain (msg_key_exchange ekey skey) in
    let k : Talk (String × String) = authenticate_peer rsa display_name public_key challenge in
    let start : Peer = record p {
      incoming = map elect same ++ elect theirs ∷ key ∷ plain content ∷ rest;
    } in
    let sent =
      (p.sent ++ (map elect same ++ elect mine ∷ []))
      ++ plain (msg_key_exchange crypto.ephemeral_public crypto.static_public) ∷ [] in
    let stopped : Peer = record p { incoming = plain content ∷ rest; sent = sent } in
    let message =
      content_message crypto (take blocksize shared) (take blocksize (drop blocksize shared)) cek
        iv in
    let keys : set_up_keys crypto (same ++ mine ∷ more) cek iv start
        ≡ keyed crypto false cek iv message stopped =
      set_up_keys_lem crypto same more mine theirs ekey skey shared cek iv (plain content ∷ rest) p
        (λ e. omega arith) agreed
      ∙ ap (λ b. keyed crypto b cek iv message stopped) (ge→ltb theirs mine (omega arith)) in
    handshake_remote crypto rsa display_name public_key (same ++ mine ∷ more) cek iv challenge start
      remote
    ∙ ap (λ r. bind_heard r (λ _. k)) keys
    ∙ elim (Bool-cases (crypto.takes_key p.cek p.iv)) [
      | inl e ↦ rw (e) (
          auth_refused rsa display_name public_key challenge content rest (p.cek, p.iv) stopped
            remote)
      | inr e ↦ rw (e) refl
    ]
