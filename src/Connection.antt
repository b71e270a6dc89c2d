-- ===== src/Connection.antt =====
-- backend/Connection.cpp: the handshake of a connection, and its two threads. The arithmetic of CryptoPP
-- is a parameter, and so is what its random generator gives.
pub mod Wire
pub mod Election
pub mod Keys
pub mod Authentication
pub mod Threads
pub mod Draining
pub mod Listening
use openbookfs.Prelude.{
  ℕ, ◌==◌, ltb, not, ◌&&◌, if◌then◌else◌, Bool, true, false, List, [], ◌∷◌, ◌++◌, Option, none,
  some, String, str_eq, length, take, drop,
}
use openbookfs.Marshall.{Byte}
use openbookfs.Connection.Wire.{
  Message, msg_leader_elect, msg_key_exchange, msg_cek, msg_auth_req, msg_auth_challenge,
  msg_auth_soln, msg_auth_result, Packet, Peer, Heard, Talk, heard, failed, pure, ◌>>=◌, ◌>>◌,
  throw, throw_if, update, gets, same_bytes, write_msg, read,
}

-- AES::BLOCKSIZE, which is AES::DEFAULT_KEYLENGTH too
abbrev pub blocksize : ℕ
blocksize = 16

-- validate_message, and the cast to the type that it has checked
abbrev pub expect_leader_elect : Message → Talk ℕ
expect_leader_elect (msg_leader_elect n) = pure n
expect_leader_elect _ = throw

abbrev pub expect_key_exchange : Message → Talk (List Byte × List Byte)
expect_key_exchange (msg_key_exchange ekey skey) = pure (ekey, skey)
expect_key_exchange _ = throw

abbrev pub expect_cek : Message → Talk (List Byte × List Byte × List Byte)
expect_cek (msg_cek key iv cmac) = pure (key, iv, cmac)
expect_cek _ = throw

abbrev pub expect_auth_req : Message → Talk (String × String)
expect_auth_req (msg_auth_req name key) = pure (name, key)
expect_auth_req _ = throw

abbrev pub expect_auth_challenge : Message → Talk (List Byte)
expect_auth_challenge (msg_auth_challenge c) = pure c
expect_auth_challenge _ = throw

abbrev pub expect_auth_soln : Message → Talk (List Byte)
expect_auth_soln (msg_auth_soln s) = pure s
expect_auth_soln _ = throw

abbrev pub expect_auth_result : Message → Talk Bool
expect_auth_result (msg_auth_result r) = pure r
expect_auth_result _ = throw

-- leaderElect, with the bytes that the generator gives; when they are used up the loop goes on.
unfoldable pub leader_elect : List ℕ → Talk Bool
leader_elect [] p = Heard.waiting p
leader_elect (my_num ∷ more) p =
    let again = leader_elect more in
    (do
      write_msg (msg_leader_elect my_num) false
      reply ← read false
      peer_num ← expect_leader_elect reply
      if my_num == peer_num then again else pure (ltb peer_num my_num))
      p

-- What CryptoPP computes: the agreed value of DH2 from this peer's private keys and the other's public
-- ones, AES in ECB mode and CMAC, and whether SetKeyWithIV of AES in GCM mode takes a key and a vector; if it
-- does not, it throws.
pub record Crypto : Type 0 where
  pub ephemeral_public : List Byte
  pub static_public : List Byte
  pub agree : List Byte → List Byte → Option (List Byte)
  pub aes_encrypt : List Byte → List Byte → List Byte
  pub aes_decrypt : List Byte → List Byte → List Byte
  pub cmac : List Byte → List Byte → List Byte
  pub takes_key : List Byte → List Byte → Bool

module _ (crypto : Crypto) where
  -- Marshall::initAES
  abbrev pub init_aes : Talk (Unit {0})
  init_aes p =
      if crypto.takes_key p.cek p.iv
      then heard tt (record p { aes = some (p.cek, p.iv) })
      else failed p

  abbrev pub agreed : Option (List Byte) → Talk (List Byte × List Byte)
  agreed none = throw
  agreed (some shared) = pure (take blocksize shared, take blocksize (drop blocksize shared))

  -- keyExchange: the key encryption key and the one of the CMAC
  unfoldable pub key_exchange : Talk (List Byte × List Byte)
  key_exchange = do
    write_msg (msg_key_exchange crypto.ephemeral_public crypto.static_public) false
    reply ← read false
    keys ← expect_key_exchange reply
    agreed (crypto.agree keys.1 keys.0)

  abbrev pub content_message : List Byte → List Byte → List Byte → List Byte → Message
  content_message kek mack cek iv =
      msg_cek (crypto.aes_encrypt kek cek) (crypto.aes_encrypt kek iv)
        (crypto.cmac mack (crypto.aes_encrypt kek cek ++ crypto.aes_encrypt kek iv))

  -- sendCEK, with the key and the vector that the generator gives
  unfoldable pub send_cek : List Byte → List Byte → List Byte × List Byte → Talk (Unit {0})
  send_cek cek iv keys = do
    update (λ p. record p { cek = cek; iv = iv })
    init_aes
    write_msg (content_message keys.0 keys.1 cek iv) false

  -- recvCEK. Nothing calls it.
  unfoldable pub recv_cek : List Byte × List Byte → Talk (Unit {0})
  recv_cek keys = do
    recv ← read false
    c ← expect_cek recv
    throw_if (not (length c.0 == blocksize))
    throw_if (not (length c.1 == blocksize))
    throw_if (not (length c.2 == blocksize))
    throw_if (not (same_bytes (crypto.cmac keys.1 (c.0 ++ c.1)) c.2))
    update λ p. record p { cek = crypto.aes_decrypt keys.0 c.0; iv = crypto.aes_decrypt keys.0 c.1 }

  -- The first part of handshake. The `else` has no statement of its own, and takes the next one: the
  -- call of initAES.
  abbrev pub exchange_keys : List Byte → List Byte → Bool → Talk (Unit {0})
  exchange_keys cek iv am_leader = do
    keys ← key_exchange
    if am_leader then send_cek cek iv keys else init_aes

  unfoldable pub set_up_keys : List ℕ → List Byte → List Byte → Talk (Unit {0})
  set_up_keys numbers cek iv = leader_elect numbers >>= exchange_keys cek iv

-- What RSA does: whether a public key can be loaded, the longest text that it encrypts, encryption
-- under it, and decryption with this peer's private key, if its file can be read.
pub record Rsa : Type 0 where
  pub loads : String → Bool
  pub max_length : String → ℕ
  pub encrypt : String → List Byte → List Byte
  pub decrypt_own : List Byte → Option (List Byte)

abbrev pub or_throw : {A : Type 0} → Option A → Talk A
or_throw none = throw
or_throw (some a) = pure a

module _ (rsa : Rsa) (display_name public_key : String) where
  -- The exchange of challenges, with the random text of this peer.
  unfoldable pub challenge_peer : String → List Byte → Talk (Unit {0})
  challenge_peer base64 plain_challenge = do
    throw_if (rsa.max_length base64 == 0)
    write_msg (msg_auth_challenge (rsa.encrypt base64 plain_challenge)) true
    recv ← read true
    challenge ← expect_auth_challenge recv
    solution ← or_throw (rsa.decrypt_own challenge)
    write_msg (msg_auth_soln solution) true
    answer ← read true
    auth_soln ← expect_auth_soln answer
    write_msg (msg_auth_result (same_bytes auth_soln plain_challenge)) true
    throw_if (not (same_bytes auth_soln plain_challenge))
    last ← read true
    response ← expect_auth_result last
    throw_if (not response)

  -- authenticatePeer: the key and the name of the peer. The user interface has no key.
  unfoldable pub authenticate_peer : List Byte → Talk (String × String)
  authenticate_peer plain_challenge = do
    is_remote ← gets (λ p. p.is_remote)
    write_msg (msg_auth_req display_name public_key) is_remote
    recv ← read is_remote
    req ← expect_auth_req recv
    if not is_remote && str_eq req.1 "UserInterface"
        then (update (λ p. record p { is_ui = true }) >> pure (req.1, req.0))
        else (throw_if (not (rsa.loads req.1))
            >> ((if is_remote then challenge_peer req.1 plain_challenge else pure tt)
                >> pure (req.1, req.0)))

-- handshake, up to the call of Backend::registerPeer for a peer that is no user interface.
unfoldable pub handshake :
    Crypto
    → Rsa
    → String
    → String
    → List ℕ
    → List Byte
    → List Byte
    → List Byte
    → Talk (String × String)
handshake crypto rsa display_name public_key numbers cek iv plain_challenge = do
  is_remote ← gets (λ p. p.is_remote)
  (if is_remote then set_up_keys crypto numbers cek iv else pure tt)
  authenticate_peer rsa display_name public_key plain_challenge
