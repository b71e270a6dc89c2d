-- ===== src/Connection/Authentication.antt =====
-- backend/Connection.cpp, authenticatePeer: a remote peer is accepted when it can read what was encrypted
-- under the key that it shows.
use openbookfs.Prelude.{
  ◌==◌, if◌then◌else◌, Bool, true, false, List, [], ◌∷◌, ◌++◌, ◌≡◌, ◌≢◌, ◌⊎◌, ◌↔◌, refl, sym, subst,
  ◌∙◌, arith, Bool-cases, inl, inr, some, String,
}
use openbookfs.Marshall.{Byte}
use openbookfs.Connection.Wire.{
  msg_auth_req, msg_auth_challenge, msg_auth_soln, msg_auth_result, Packet, sealed, Peer, heard,
  failed, write_msg, read, same_bytes,
}
use openbookfs.Connection.{Rsa, challenge_peer, authenticate_peer}
use openbookfs.Connection.Keys.{same_bytes_refl}

same_bytes-eq : (xs ys : List Byte) → same_bytes xs ys ≡ true → xs ≡ ys
unfolding same_bytes
same_bytes-eq [] [] h = refl
same_bytes-eq [] (y ∷ ys) h = absurd cc
same_bytes-eq (x ∷ xs) [] h = absurd cc
same_bytes-eq (x ∷ xs) (y ∷ ys) h = ground (arith, same_bytes-eq xs ys)

accepted :
    {A : Type 0} (same response : Bool) (a : A) (f g q : Peer)
    → (if same then (if response then heard a f else failed f) else failed g) ≡ heard a q
    → (same ≡ true) × (response ≡ true)
accepted true true a f g q h = (refl, refl)
accepted true false a f g q h = absurd cc
accepted false response a f g q h = absurd cc

thrown :
    {A : Type 0} (same response : Bool) (a : A) (f g q : Peer)
    → (if same then (if response then heard a f else failed f) else failed g) ≡ failed q
    → (same ≡ false) ⊎ (response ≡ false)
thrown true true a f g q h = absurd cc
thrown true false a f g q h = inr refl
thrown false response a f g q h = inl refl

module _ (rsa : Rsa) (display_name public_key name base64 : String)
    (key iv fresh challenge solution answer : List Byte) (response : Bool) (rest : List Packet)
    (p : Peer) where
  -- the peer's packets, and those that go out until the solution is checked
  abbrev pub conversation : Peer
  conversation = record p {
    aes = some (key, iv);
    incoming =
        sealed key iv (msg_auth_req name base64)
        ∷ sealed key iv (msg_auth_challenge challenge)
        ∷ sealed key iv (msg_auth_soln answer)
        ∷ sealed key iv (msg_auth_result response)
        ∷ rest;
  }

  -- What the libraries say of the key and of the challenge.
  abbrev pub Readable : Type 0
  Readable =
      (rsa.loads base64 ≡ true)
      × ((rsa.max_length base64 == 0) ≡ false)
      × (rsa.decrypt_own challenge ≡ some solution)

  abbrev told : List Packet
  told =
      (((p.sent ++ sealed key iv (msg_auth_req display_name public_key) ∷ [])
          ++ sealed key iv (msg_auth_challenge (rsa.encrypt base64 fresh)) ∷ [])
        ++ sealed key iv (msg_auth_soln solution) ∷ [])
      ++ sealed key iv (msg_auth_result (same_bytes answer fresh)) ∷ []

  abbrev refused : Peer
  refused = record p {
    aes = some (key, iv);
    incoming = sealed key iv (msg_auth_result response) ∷ rest;
    sent = told;
  }

  abbrev finished : Peer
  finished = record p { aes = some (key, iv); incoming = rest; sent = told }

  runs :
      p.is_remote ≡ true
      → Readable
      → authenticate_peer rsa display_name public_key fresh conversation ≡ (
          if same_bytes answer fresh
          then (if response then heard (base64, name) finished else failed finished)
          else failed refused)
  unfolding authenticate_peer challenge_peer write_msg read
  runs remote (loads, length, solved) = rw (remote) (
      rw (same_bytes_refl key, same_bytes_refl iv)
        (rw (loads) (
          rw (length) (
            rw (same_bytes_refl key, same_bytes_refl iv)
              (rw (solved) (
                rw (same_bytes_refl key, same_bytes_refl iv)
                  (elim (Bool-cases (same_bytes answer fresh)) [
                    | inl e ↦ rw (e) (
                        rw (same_bytes_refl key, same_bytes_refl iv)
                          (elim (Bool-cases response) [
                            | inl r ↦ rw (r) refl
                            | inr r ↦ rw (r) refl
                          ]))
                    | inr e ↦ rw (e) refl
                  ])))))))

  -- A remote peer sends its key, a challenge, an answer and a verdict, all under the key of the session.
  -- Its key can be loaded and encrypts, and its challenge can be decrypted. It is accepted exactly when its
  -- answer is the text that was encrypted for it and its verdict is good, and an exception is thrown
  -- exactly when one of the two is not so.
  pub authenticate_peer_iff :
      p.is_remote ≡ true
      → Readable
      → (((q : Peer) × (authenticate_peer rsa display_name public_key fresh conversation
              ≡ heard (base64, name) q))
          ↔ ((answer ≡ fresh) × (response ≡ true)))
        × (((q : Peer) × (authenticate_peer rsa display_name public_key fresh conversation
                ≡ failed q))
            ↔ ((answer ≢ fresh) ⊎ (response ≡ false)))
  authenticate_peer_iff remote readable = (
    (
      λ h.
          let both =
            accepted (same_bytes answer fresh) response (base64, name) finished refused h.0
              (sym (runs remote readable) ∙ h.1) in
          (same_bytes-eq answer fresh both.0, both.1),
      λ h. (finished, runs remote readable ∙ rw (h.0, h.1, same_bytes_refl fresh) refl),
    ),
    (
      λ h.
          elim (thrown (same_bytes answer fresh) response (base64, name) finished refused h.0
            (sym (runs remote readable) ∙ h.1)) [
              | inl different ↦ inl (λ same. true_ne_false (sym (same_bytes_of same) ∙ different))
              | inr bad ↦ inr bad
            ],
      λ h. throws h,
    ),
  )
    where
      same_bytes_of : answer ≡ fresh → same_bytes answer fresh ≡ true
      same_bytes_of same = subst (λ a. same_bytes a fresh ≡ true) (sym same) (same_bytes_refl fresh)

      true_ne_false : true ≡ false → ⊥
      true_ne_false e = cc

      refuses :
          same_bytes answer fresh ≡ false
          → (q : Peer) × (authenticate_peer rsa display_name public_key fresh conversation
              ≡ failed q)
      refuses e = (refused, runs remote readable ∙ rw (e) refl)

      throws :
          ((answer ≢ fresh) ⊎ (response ≡ false))
          → (q : Peer) × (authenticate_peer rsa display_name public_key fresh conversation
              ≡ failed q)
      throws (inl different) = elim (Bool-cases (same_bytes answer fresh)) [
        | inl e ↦ absurd (different (same_bytes-eq answer fresh e))
        | inr e ↦ refuses e
      ]
      throws (inr bad) = elim (Bool-cases (same_bytes answer fresh)) [
        | inl e ↦ (finished, runs remote readable ∙ rw (e, bad) refl)
        | inr e ↦ refuses e
      ]
