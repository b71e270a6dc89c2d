-- ===== src/Marshall/Messages.antt =====
-- Marshall.cpp: write and read of a message, with and without encryption.
use openbookfs.Prelude.{◌+◌, ◌≤◌, ◌<◌, ◌≡◌, refl, sym, ◌∙◌, subst}
use openbookfs.Prelude.{Bool, true, false, List, ◌∷◌, ◌++◌, length, arith, some}
use openbookfs.Prelude.{ge→ltb}
use openbookfs.Marshall.{Byte, Turn, Step, done, AutoMessage, Codec, bufsize, and_then}
use openbookfs.Marshall.{receive_message, send_message}
use openbookfs.Marshall.{
  serialize, encrypt, decrypt, deserialize, parse_body, first_byte, keep_wire, read, write,
}
use openbookfs.Marshall.Dispatch.{num_msg}
use openbookfs.Marshall.Found.{find_type_lem, parse_message_id_lem}
use openbookfs.Marshall.Loops.{Calm, moves, Ensures-and_then, Ends-and_then, Yields, Ends}
use openbookfs.Marshall.Framing.{frame, receive_message-Yields, receive_message-Ends}

module _ {Msg : Type 0} (codec : Codec Msg) where
  -- the bytes of a message before and after encryption
  abbrev pub plain : AutoMessage Msg → List Byte
  plain m = m.type ∷ codec.serialize_to_array m.msg

  abbrev pub sealed : Bool → AutoMessage Msg → List Byte
  sealed true m = codec.encrypt_filter (plain m)
  sealed false m = plain m

  -- A message that fits: its type is one that the reader takes, and it is no larger than the buffers.
  abbrev pub Fits : Bool → AutoMessage Msg → Type 0
  Fits e m =
      (1 ≤ m.type)
      × (m.type < num_msg)
      × (length (plain m) ≤ bufsize)
      × (length (sealed e m) ≤ bufsize)

  -- What protocol buffers and CryptoPP promise of this message.
  abbrev pub Recovers : AutoMessage Msg → Type 0
  Recovers m =
      (codec.parse_from_array m.type (codec.serialize_to_array m.msg) ≡ some m.msg)
      × (codec.decrypt_filter (codec.encrypt_filter (plain m)) ≡ some (plain m))

  pub serialize_fits :
      (m : AutoMessage Msg) (s : List Turn)
      → length (plain m) ≤ bufsize
      → serialize codec m s ≡ done (plain m) s
  unfolding serialize
  serialize_fits m s h =
      rw (ge→ltb bufsize (1 + length (codec.serialize_to_array m.msg)) (omega (arith, h))) refl

  pub encrypt_fits :
      (p : List Byte) (s : List Turn)
      → length (codec.encrypt_filter p) ≤ bufsize
      → encrypt codec p s ≡ done (codec.encrypt_filter p) s
  unfolding encrypt
  encrypt_fits p s h = rw (ge→ltb bufsize (length (codec.encrypt_filter p)) h) refl

  pub write-Fits :
      (s : List Turn) (e : Bool) (m : AutoMessage Msg) (wire : List Byte)
      → Fits e m
      → write codec s m e wire ≡ send_message codec wire (sealed e m) s
  unfolding write
  write-Fits s true m wire h = rw (serialize_fits m s h.2, encrypt_fits (plain m) s h.3) refl
  write-Fits s false m wire h = rw (serialize_fits m s h.2) refl

  pub deserialize_type :
      (b : Byte) (body : List Byte) (s : List Turn)
      → 1 ≤ b
      → b < num_msg
      → deserialize codec (b ∷ body) s ≡ parse_body codec (b ∷ body) s b
  unfolding deserialize first_byte
  deserialize_type b body s lo hi =
      rw
        (
          deserialize,
          first_byte,
          parse_message_id_lem b lo hi,
          find_type_lem 36 0 37 b (omega arith) hi (omega arith),
        )
        refl

  deserialize-plain :
      (m : AutoMessage Msg) (s : List Turn)
      → 1 ≤ m.type
      → m.type < num_msg
      → Recovers m
      → deserialize codec (plain m) s ≡ done m s
  deserialize-plain m s lo hi r =
      deserialize_type m.type (codec.serialize_to_array m.msg) s lo hi ∙ rw (r.0, parse_body) refl

  -- the part of `read` after the bytes have come in
  abbrev pub open_message :
      Bool → List Byte × List Byte → List Turn → Step (AutoMessage Msg × List Byte)
  open_message true r t =
      and_then (decrypt codec r.0 t) (λ p u. and_then (deserialize codec p u) (keep_wire codec r.1))
  open_message false r t = and_then (deserialize codec r.0 t) (keep_wire codec r.1)

  open_sealed :
      (e : Bool) (m : AutoMessage Msg) (rest : List Byte) (t : List Turn)
      → Fits e m
      → Recovers m
      → open_message e (sealed e m, rest) t ≡ done (m, rest) t
  unfolding decrypt
  open_sealed true m rest t h r = rw (decrypt, r.1) (rw (deserialize-plain m t h.0 h.1 r) refl)
  open_sealed false m rest t h r = rw (deserialize-plain m t h.0 h.1 r) refl

  read_lem :
      (t : List Turn) (e : Bool) (wire : List Byte)
      → read codec t e wire ≡ and_then (receive_message codec t wire) (open_message e)
  unfolding read
  read_lem t true wire = refl
  read_lem t false wire = refl

  pub read-Yields :
      (t : List Turn) (e : Bool) (m : AutoMessage Msg) (rest : List Byte)
      → Fits e m
      → Recovers m
      → Yields (m, rest) (read codec t e (frame (sealed e m) ++ rest))
  read-Yields t e m rest h r =
      subst (λ q. Yields (m, rest) q) (sym (read_lem t e (frame (sealed e m) ++ rest)))
        (Ensures-and_then (λ q. (m, rest) ≡ q)
          (receive_message codec t (frame (sealed e m) ++ rest)) (open_message e)
          (receive_message-Yields codec (sealed e m) rest t h.3)
          (λ b u eq.
            subst (λ q. Yields (m, rest) (open_message e q u)) eq
              (subst (λ q. Yields (m, rest) q) (sym (open_sealed e m rest u h r)) refl)))

  pub read-Ends :
      (t : List Turn) (e : Bool) (m : AutoMessage Msg) (rest : List Byte)
      → Calm t
      → 2 + length (sealed e m) ≤ moves t
      → Fits e m
      → Recovers m
      → Ends (m, rest) (2 + length (sealed e m)) t (read codec t e (frame (sealed e m) ++ rest))
  read-Ends t e m rest c n h r =
      subst (λ k. Ends (m, rest) k t (read codec t e (frame (sealed e m) ++ rest))) (omega arith)
        (subst (λ q. Ends (m, rest) (2 + length (sealed e m) + 0) t q)
          (sym (read_lem t e (frame (sealed e m) ++ rest)))
          (Ends-and_then (2 + length (sealed e m)) 0 t
            (receive_message codec t (frame (sealed e m) ++ rest)) (open_message e)
            (receive_message-Ends codec (sealed e m) rest t c h.3 n)
            (λ u d k. (u, open_sealed e m rest u h r, d, omega arith))))
