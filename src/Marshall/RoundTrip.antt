-- ===== src/Marshall/RoundTrip.antt =====
-- Marshall.cpp and messages.cpp: sending and receiving, put together, and what is refused.
use openbookfs.Prelude.{◌↔◌, ℕ, ◌+◌, ◌≤◌, ◌<◌, ◌≡◌, refl, sym, ap, ◌∙◌, subst, ◌⊎◌, inl, inr}
use openbookfs.Prelude.{
  Bool, true, false, List, [], ◌∷◌, ◌++◌, length, arith, Option, some, none, lt→ltb, ge→ltb,
  ℕ-cases,
}
use openbookfs.Marshall.{
  Byte, Turn, done, threw, bad_message, too_long, bad_type, AutoMessage, Codec, bufsize,
}
use openbookfs.Marshall.{
  header_size, check_size, recv_loop, read_size, read_data, receive_message, send_message,
}
use openbookfs.Marshall.{serialize, encrypt, deserialize, parse_body, first_byte, read, write}
use openbookfs.Marshall.Dispatch.{num_msg}
use openbookfs.Marshall.Found.{parse_message_id_bad}
use openbookfs.Marshall.Loops.{
  Calm, moves, Ensures, Ensures-map, Ensures-and_then, Yields, Reads, recv_loop-Reads,
}
use openbookfs.Marshall.Framing.{frame, send_message-Yields, send_message-Ends}
use openbookfs.Marshall.Messages.{
  plain, sealed, Fits, Recovers, write-Fits, serialize_fits, deserialize_type, read-Yields,
  read-Ends,
}

same_done : {A : Type 0} (a b : A) (s : List Turn) → done a s ≡ done b s → a ≡ b
same_done a b s e = cc

not_done : {A : Type 0} (a : A) (s : List Turn) → ¬ (threw bad_type ≡ done a s)
not_done a s e = cc

module _ {Msg : Type 0} (codec : Codec Msg) where
  -- A message that fits, written under turns that only delay, in as many pieces as one likes but with a
  -- turn for each of its bytes, is sent; reading what was sent under such turns gives the message back,
  -- encrypted or not, and leaves what comes after it on the wire.
  pub read-write :
      (s t : List Turn) (e : Bool) (m : AutoMessage Msg) (rest : List Byte)
      → Fits codec e m
      → Recovers codec m
      → Calm s × (2 + length (sealed codec e m) ≤ moves s)
      → Calm t × (2 + length (sealed codec e m) ≤ moves t)
      → (wire : List Byte) × (s' t' : List Turn) × (write codec s m e [] ≡ done wire s')
        × (read codec t e (wire ++ rest) ≡ done (m, rest) t')
  read-write s t e m rest h r c d =
      let sent = send_message-Ends codec [] (sealed codec e m) s c.0 c.1 in
      let got = read-Ends codec t e m rest d.0 d.1 h r in
      (frame (sealed codec e m), sent.0, got.0, write-Fits codec s e m [] h ∙ sent.1, got.1)

  -- Whatever the turns of the two sides: if the write ends, a read of what it sent gives the same
  -- message, if it ends; it never gives another one.
  pub read-write-Yields :
      (s t : List Turn) (e : Bool) (m : AutoMessage Msg) (rest : List Byte)
      → Fits codec e m
      → Recovers codec m
      → Ensures (λ wire. Yields (m, rest) (read codec t e (wire ++ rest))) (write codec s m e [])
  read-write-Yields s t e m rest h r =
      subst (λ q. Ensures (λ wire. Yields (m, rest) (read codec t e (wire ++ rest))) q)
        (sym (write-Fits codec s e m [] h))
        (Ensures-map (send_message codec [] (sealed codec e m) s)
          (λ wire eq.
            subst (λ w. Yields (m, rest) (read codec t e (w ++ rest))) eq
              (read-Yields codec t e m rest h r))
          (send_message-Yields codec [] (sealed codec e m) s))

  -- What has come in: two bytes of header, a message of the size they say, and the rest.
  abbrev pub Framed : List Byte → List Byte × List Byte → Type 0
  Framed wire r =
      (header : List Byte) × (wire ≡ header ++ (r.0 ++ r.1))
      × (length header ≡ 2)
      × (header_size header ≡ length r.0)
      × (length r.0 ≤ bufsize)

  -- The size is the one in the header, and is not above the bound.
  abbrev SizeRead : List Byte → ℕ × List Byte → Type 0
  SizeRead wire q =
      (header : List Byte) × Reads [] 2 wire (header, q.1)
      × (header_size header ≡ q.0)
      × (q.0 ≤ bufsize)

  check_size-SizeRead :
      (wire : List Byte) (r : List Byte × List Byte) (s : List Turn)
      → Reads [] 2 wire r
      → Ensures (SizeRead wire) (check_size (header_size r.0) r.1 s)
  check_size-SizeRead wire r s h = elim (ℕ-cases bufsize (header_size r.0)) [
    | inl lt ↦ rw (lt→ltb bufsize (header_size r.0) lt) tt
    | inr le ↦ rw (ge→ltb bufsize (header_size r.0) le) (r.0, h, refl, le)
  ]

  framed :
      (wire : List Byte) (q : ℕ × List Byte) (r : List Byte × List Byte)
      → SizeRead wire q
      → Reads [] q.0 q.1 r
      → Framed wire r
  framed wire q r (header, h, e, le) b = (
    header,
    h.3 ∙ ap (λ l. l ++ q.1) (sym h.1) ∙ ap (λ l. header ++ l) (b.3 ∙ ap (λ l. l ++ r.1) (sym b.1)),
    ap length h.1 ∙ h.2,
    e ∙ sym (ap length b.1 ∙ b.2),
    subst (λ n. n ≤ bufsize) (sym (ap length b.1 ∙ b.2)) le,
  )

  -- Whatever stands on the wire and whatever the turns: a size and a message that have been read are
  -- the first bytes of the wire, the message has the size that the header says, and it fits in the buffer.
  pub receive_message-Framed :
      (s : List Turn) (wire : List Byte) → Ensures (Framed wire) (receive_message codec s wire)
  unfolding read_size read_data
  receive_message-Framed s wire =
      Ensures-and_then (Framed wire) (read_size s wire) (λ q t. read_data t q.0 q.1)
        (Ensures-and_then (SizeRead wire) (recv_loop s 2 [] wire)
          (λ r. check_size (header_size r.0) r.1) (recv_loop-Reads s 2 [] wire)
          (λ r t h. check_size-SizeRead wire r t h))
        (λ q t h.
          Ensures-map (recv_loop t q.0 [] q.1) (λ r b. framed wire q r h b)
            (recv_loop-Reads t q.0 [] q.1))

  serialize_long :
      (m : AutoMessage Msg) (s : List Turn)
      → bufsize < length (plain codec m)
      → serialize codec m s ≡ threw too_long
  unfolding serialize
  serialize_long m s h =
      rw (lt→ltb bufsize (1 + length (codec.serialize_to_array m.msg)) (omega (arith, h))) refl

  encrypt_long :
      (p : List Byte) (s : List Turn)
      → bufsize < length (codec.encrypt_filter p)
      → encrypt codec p s ≡ threw too_long
  unfolding encrypt
  encrypt_long p s h = rw (lt→ltb bufsize (length (codec.encrypt_filter p)) h) refl

  -- A message that is too large for the buffers before or after its encryption is refused, whatever
  -- the turns, before anything is sent.
  pub write-too_long :
      (s : List Turn) (e : Bool) (m : AutoMessage Msg) (wire : List Byte)
      → (bufsize < length (plain codec m)) ⊎ (bufsize < length (sealed codec e m))
      → write codec s m e wire ≡ threw too_long
  unfolding write
  write-too_long s true m wire (inl h) = rw (serialize_long m s h) refl
  write-too_long s true m wire (inr h) = elim (ℕ-cases bufsize (length (plain codec m))) [
    | inl lt ↦ rw (serialize_long m s lt) refl
    | inr le ↦ rw (serialize_fits codec m s le, encrypt_long (plain codec m) s h) refl
  ]
  write-too_long s false m wire (inl h) = rw (serialize_long m s h) refl
  write-too_long s false m wire (inr h) = rw (serialize_long m s h) refl

  deserialize_bad :
      (b : Byte) (body : List Byte) (s : List Turn)
      → b < 256
      → (b ≡ 0) ⊎ (num_msg ≤ b)
      → deserialize codec (b ∷ body) s ≡ threw bad_type
  unfolding deserialize first_byte
  deserialize_bad b body s h r = rw (deserialize, first_byte, parse_message_id_bad b h r) refl

  -- A message is taken from its bytes when the first one is the number of a type from 1 to NUM_MSG - 1
  -- and the parser of that type takes the others, and it is the message that they are.
  abbrev pub IsReadAs : Byte → List Byte → AutoMessage Msg → Type 0
  IsReadAs b body m =
      (1 ≤ b) × (b < num_msg) × (codec.parse_from_array b body ≡ some m.msg) × (m.type ≡ b)

  taken_body :
      (b : Byte) (o : Option Msg) (s : List Turn) (m : AutoMessage Msg)
      → elim o [ none ↦ threw bad_message | some v ↦ done (record { type = b; msg = v }) s ]
        ≡ done m s
      → (o ≡ some m.msg) × (m.type ≡ b)
  taken_body b none s m h = absurd cc
  taken_body b (some v) s m h = (
    ap (λ k. some k.msg) (same_done (record { type = b; msg = v }) m s h),
    sym (ap (λ k. k.type) (same_done (record { type = b; msg = v }) m s h)),
  )

  read_as :
      (b : Byte) (body : List Byte) (s : List Turn) (m : AutoMessage Msg)
      → b < 256
      → deserialize codec (b ∷ body) s ≡ done m s
      → IsReadAs b body m
  read_as b body s m h e = elim (ℕ-cases 0 b) [
    | inr le ↦ absurd (not_done m s (sym (deserialize_bad b body s h (inl (omega arith))) ∙ e))
    | inl lo ↦ elim (ℕ-cases b num_msg) [
      | inr le ↦ absurd (not_done m s (sym (deserialize_bad b body s h (inr le)) ∙ e))
      | inl hi ↦
          let body_taken =
            taken_body b (codec.parse_from_array b body) s m
              (sym (deserialize_type codec b body s lo hi) ∙ e) in
          (lo, hi, body_taken.0, body_taken.1)
    ]
  ]

  -- A byte and what follows it are read as a message exactly when the byte is the number of a type from
  -- 1 to NUM_MSG - 1, the parser of that type takes what follows, and they make that message.
  pub deserialize_iff :
      (b : Byte) (body : List Byte) (s : List Turn) (m : AutoMessage Msg)
      → b < 256
      → (deserialize codec (b ∷ body) s ≡ done m s) ↔ IsReadAs b body m
  deserialize_iff b body s m h = (
    read_as b body s m h,
    λ r.
        deserialize_type codec b body s r.0 r.1
        ∙ rw (parse_body, r.2) (ap (λ t. done (record { type = t; msg = m.msg }) s) (sym r.3)),
  )
