-- ===== src/Marshall/Framing.antt =====
-- Marshall.cpp: a message that was written is read again, however the bytes were split on the way.
use openbookfs.Prelude.{ℕ, ◌+◌, ◌≤◌, ◌<◌, ◌≡◌, refl, sym, ap, ◌∙◌, subst}
use openbookfs.Prelude.{List, [], ◌++◌, length, take, drop, arith}
use openbookfs.Prelude.{take-append, drop-append, append_assoc, length-append, ge→ltb}
use openbookfs.Marshall.{Byte, Turn, done, Codec, bufsize}
use openbookfs.Marshall.{
  read_size, read_data, write_size, write_data, size_header, header_size, check_size,
}
use openbookfs.Marshall.{receive_message, send_message, recv_loop}
use openbookfs.Marshall.Loops.{
  Calm, moves, Ensures-and_then, Ends-and_then, Yields, Ends, recv_loop-Yields, recv_loop-Ends,
  send_loop-Yields, send_loop-Ends,
}

-- The two bytes give the size back, as long as it fits in them.
pub header_size-size_header : (size : ℕ) → size < 65536 → header_size (size_header size) ≡ size
unfolding header_size size_header
header_size-size_header size h = omega arith

take_header : (size : ℕ) (rest : List Byte) → take 2 (size_header size ++ rest) ≡ size_header size
unfolding size_header
take_header size rest = refl

drop_header : (size : ℕ) (rest : List Byte) → drop 2 (size_header size ++ rest) ≡ rest
unfolding size_header
drop_header size rest = refl

-- What a message looks like on the wire.
abbrev pub frame : List Byte → List Byte
frame cipher = size_header (length cipher) ++ cipher

length-size_header : (size : ℕ) → length (size_header size) ≡ 2
unfolding size_header
length-size_header size = refl

pub send_message-Yields :
    {Msg : Type 0} (codec : Codec Msg) (wire cipher : List Byte) (s : List Turn)
    → Yields (wire ++ frame cipher) (send_message codec wire cipher s)
unfolding write_size write_data
send_message-Yields codec wire cipher s =
    Ensures-and_then (λ v. wire ++ frame cipher ≡ v) (write_size s cipher wire)
      (λ w t. write_data t cipher w) (send_loop-Yields s (size_header (length cipher)) wire)
      (λ w t e.
        subst (λ v. Yields v (write_data t cipher w))
          (ap (λ l. l ++ cipher) (sym e) ∙ append_assoc wire (size_header (length cipher)) cipher)
          (send_loop-Yields t cipher w))

pub send_message-Ends :
    {Msg : Type 0} (codec : Codec Msg) (wire cipher : List Byte) (s : List Turn)
    → Calm s
    → 2 + length cipher ≤ moves s
    → Ends (wire ++ frame cipher) (2 + length cipher) s (send_message codec wire cipher s)
unfolding write_size write_data size_header
send_message-Ends codec wire cipher s c m =
    subst (λ v. Ends v (2 + length cipher) s (send_message codec wire cipher s))
      (append_assoc wire (size_header (length cipher)) cipher)
      (Ends-and_then 2 (length cipher) s (write_size s cipher wire) (λ w t. write_data t cipher w)
        (send_loop-Ends s (size_header (length cipher)) wire c (omega arith))
        (λ t d n. send_loop-Ends t cipher (wire ++ size_header (length cipher)) d (omega arith)))

take-frame : (cipher rest : List Byte) → take 2 (frame cipher ++ rest) ≡ size_header (length cipher)
take-frame cipher rest =
    ap (λ l. take 2 l) (append_assoc (size_header (length cipher)) cipher rest)
    ∙ take_header (length cipher) (cipher ++ rest)

drop-frame : (cipher rest : List Byte) → drop 2 (frame cipher ++ rest) ≡ cipher ++ rest
drop-frame cipher rest =
    ap (λ l. drop 2 l) (append_assoc (size_header (length cipher)) cipher rest)
    ∙ drop_header (length cipher) (cipher ++ rest)

length-frame : (cipher rest : List Byte) → 2 ≤ length (frame cipher ++ rest)
unfolding size_header
length-frame cipher rest = omega arith

check_size_lem :
    (size n : ℕ) (wire : List Byte) (s : List Turn)
    → size ≡ n
    → n ≤ bufsize
    → check_size size wire s ≡ done (n, wire) s
check_size_lem size n wire s e h = rw (e, ge→ltb bufsize n h) refl

sized :
    (cipher : List Byte)
    → length cipher ≤ bufsize
    → header_size (size_header (length cipher)) ≡ length cipher
sized cipher h = header_size-size_header (length cipher) (omega arith)

header_read :
    (cipher rest : List Byte) (s : List Turn)
    → length cipher ≤ bufsize
    → check_size (header_size (take 2 (frame cipher ++ rest))) (drop 2 (frame cipher ++ rest)) s
      ≡ done (length cipher, cipher ++ rest) s
header_read cipher rest s h =
    rw (take-frame cipher rest, drop-frame cipher rest)
      (check_size_lem (header_size (size_header (length cipher))) (length cipher) (cipher ++ rest) s
        (sized cipher h) h)

read_size-Yields :
    (cipher rest : List Byte) (s : List Turn)
    → length cipher ≤ bufsize
    → Yields (length cipher, cipher ++ rest) (read_size s (frame cipher ++ rest))
unfolding read_size
read_size-Yields cipher rest s h =
    Ensures-and_then (λ r. (length cipher, cipher ++ rest) ≡ r)
      (recv_loop s 2 [] (frame cipher ++ rest)) (λ r. check_size (header_size r.0) r.1)
      (recv_loop-Yields s 2 [] (frame cipher ++ rest))
      (λ r t e.
        subst (λ q. Yields (length cipher, cipher ++ rest) (check_size (header_size q.0) q.1 t)) e
          (subst (λ q. Yields (length cipher, cipher ++ rest) q) (sym (header_read cipher rest t h))
            refl))

read_size-Ends :
    (cipher rest : List Byte) (s : List Turn)
    → Calm s
    → length cipher ≤ bufsize
    → 2 ≤ moves s
    → Ends (length cipher, cipher ++ rest) 2 s (read_size s (frame cipher ++ rest))
unfolding read_size
read_size-Ends cipher rest s c h m =
    Ends-and_then 2 0 s (recv_loop s 2 [] (frame cipher ++ rest))
      (λ r. check_size (header_size r.0) r.1)
      (recv_loop-Ends s 2 [] (frame cipher ++ rest) c m (length-frame cipher rest))
      (λ t d n. (t, header_read cipher rest t h, d, omega arith))

split :
    (cipher rest : List Byte)
    → ◌≡◌ {A = List Byte × List Byte}
        (take (length cipher) (cipher ++ rest), drop (length cipher) (cipher ++ rest))
        (cipher, rest)
split cipher rest = λ i.
    (take-append (length cipher) cipher rest refl i, drop-append (length cipher) cipher rest refl i)

pub receive_message-Yields :
    {Msg : Type 0} (codec : Codec Msg) (cipher rest : List Byte) (s : List Turn)
    → length cipher ≤ bufsize
    → Yields (cipher, rest) (receive_message codec s (frame cipher ++ rest))
unfolding read_data
receive_message-Yields codec cipher rest s h =
    Ensures-and_then (λ r. (cipher, rest) ≡ r) (read_size s (frame cipher ++ rest))
      (λ r t. read_data t r.0 r.1) (read_size-Yields cipher rest s h)
      (λ r t e.
        subst (λ q. Yields (cipher, rest) (read_data t q.0 q.1)) e
          (subst (λ q. Yields q (read_data t (length cipher) (cipher ++ rest))) (split cipher rest)
            (recv_loop-Yields t (length cipher) [] (cipher ++ rest))))

pub receive_message-Ends :
    {Msg : Type 0} (codec : Codec Msg) (cipher rest : List Byte) (s : List Turn)
    → Calm s
    → length cipher ≤ bufsize
    → 2 + length cipher ≤ moves s
    → Ends (cipher, rest) (2 + length cipher) s (receive_message codec s (frame cipher ++ rest))
unfolding read_data
receive_message-Ends codec cipher rest s c h m =
    Ends-and_then 2 (length cipher) s (read_size s (frame cipher ++ rest))
      (λ r t. read_data t r.0 r.1) (read_size-Ends cipher rest s c h (omega arith))
      (λ t d n.
        subst (λ q. Ends q (length cipher) t (read_data t (length cipher) (cipher ++ rest)))
          (split cipher rest)
          (recv_loop-Ends t (length cipher) [] (cipher ++ rest) d (omega arith)
            (omega (arith, length-append cipher rest))))
