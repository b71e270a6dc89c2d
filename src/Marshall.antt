-- ===== src/Marshall.antt =====
-- Marshall.cpp: messages on a socket, each after a header of two bytes with its size.
-- A byte is a number below 256. What the system does at each call of recv or send and what wakes a wait
-- is a list of `Turn`s; a loop whose turns are used up still waits. The serialisation of a message and
-- the authenticated encryption are the libraries', and stand in `Codec`.
pub mod Dispatch
pub mod Loops
pub mod Framing
pub mod Found
pub mod Messages
pub mod RoundTrip
use openbookfs.Prelude.{
  ℕ, zero, suc, ◌+◌, ◌-◌, ◌*◌, ◌/◌, ◌%◌, Bool, true, false, List, [], ◌∷◌, ◌++◌, Option, none, some,
}
use openbookfs.Prelude.{length, take, drop, ltb, if◌then◌else◌}
use openbookfs.Marshall.Dispatch.{parse_message_id, find_type, num_msg}

abbrev pub Byte : Type 0
Byte = ℕ

abbrev pub bufsize : ℕ
bufsize = 2048

pub data MarshallError : Type 0 where
  disconnected io_error signalled too_long bad_type bad_message not_authentic : MarshallError

-- One call of recv or send, with the wait that follows when it moves nothing: `moved k` lets at most
-- 1 + k bytes pass, `closed` returns 0, `would_block b` fails with EWOULDBLOCK and is woken by the
-- descriptor (true) or by another one (false), `failed` is any other errno.
pub data Turn : Type 0 where
  moved : ℕ → Turn
  closed : Turn
  would_block : Bool → Turn
  failed : Turn

-- What came of a step: a value with the turns that are left, an exception, or a thread that waits.
pub data Step (A : Type 0) : Type 0 where
  done : A → List Turn → Step A
  threw : MarshallError → Step A
  waiting : Step A

abbrev pub and_then : {A B : Type 0} → Step A → (A → List Turn → Step B) → Step B
and_then (done a s) f = f a s
and_then (threw e) f = threw e
and_then waiting f = waiting

-- How many of the `left` bytes that are wanted pass at a turn, of those that are there.
abbrev pub passes : ℕ → ℕ → ℕ → ℕ
passes k left there =
    if ltb k left
    then (if ltb k there then 1 + k else there)
    else (if ltb left there then left else there)

-- The loop of readSize and of readData: `got` is read, `left` bytes are missing, and `wire` holds the
-- bytes on their way to this socket. recv finds nothing while the wire is empty, and waits.
unfoldable pub recv_loop : List Turn → ℕ → List Byte → List Byte → Step (List Byte × List Byte)
recv_loop s zero got wire = done (got, wire) s
recv_loop [] (suc left) got wire = waiting
recv_loop (moved k ∷ s) (suc left) got wire =
    recv_loop s (suc left - passes k (suc left) (length wire))
      (got ++ take (passes k (suc left) (length wire)) wire)
      (drop (passes k (suc left) (length wire)) wire)
recv_loop (closed ∷ s) (suc left) got wire = threw disconnected
recv_loop (would_block true ∷ s) (suc left) got wire = recv_loop s (suc left) got wire
recv_loop (would_block false ∷ s) (suc left) got wire = threw signalled
recv_loop (failed ∷ s) (suc left) got wire = threw io_error

-- The loop of writeSize and of writeData: the bytes of `buf` that are not sent yet go to the end of the wire.
unfoldable pub send_loop : List Turn → List Byte → List Byte → Step (List Byte)
send_loop s [] wire = done wire s
send_loop [] (b ∷ buf) wire = waiting
send_loop (moved k ∷ s) (b ∷ buf) wire = send_loop s (drop k buf) (wire ++ (b ∷ take k buf))
send_loop (closed ∷ s) (b ∷ buf) wire = threw disconnected
send_loop (would_block true ∷ s) (b ∷ buf) wire = send_loop s (b ∷ buf) wire
send_loop (would_block false ∷ s) (b ∷ buf) wire = threw signalled
send_loop (failed ∷ s) (b ∷ buf) wire = threw io_error

-- The two bytes of a size: `size & 0xFF` and `size >> 8`, the second narrowed to a byte.
unfoldable pub size_header : ℕ → List Byte
size_header size = (size % 256) ∷ ((size / 256) % 256) ∷ []

-- `header[0] | header[1] << 8`; the two do not overlap.
unfoldable pub header_size : List Byte → ℕ
header_size (low ∷ high ∷ _) = low + high * 256
header_size _ = 0

abbrev pub check_size : ℕ → List Byte → List Turn → Step (ℕ × List Byte)
check_size size wire s = if ltb bufsize size then threw too_long else done (size, wire) s

-- readSize: the size that m_cipherR takes, and what is left on the wire.
unfoldable pub read_size : List Turn → List Byte → Step (ℕ × List Byte)
read_size s wire = and_then (recv_loop s 2 [] wire) (λ r. check_size (header_size r.0) r.1)

-- readData
unfoldable pub read_data : List Turn → ℕ → List Byte → Step (List Byte × List Byte)
read_data s size wire = recv_loop s size [] wire

-- writeSize and writeData
unfoldable pub write_size : List Turn → List Byte → List Byte → Step (List Byte)
write_size s cipher wire = send_loop s (size_header (length cipher)) wire

unfoldable pub write_data : List Turn → List Byte → List Byte → Step (List Byte)
write_data s cipher wire = send_loop s cipher wire

-- A message of the program: its type, and the protocol buffer.
pub record AutoMessage (Msg : Type 0) : Type 0 where
  pub type : ℕ
  pub msg : Msg

-- SerializeToArray and ParseFromArray of protocol buffers, and the GCM filters of CryptoPP under the
-- key and vector of initAES: both are set back to the vector after each message.
pub record Codec (Msg : Type 0) : Type 0 where
  pub serialize_to_array : Msg → List Byte
  pub parse_from_array : ℕ → List Byte → Option Msg
  pub encrypt_filter : List Byte → List Byte
  pub decrypt_filter : List Byte → Option (List Byte)

module _ {Msg : Type 0} (codec : Codec Msg) where
  abbrev pub parse_body : List Byte → List Turn → ℕ → Step (AutoMessage Msg)
  parse_body bytes s type = elim (codec.parse_from_array type (drop 1 bytes)) [
    | none ↦ threw bad_message
    | some m ↦ done (record { type = type; msg = m }) s
  ]

  -- deserialize: `data[0]` of an empty string is 0.
  unfoldable pub first_byte : List Byte → Byte
  first_byte [] = 0
  first_byte (b ∷ bytes) = b

  unfoldable pub deserialize : List Byte → List Turn → Step (AutoMessage Msg)
  deserialize bytes s = elim (parse_message_id (first_byte bytes)) [
    | none ↦ threw bad_type
    | some id ↦ elim (find_type num_msg 0 num_msg id) [
      | none ↦ threw bad_type
      | some type ↦ parse_body bytes s type
    ]
  ]

  -- serialize: the byte of the type before the message.
  unfoldable pub serialize : AutoMessage Msg → List Turn → Step (List Byte)
  serialize m s =
      if ltb bufsize (1 + length (codec.serialize_to_array m.msg))
      then threw too_long
      else done (m.type ∷ codec.serialize_to_array m.msg) s

  unfoldable pub encrypt : List Byte → List Turn → Step (List Byte)
  encrypt plain s =
      if ltb bufsize (length (codec.encrypt_filter plain))
      then threw too_long
      else done (codec.encrypt_filter plain) s

  unfoldable pub decrypt : List Byte → List Turn → Step (List Byte)
  decrypt cipher s = elim (codec.decrypt_filter cipher) [
    | none ↦ threw not_authentic
    | some plain ↦ done plain s
  ]

  abbrev pub send_message : List Byte → List Byte → List Turn → Step (List Byte)
  send_message wire cipher s = and_then (write_size s cipher wire) (λ w t. write_data t cipher w)

  -- write: the wire after the message was sent.
  unfoldable pub write : List Turn → AutoMessage Msg → Bool → List Byte → Step (List Byte)
  write s m true wire = and_then (serialize m s) (λ p t. and_then (encrypt p t) (send_message wire))
  write s m false wire = and_then (serialize m s) (send_message wire)

  unfoldable pub write_enc : List Turn → AutoMessage Msg → List Byte → Step (List Byte)
  write_enc s m wire = and_then (serialize m s) (λ p t. and_then (encrypt p t) (send_message wire))

  abbrev pub receive_message : List Turn → List Byte → Step (List Byte × List Byte)
  receive_message s wire = and_then (read_size s wire) (λ r t. read_data t r.0 r.1)

  -- with the bytes that stay on the wire
  abbrev pub keep_wire :
      List Byte → AutoMessage Msg → List Turn → Step (AutoMessage Msg × List Byte)
  keep_wire wire m s = done (m, wire) s

  -- read
  unfoldable pub read : List Turn → Bool → List Byte → Step (AutoMessage Msg × List Byte)
  read s true wire =
      and_then (receive_message s wire)
        (λ r t. and_then (decrypt r.0 t) (λ p u. and_then (deserialize p u) (keep_wire r.1)))
  read s false wire =
      and_then (receive_message s wire) (λ r t. and_then (deserialize r.0 t) (keep_wire r.1))

  unfoldable pub read_enc : List Turn → List Byte → Step (AutoMessage Msg × List Byte)
  read_enc s wire =
      and_then (receive_message s wire)
        (λ r t. and_then (decrypt r.0 t) (λ p u. and_then (deserialize p u) (keep_wire r.1)))
