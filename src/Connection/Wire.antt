-- ===== src/Connection/Wire.antt =====
-- What two peers send each other before the message queues run: the messages of the handshake, sealed or
-- not. A sealed packet stands for the bytes that GCM makes of a message under a key and a vector: who
-- reads it under the same two has the message, and under others, or without them, an exception.
use openbookfs.Prelude.{
  ℕ, ◌==◌, ◌&&◌, if◌then◌else◌, Bool, true, false, List, [], ◌∷◌, ◌++◌, Option, none, some, String,
}
use openbookfs.Marshall.{Byte}

pub data Message : Type 0 where
  msg_leader_elect : ℕ → Message
  msg_key_exchange : List Byte → List Byte → Message
  msg_cek : List Byte → List Byte → List Byte → Message
  msg_auth_req : String → String → Message
  msg_auth_challenge : List Byte → Message
  msg_auth_soln : List Byte → Message
  msg_auth_result : Bool → Message
  other_message : ℕ → Message

pub data Packet : Type 0 where
  plain : Message → Packet
  sealed : List Byte → List Byte → Message → Packet

-- The members of a connection that the handshake uses, with the packets that come in and go out.
pub record Peer : Type 0 where
  pub is_remote : Bool
  pub is_ui : Bool
  pub cek : List Byte
  pub iv : List Byte
  pub aes : Option (List Byte × List Byte)
  pub incoming : List Packet
  pub sent : List Packet

-- A step of the handshake returns, throws, or waits for a packet.
pub data Heard (A : Type 0) : Type 0 where
  heard : A → Peer → Heard A
  failed : Peer → Heard A
  waiting : Peer → Heard A

abbrev pub Talk : Type 0 → Type 0
Talk A = Peer → Heard A

abbrev pub pure : {A : Type 0} → A → Talk A
pure a p = heard a p

abbrev pub bind_heard : {A B : Type 0} → Heard A → (A → Talk B) → Heard B
bind_heard (heard a q) f = f a q
bind_heard (failed q) f = failed q
bind_heard (waiting q) f = waiting q

infixl 5 ◌>>=◌ ◌>>◌
abbrev pub ◌>>=◌ : {A B : Type 0} → Talk A → (A → Talk B) → Talk B
◌>>=◌ m f p = bind_heard (m p) f

abbrev pub ◌>>◌ : {B : Type 0} → Talk (Unit {0}) → Talk B → Talk B
m >> k = m >>= λ _. k

abbrev pub throw : {A : Type 0} → Talk A
throw p = failed p

abbrev pub throw_if : Bool → Talk (Unit {0})
throw_if true p = failed p
throw_if false p = heard tt p

abbrev pub update : (Peer → Peer) → Talk (Unit {0})
update f p = heard tt (f p)

abbrev pub gets : {A : Type 0} → (Peer → A) → Talk A
gets f p = heard (f p) p

unfoldable pub same_bytes : List Byte → List Byte → Bool
same_bytes [] [] = true
same_bytes [] (y ∷ ys) = false
same_bytes (x ∷ xs) [] = false
same_bytes (x ∷ xs) (y ∷ ys) = x == y && same_bytes xs ys

-- Marshall::writeMsg, unsealed or under the key of initAES
unfoldable pub write_msg : Message → Bool → Talk (Unit {0})
write_msg m false p = heard tt (record p { sent = p.sent ++ plain m ∷ [] })
write_msg m true p = elim p.aes [
  | none ↦ failed p
  | some key ↦ heard tt (record p { sent = p.sent ++ sealed key.0 key.1 m ∷ [] })
]

abbrev pub open_under : Option (List Byte × List Byte) → List Byte → List Byte → Bool
open_under none key iv = false
open_under (some mine) key iv = same_bytes mine.0 key && same_bytes mine.1 iv

abbrev pub read_packet : Bool → List Packet → Talk Message
read_packet encrypted [] p = waiting p
read_packet false (plain m ∷ ps) p = heard m (record p { incoming = ps })
read_packet true (plain m ∷ ps) p = failed p
read_packet false (sealed key iv m ∷ ps) p = failed p
read_packet true (sealed key iv m ∷ ps) p =
    if open_under p.aes key iv then heard m (record p { incoming = ps }) else failed p

-- Marshall::read
unfoldable pub read : Bool → Talk Message
read encrypted p = read_packet encrypted p.incoming p
