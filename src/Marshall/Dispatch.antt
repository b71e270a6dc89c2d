-- ===== src/Marshall/Dispatch.antt =====
-- messages.cpp and the templates MessageParser and MessageDestroyer of Marshall.cpp: from the byte of a
-- message to its type.
use openbookfs.Prelude.{ℕ, zero, suc, ◌+◌, ◌-◌, ◌/◌, ℤ, pos, negsuc, Option, none, some}
use openbookfs.Prelude.{ltb, ltb_ℤ, ◌&&◌, if◌then◌else◌}

-- NUM_MSG of msg_gen/MessageId.h
abbrev pub num_msg : ℕ
num_msg = 37

-- `char` is signed: bytes from 128 on are negative.
unfoldable pub char_of : ℕ → ℤ
char_of byte = if ltb byte 128 then pos byte else negsuc (255 - byte)

-- parseMessageId: nothing when it throws.
unfoldable pub parse_message_id : ℕ → Option ℕ
parse_message_id byte =
    if ltb_ℤ (pos 0) (char_of byte) && ltb_ℤ (char_of byte) (pos num_msg) then some byte else none

-- The binary search of the templates <NA, NC>: the NB whose branch is taken. The templates are
-- instances of each other, so a search outside its bounds would not end; nothing stands for that.
unfoldable pub find_type : ℕ → ℕ → ℕ → ℕ → Option ℕ
find_type zero na nc type = none
find_type (suc fuel) na nc type =
    let nb = (na + nc) / 2 in
    let lower = find_type fuel na nb type in
    let upper = find_type fuel nb nc type in
    if ltb type nb then lower else if ltb nb type then upper else some nb
