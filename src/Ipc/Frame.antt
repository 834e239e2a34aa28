-- ===== src/Ipc/Frame.antt =====
-- pkg/ipc/protocol.go: messages, `WriteMessage` on a socket and `ReadMessage` from a byte stream.
use matrix_discord_voice_bri.Base.{
  ℕ, zero, suc, ◌-◌, ◌%◌, ◌^◌, ◌<◌, Bool, true, false, Option, none, some, [], ◌∷◌, ◌++◌,
  if◌then◌else◌, ltb, leb, length, take, drop, All,
}
use matrix_discord_voice_bri.Base.Eq.{Bytes}
use matrix_discord_voice_bri.Ipc.LittleEndian.{le_bytes, le_value, IsByte}

abbrev pub msg_audio_from_discord : ℕ
msg_audio_from_discord = 0x01

abbrev pub msg_audio_to_discord : ℕ
msg_audio_to_discord = 0x02

abbrev pub msg_user_join : ℕ
msg_user_join = 0x03

abbrev pub msg_user_leave : ℕ
msg_user_leave = 0x04

abbrev pub msg_ready : ℕ
msg_ready = 0x05

abbrev pub msg_shutdown : ℕ
msg_shutdown = 0x06

abbrev pub msg_join_channel : ℕ
msg_join_channel = 0x07

abbrev pub msg_leave_channel : ℕ
msg_leave_channel = 0x08

abbrev pub msg_voice_state : ℕ
msg_voice_state = 0x09

abbrev pub msg_channel_list : ℕ
msg_channel_list = 0x0A

abbrev pub msg_user_info : ℕ
msg_user_info = 0x0B

abbrev pub msg_matrix_users : ℕ
msg_matrix_users = 0x0C

pub record Message : Type 0 where
  pub msg_type : ℕ  -- byte
  pub user_id : ℕ  -- uint64
  pub payload : Bytes

-- The fields fit their Go types; the payload may have any length.
pub record IsMessage (m : Message) : Type 0 where
  pub msg_type_byte : m.msg_type < 256
  pub user_id_u64 : m.user_id < 256 ^ 8
  pub payload_bytes : All IsByte m.payload

abbrev pub max_payload : ℕ
max_payload = 65535

-- The 11 bytes of the header; `uint16(len(msg.Payload))` wraps.
unfoldable pub header : Message → Bytes
header m = m.msg_type ∷ (le_bytes 8 m.user_id ++ le_bytes 2 (length m.payload % 2 ^ 16))

unfoldable pub frame : Message → Bytes
frame m = header m ++ m.payload

-- A connection as its writer sees it: the bytes that went out, and how many more go out before a
-- write fails (a closed peer, or the write deadline).
pub record Socket : Type 0 where
  pub sent : Bytes
  pub room : ℕ

-- `net.Conn.Write`: all of the bytes, or as many as go out and an error.
unfoldable pub conn_write : Bytes → Socket → Socket × Bool
conn_write bs s =
    if leb (length bs) s.room
    then (record { sent = s.sent ++ bs; room = s.room - length bs }, true)
    else (record { sent = s.sent ++ take s.room bs; room = 0 }, false)

pub data WriteResult : Type 0 where
  written header_failed payload_failed : WriteResult

unfoldable pub write_payload : Message → Socket × Bool → Socket × WriteResult
write_payload m (s, false) = (s, header_failed)
write_payload m (s, true) =
    if ltb 0 (length m.payload)
    then (let (t, sent_all) = conn_write m.payload s in
        (t, if sent_all then written else payload_failed))
    else (s, written)

unfoldable pub write_message : Message → Socket → Socket × WriteResult
write_message m s = write_payload m (conn_write (header m) s)

pub data ReadError : Type 0 where
  read_header read_payload : ReadError

pub data ReadResult : Type 0 where
  received : Message → Bytes → ReadResult
  failed : ReadError → ReadResult

-- `io.ReadFull` from the bytes that still arrive: `none` is EOF or the read deadline.
unfoldable pub read_full : ℕ → Bytes → Option (Bytes × Bytes)
read_full n s = if leb n (length s) then some (take n s, drop n s) else none

abbrev pub byte_at : Bytes → ℕ → ℕ
byte_at [] i = 0
byte_at (b ∷ bs) zero = b
byte_at (b ∷ bs) (suc i) = byte_at bs i

abbrev pub payload_len : Bytes → ℕ
payload_len h = le_value (take 2 (drop 9 h))

abbrev pub with_payload : Bytes → Bytes → Message
with_payload h p = record {
  msg_type = byte_at h 0;
  user_id = le_value (take 8 (drop 1 h));
  payload = p;
}

unfoldable pub read_body : ℕ → Bytes → Bytes → ReadResult
read_body n h s =
    if ltb 0 n
    then (elim (read_full n s) [
      | none ↦ failed read_payload
      | some (p, rest) ↦ received (with_payload h p) rest
    ])
    else received (with_payload h []) s

unfoldable pub read_from : Option (Bytes × Bytes) → ReadResult
read_from none = failed read_header
read_from (some (h, rest)) = read_body (payload_len h) h rest

unfoldable pub read_message : Bytes → ReadResult
read_message s = read_from (read_full 11 s)
