-- ===== src/Ipc/RoundTrip.antt =====
-- pkg/ipc/protocol.go: what `ReadMessage` makes of the bytes that `WriteMessage` sends.
use matrix_discord_voice_bri.Base.{
  ℕ, zero, suc, ◌%◌, ◌^◌, ◌<◌, ◌≤◌, ◌≡◌, refl, ◌∙◌, none, some, ◌++◌, arith, le→leb, length, take,
  drop, length-append, take-append, drop-append, take-all, drop-all, append_assoc,
}
use matrix_discord_voice_bri.Base.Eq.{Bytes}
use matrix_discord_voice_bri.Ipc.LittleEndian.{le_bytes, length-le_bytes, le_value-le_bytes}
use matrix_discord_voice_bri.Ipc.Frame.{
  Message, IsMessage, max_payload, header, frame, received, read_full, read_message, read_from,
  read_body, payload_len, with_payload,
}

pub read_full-append :
    (n : ℕ) (xs ys : Bytes) → length xs ≡ n → read_full n (xs ++ ys) ≡ some (xs, ys)
unfolding read_full
read_full-append n xs ys h = rw (
  le→leb n (length (xs ++ ys)) (omega (arith, length-append xs ys)),
  take-append n xs ys (omega arith),
  drop-append n xs ys (omega arith),
  take-all n xs h,
  drop-all n xs h,
)

pub read_full_short : (n : ℕ) (s : Bytes) → length s < n → read_full n s ≡ none
unfolding read_full
read_full_short n s h = ground arith

pub length-header : (m : Message) → length (header m) ≡ 11
unfolding header
length-header m = omega (
  arith,
  length-append (le_bytes 8 m.user_id) (le_bytes 2 (length m.payload % 2 ^ 16)),
  length-le_bytes 8 m.user_id,
  length-le_bytes 2 (length m.payload % 2 ^ 16),
)

abbrev pub wire_len : Message → ℕ
wire_len m = length m.payload % 2 ^ 16

pub payload_len-header : (m : Message) → payload_len (header m) ≡ wire_len m
unfolding header
payload_len-header m =
    rw
      (
        drop-append 8 (le_bytes 8 m.user_id) (le_bytes 2 (wire_len m))
            (omega (arith, length-le_bytes 8 m.user_id)),
        drop-all 8 (le_bytes 8 m.user_id) (length-le_bytes 8 m.user_id),
        take-all 2 (le_bytes 2 (wire_len m)) (length-le_bytes 2 (wire_len m)),
      )
      (le_value-le_bytes 2 (wire_len m) (omega arith))

with_payload-header :
    (m : Message) (p : Bytes) → IsMessage m → with_payload (header m) p ≡ record m { payload = p }
unfolding header
with_payload-header m p h = rw (
  take-append 8 (le_bytes 8 m.user_id) (le_bytes 2 (wire_len m))
      (omega (arith, length-le_bytes 8 m.user_id)),
  take-all 8 (le_bytes 8 m.user_id) (length-le_bytes 8 m.user_id),
  le_value-le_bytes 8 m.user_id h.user_id_u64,
)

read_body-take :
    (n : ℕ) (h s : Bytes)
    → n ≤ length s
    → read_body n h s ≡ received (with_payload h (take n s)) (drop n s)
unfolding read_body read_full
read_body-take zero h s fits = refl
read_body-take (suc n) h s fits = ground (arith, le→leb (suc n) (length s) fits)

-- What any frame is read as: the payload is cut to its length modulo 2^16, and what was cut off
-- stays in the stream, in front of the next frame.
pub read_message-frame :
    (m : Message) (rest : Bytes)
    → IsMessage m
    → read_message (frame m ++ rest)
      ≡ received
          (record m { payload = take (length m.payload % 2 ^ 16) m.payload })
          (drop (length m.payload % 2 ^ 16) m.payload ++ rest)
unfolding read_message read_from frame
read_message-frame m rest h = rw (
  append_assoc (header m) m.payload rest,
  read_full-append 11 (header m) (m.payload ++ rest) (length-header m),
  payload_len-header m,
  read_body-take (wire_len m) (header m) (m.payload ++ rest)
      (omega (arith, length-append m.payload rest)),
  with_payload-header m (take (wire_len m) (m.payload ++ rest)) h,
  take-append (wire_len m) m.payload rest (omega arith),
  drop-append (wire_len m) m.payload rest (omega arith),
)

-- A message with a one-byte type, a 64-bit user and at most 65535 payload bytes is read back as it
-- was written, and the stream goes on where the frame ends.
pub frame_round_trip :
    (m : Message) (rest : Bytes)
    → IsMessage m
    → length m.payload ≤ max_payload
    → read_message (frame m ++ rest) ≡ received m rest
frame_round_trip m rest h small =
    let whole : length m.payload ≡ wire_len m = omega arith in
    read_message-frame m rest h
    ∙ rw (take-all (wire_len m) m.payload whole, drop-all (wire_len m) m.payload whole)
