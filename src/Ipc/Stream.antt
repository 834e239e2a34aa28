-- ===== src/Ipc/Stream.antt =====
-- pkg/ipc/protocol.go over a whole connection: what a sequence of `WriteMessage` calls leaves in the
-- stream, and what the read loop of cmd/bridge/main.go gets from it.
use matrix_discord_voice_bri.Base.{
  ℕ, zero, suc, ◌+◌, ◌%◌, ◌^◌, drop, length-drop, le→leb, ◌-◌, ◌<◌, ◌≤◌, ◌≡◌, refl, ap, ◌∙◌, [],
  ◌∷◌, ◌++◌, arith, if◌then◌else◌, ltb, leb, ltb→lt, length, take, length-append, length-take,
  take-append, append_assoc, append-nil, Bool-cases, inl, inr,
}
use matrix_discord_voice_bri.Base.Eq.{Bytes}
use matrix_discord_voice_bri.Ipc.Frame.{
  Message, IsMessage, received, max_payload, header, frame, Socket, conn_write, written,
  header_failed, payload_failed, write_payload, write_message, read_header, read_payload, failed,
  read_message, read_from, read_body,
}
use matrix_discord_voice_bri.Ipc.RoundTrip.{
  read_full-append, read_full_short, length-header, payload_len-header, wire_len,
  read_message-frame,
}

take_past :
    (n : ℕ) (xs ys : Bytes) → length xs ≤ n → take n (xs ++ ys) ≡ xs ++ take (n - length xs) ys
take_past n [] ys h = ap (λ k. take k ys) (omega arith)
take_past zero (x ∷ xs) ys h = elim h [ ]
take_past (suc n) (x ∷ xs) ys h =
    ap (◌∷◌ x) (take_past n xs ys (omega arith) ∙ ap (λ k. xs ++ take k ys) (omega arith))

take_all_le : (n : ℕ) (xs : Bytes) → length xs ≤ n → take n xs ≡ xs
take_all_le zero [] h = refl
take_all_le zero (x ∷ xs) h = elim h [ ]
take_all_le (suc n) [] h = refl
take_all_le (suc n) (x ∷ xs) h = ap (◌∷◌ x) (take_all_le n xs (omega arith))

length_zero : (xs : Bytes) → length xs ≡ 0 → xs ≡ []
length_zero [] h = refl
length_zero (x ∷ xs) h = absurd (omega arith)

conn_write-sent : (bs : Bytes) (s : Socket) → (conn_write bs s).0.sent ≡ s.sent ++ take s.room bs
unfolding conn_write
conn_write-sent bs s = elim (Bool-cases (leb (length bs) s.room)) [
  | inl fits ↦ ground (arith, take_all_le s.room bs)
  | inr over ↦ ground arith
]

length-frame : (m : Message) → length (frame m) ≡ 11 + length m.payload
unfolding frame
length-frame m = omega (arith, length-append (header m) m.payload, length-header m)

-- Whatever the connection takes, `WriteMessage` puts the frame's bytes on the wire in order and
-- stops where the connection stops taking them; it reports success exactly when all went out, and
-- a failure names the part that was being written.
pub write_message_sends :
    (m : Message) (s : Socket)
    → ((write_message m s).0.sent ≡ s.sent ++ take s.room (frame m))
      × ((write_message m s).1 ≡ (
          if leb (length (frame m)) s.room
          then written
          else if leb 11 s.room
          then payload_failed
          else header_failed))
unfolding write_message write_payload conn_write frame
write_message_sends m s = ground (
  arith,
  length-header m,
  length-append (header m) m.payload,
  take_past s.room (header m) m.payload,
  take-append s.room (header m) m.payload,
  take_all_le s.room (header m ++ m.payload),
  append_assoc s.sent (header m) (take (s.room - length (header m)) m.payload),
  append_assoc s.sent (header m) m.payload,
  take_all_le (s.room - length (header m)) m.payload,
  length_zero m.payload,
  append-nil (header m),
)

-- `WriteMessage` accepts a message with a one-byte type, a 64-bit user and more than 65535 payload
-- bytes: where the connection takes it all, it reports success. The reader of these bytes gets the
-- message with its payload cut to its length modulo 2^16, and takes the rest, of at least 65536 bytes,
-- for the frames that follow.
pub oversized_message_splits :
    (m : Message) (s : Socket) (rest : Bytes)
    → IsMessage m
    → max_payload < length m.payload
    → length (frame m) ≤ s.room
    → s.sent ≡ []
    → ((write_message m s).1 ≡ written)
      × (read_message ((write_message m s).0.sent ++ rest)
          ≡ received
              (record m { payload = take (length m.payload % 2 ^ 16) m.payload })
              (drop (length m.payload % 2 ^ 16) m.payload ++ rest))
      × (65536 ≤ length (drop (length m.payload % 2 ^ 16) m.payload))
oversized_message_splits m s rest h big fits fresh =
    let (sent, said) = write_message_sends m s in
    let whole : (write_message m s).0.sent ≡ frame m =
      sent ∙ rw (fresh, take_all_le s.room (frame m) fits) refl in
    (
      said ∙ rw (le→leb (length (frame m)) s.room fits) refl,
      rw whole (read_message-frame m rest h),
      omega (arith, big, length-drop (length m.payload % 2 ^ 16) m.payload),
    )

read_body_short : (n : ℕ) (h s : Bytes) → length s < n → read_body n h s ≡ failed read_payload
unfolding read_body
read_body_short n h s short = ground (arith, read_full_short n s)

-- The frame of a message with a legal payload, cut short at any point, is refused: as a failed read
-- of the header when less than the header is there, and of the payload otherwise.
pub torn_frame_rejected :
    (m : Message) (k : ℕ)
    → length m.payload ≤ max_payload
    → k < length (frame m)
    → read_message (take k (frame m)) ≡ failed (if ltb k 11 then read_header else read_payload)
unfolding read_message read_from frame
torn_frame_rejected m k small h = elim (Bool-cases (ltb k 11)) [
  | inl in_header ↦ rw (
    in_header,
    read_full_short 11 (take k (header m ++ m.payload)) (short (ltb→lt k 11 in_header)),
  )
  | inr in_payload ↦
      let past : 11 ≤ k = ground arith in
      rw
        (
          in_payload,
          take_past k (header m) m.payload (omega (arith, length-header m)),
          length-header m,
          read_full-append 11 (header m) (take (k - 11) m.payload) (length-header m),
          payload_len-header m,
        )
        (read_body_short (wire_len m) (header m) (take (k - 11) m.payload) (cut past))
]
  where
    whole : length (header m ++ m.payload) ≡ 11 + length m.payload
    whole = omega (arith, length-append (header m) m.payload, length-header m)

    short : k < 11 → length (take k (header m ++ m.payload)) < 11
    short lt = omega (arith, length-take k (header m ++ m.payload) (omega (arith, whole)))

    cut : 11 ≤ k → length (take (k - 11) m.payload) < wire_len m
    cut past = omega (arith, length-take (k - 11) m.payload (omega (arith, whole)), whole)
