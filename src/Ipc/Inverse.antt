-- ===== src/Ipc/Inverse.antt =====
-- pkg/ipc/protocol.go: `ReadMessage` accepts nothing but frames, and always consumes one.
use matrix_discord_voice_bri.Base.{
  ℕ, zero, suc, ◌+◌, ◌%◌, ◌^◌, ◌<◌, ◌≤◌, ◌≡◌, ap, [], ◌∷◌, ◌++◌, arith, leb, leb→le, length, take,
  drop, All, length-take, length-drop, take-append-drop, subst, take-all, append_assoc, Bool-cases,
  inl, inr, All-take, All-drop,
}
use matrix_discord_voice_bri.Base.Eq.{Bytes}
use matrix_discord_voice_bri.Ipc.LittleEndian.{
  IsByte, le_bytes, le_value, le_bytes-le_value, le_value-lt,
}
use matrix_discord_voice_bri.Ipc.Frame.{
  Message, header, frame, received, read_full, read_message, read_from, read_body, max_payload,
  payload_len, with_payload,
}

header-with_payload :
    (h p : Bytes)
    → length h ≡ 11
    → All IsByte h
    → length p ≡ payload_len h
    → header (with_payload h p) ≡ h
unfolding header
header-with_payload [] p l bytes e = absurd (omega arith)
header-with_payload (b ∷ t) p l bytes e =
    let user = All-take IsByte 8 t bytes.1 in
    let high = All-drop IsByte 8 t bytes.1 in
    let user_len : length (take 8 t) ≡ 8 = length-take 8 t (omega arith) in
    let high_len : length (drop 8 t) ≡ 2 = omega (arith, length-drop 8 t) in
    let two : take 2 (drop 8 t) ≡ drop 8 t = take-all 2 (drop 8 t) high_len in
    let small : le_value (drop 8 t) < 2 ^ 16 =
      subst (λ k. le_value (drop 8 t) < 256 ^ k) high_len (le_value-lt (drop 8 t) high) in
    let len : length p % 2 ^ 16 ≡ le_value (drop 8 t) = omega (arith, e, ap le_value two, small) in
    let first : le_bytes 8 (le_value (take 8 t)) ≡ take 8 t =
      subst (λ k. le_bytes k (le_value (take 8 t)) ≡ take 8 t) user_len
        (le_bytes-le_value (take 8 t) user) in
    let second : le_bytes 2 (le_value (drop 8 t)) ≡ drop 8 t =
      subst (λ k. le_bytes k (le_value (drop 8 t)) ≡ drop 8 t) high_len
        (le_bytes-le_value (drop 8 t) high) in
    rw (len, first, second, take-append-drop 8 t)

read_body-received :
    (n : ℕ) (h s : Bytes) {m : Message} {rest : Bytes}
    → read_body n h s ≡ received m rest
    → (m ≡ with_payload h (take n s)) × (rest ≡ drop n s) × (n ≤ length s)
unfolding read_body read_full
read_body-received zero h s e = (ground arith, ground arith, omega arith)
read_body-received (suc n) h s e = (ground arith, ground arith, ground arith)

read_message-received :
    (s : Bytes) {m : Message} {rest : Bytes}
    → read_message s ≡ received m rest
    → (11 ≤ length s)
      × (read_body (payload_len (take 11 s)) (take 11 s) (drop 11 s) ≡ received m rest)
unfolding read_message read_from read_full
read_message-received s e = elim (Bool-cases (leb 11 (length s))) [
  | inl enough ↦ (leb→le 11 (length s) enough, ground arith)
  | inr short ↦ absurd (ground arith)
]

-- Each message takes at least its header out of the stream.
pub received-shorter :
    (s : Bytes) {m : Message} {rest : Bytes}
    → read_message s ≡ received m rest
    → length rest + 11 ≤ length s
received-shorter s {m} {rest} e =
    let (long, body) = read_message-received s e in
    let (_, left, fits) =
      read_body-received (payload_len (take 11 s)) (take 11 s) (drop 11 s) body in
    omega
      (arith, ap length left, length-drop (payload_len (take 11 s)) (drop 11 s), length-drop 11 s)

-- Whatever `ReadMessage` accepts from a stream of bytes is the frame of the message that it
-- returns, followed by what it leaves in the stream.
pub received-frame :
    (s : Bytes) (m : Message) (rest : Bytes)
    → All IsByte s
    → read_message s ≡ received m rest
    → s ≡ frame m ++ rest
unfolding frame
received-frame s m rest bytes e =
    let (long, body) = read_message-received s e in
    let h = take 11 s in
    let t = drop 11 s in
    let n = payload_len h in
    let (got, left, fits) = read_body-received n h t body in
    let same =
      header-with_payload h (take n t) (length-take 11 s long) (All-take IsByte 11 s bytes)
        (length-take n t fits) in
    rw (
      got,
      left,
      same,
      append_assoc h (take n t) (drop n t),
      take-append-drop n t,
      take-append-drop 11 s,
    )

-- Its payload fits the 16-bit length.
pub received-payload :
    (s : Bytes) (m : Message) (rest : Bytes)
    → All IsByte s
    → read_message s ≡ received m rest
    → length m.payload ≤ max_payload
received-payload s m rest bytes e =
    let (long, body) = read_message-received s e in
    let h = take 11 s in
    let (got, left, fits) = read_body-received (payload_len h) h (drop 11 s) body in
    let field = take 2 (drop 9 h) in
    let field_bytes =
      All-take IsByte 2 (drop 9 h) (All-drop IsByte 9 h (All-take IsByte 11 s bytes)) in
    let two : length field ≡ 2 =
      length-take 2 (drop 9 h) (omega (arith, length-drop 9 h, length-take 11 s long)) in
    let small : le_value field < 2 ^ 16 =
      subst (λ k. le_value field < 256 ^ k) two (le_value-lt field field_bytes) in
    omega (
      arith,
      ap (λ (k : Message). length k.payload) got,
      length-take (payload_len h) (drop 11 s) fits,
      small,
    )
