-- ===== src/Payload/VoiceState.antt =====
-- VOICE_STATE and CHANNEL_LIST: `voiceStatePayload` of sidecar/index.mjs writes them, and
-- `HandleMessage` of pkg/bridge/manager.go reads them.
use mathlib.Core.Option
use matrix_discord_voice_bri.Base.{
  ℕ, ◌+◌, ◌-◌, ◌%◌, ◌^◌, ◌<◌, ◌≤◌, ◌≡◌, ◌≢◌, refl, ap, ◌∙◌, Option, none, some, [], ◌++◌, arith,
  if◌then◌else◌, leb, le→leb, leb→le, Bool-cases, inl, inr, length, take, drop, length-append,
  append_assoc, take-all, drop-all, drop-append,
}
use matrix_discord_voice_bri.Base.Eq.{Bytes}
use matrix_discord_voice_bri.Ipc.LittleEndian.{le_bytes, length-le_bytes, le_value-le_bytes}
use matrix_discord_voice_bri.Ipc.Frame.{max_payload}
use matrix_discord_voice_bri.Payload.Slice.{slice, slice_ok, uint_at, uint_at-le_bytes}

pub record ChannelInfo : Type 0 where
  pub name : Bytes
  pub category_id : ℕ

-- The zero value of Go's `channelInfo`.
abbrev pub no_info : ChannelInfo
no_info = record { name = []; category_id = 0 }

abbrev name_len : Bytes → ℕ
name_len p = uint_at 2 16 p

-- `string(msg.Payload[18 : 18+nameLen])` under its guard; the bound is a uint16, so it wraps.
unfoldable pub parse_name : Bytes → Option Bytes
parse_name p =
    if leb (18 + name_len p) (length p) then slice 18 ((18 + name_len p) % 2 ^ 16) p else some []

-- The channel and its metadata; `none` is a runtime panic.
unfoldable pub parse_voice_state : Bytes → Option (ℕ × ChannelInfo)
parse_voice_state p =
    let channel = if leb 8 (length p) then uint_at 8 0 p else 0 in
    if leb 18 (length p)
    then Option.map (λ n. (channel, record { name = n; category_id = uint_at 8 8 p }))
        (parse_name p)
    else some (channel, no_info)

-- The same of a CHANNEL_LIST entry; the inner `none` is a payload that is too short, and ignored.
unfoldable pub parse_channel_list : Bytes → Option (Option (ℕ × ChannelInfo))
parse_channel_list p =
    if leb 18 (length p)
    then Option.map (λ n. some (uint_at 8 0 p, record { name = n; category_id = uint_at 8 8 p }))
        (parse_name p)
    else some none

-- `voiceStatePayload`.
unfoldable pub voice_state_payload : ℕ → Bytes → ℕ → Bytes
voice_state_payload channel_id channel_name category_id =
    le_bytes 8 channel_id
    ++ (le_bytes 8 category_id ++ (le_bytes 2 (length channel_name) ++ channel_name))

pub parse_name_total : (p : Bytes) → length p ≤ max_payload → (n : Bytes) × (parse_name p ≡ some n)
unfolding parse_name
parse_name_total p small = elim (Bool-cases (leb (18 + name_len p) (length p))) [
  | inl guard ↦
      let fits = leb→le (18 + name_len p) (length p) guard in
      let no_wrap : (18 + name_len p) % 2 ^ 16 ≡ 18 + name_len p = omega arith in
      (
        take (18 + name_len p - 18) (drop 18 p),
        rw (guard, no_wrap) (slice_ok 18 (18 + name_len p) p (omega arith) fits),
      )
  | inr short ↦ ([], rw short)
]

pub parse_voice_state_total : (p : Bytes) → length p ≤ max_payload → parse_voice_state p ≢ none
unfolding parse_voice_state
parse_voice_state_total p small = let (n, e) = parse_name_total p small in ground (arith, e)

pub parse_channel_list_total : (p : Bytes) → length p ≤ max_payload → parse_channel_list p ≢ none
unfolding parse_channel_list
parse_channel_list_total p small = let (n, e) = parse_name_total p small in ground (arith, e)

module _ (ch : ℕ) (name : Bytes) (cat : ℕ) where
  abbrev head : Bytes
  head = le_bytes 8 ch ++ (le_bytes 8 cat ++ le_bytes 2 (length name))

  abbrev payload : Bytes
  payload = voice_state_payload ch name cat

  length-head : length head ≡ 18
  length-head = omega (
    arith,
    length-append (le_bytes 8 ch) (le_bytes 8 cat ++ le_bytes 2 (length name)),
    length-append (le_bytes 8 cat) (le_bytes 2 (length name)),
    length-le_bytes 8 ch,
    length-le_bytes 8 cat,
    length-le_bytes 2 (length name),
  )

  payload-head : payload ≡ head ++ name
  unfolding voice_state_payload
  payload-head = rw (
    append_assoc (le_bytes 8 ch) (le_bytes 8 cat ++ le_bytes 2 (length name)) name,
    append_assoc (le_bytes 8 cat) (le_bytes 2 (length name)) name,
  )

  length-payload : length payload ≡ 18 + length name
  length-payload = rw payload-head (omega (arith, length-append head name, length-head))

  channel_at : ch < 256 ^ 8 → uint_at 8 0 payload ≡ ch
  unfolding voice_state_payload
  channel_at h = uint_at-le_bytes [] _ 0 8 ch refl (le_value-le_bytes 8 ch h)

  category_at : cat < 256 ^ 8 → uint_at 8 8 payload ≡ cat
  unfolding voice_state_payload
  category_at h =
      uint_at-le_bytes (le_bytes 8 ch) _ 8 8 cat (length-le_bytes 8 ch) (le_value-le_bytes 8 cat h)

  name_len_at : length name < 2 ^ 16 → uint_at 2 16 payload ≡ length name
  unfolding voice_state_payload
  name_len_at h =
      rw (← append_assoc (le_bytes 8 ch) (le_bytes 8 cat) (le_bytes 2 (length name) ++ name)) (
        uint_at-le_bytes (le_bytes 8 ch ++ le_bytes 8 cat) name 16 2 (length name)
          (omega (
            arith,
            length-append (le_bytes 8 ch) (le_bytes 8 cat),
            length-le_bytes 8 ch,
            length-le_bytes 8 cat,
          ))
          (le_value-le_bytes 2 (length name) h))

  parse_name-payload : 18 + length name ≤ max_payload → parse_name payload ≡ some name
  unfolding parse_name
  parse_name-payload small =
      let n = name_len_at (omega arith) in
      let no_wrap : (18 + length name) % 2 ^ 16 ≡ 18 + length name = omega arith in
      let rest : drop 18 (head ++ name) ≡ name =
        drop-append 18 head name (omega (arith, length-head)) ∙ rw (drop-all 18 head length-head) in
      rw
        (
          n,
          length-payload,
          le→leb (18 + length name) (18 + length name) (omega arith),
          no_wrap,
          slice_ok 18 (18 + length name) payload (omega arith) (omega (arith, length-payload)),
          payload-head,
          rest,
        )
        (ap some (take-all (18 + length name - 18) name (omega arith)))

  -- What the sidecar writes about a channel is what the bridge reads, in a VOICE_STATE message and
  -- in a CHANNEL_LIST entry, for 64-bit channels and categories and a payload that fits a frame.
  pub voice_state_round_trip :
      ch < 256 ^ 8
      → cat < 256 ^ 8
      → 18 + length name ≤ max_payload
      → (parse_voice_state payload ≡ some (ch, record { name = name; category_id = cat }))
        × (parse_channel_list payload ≡ some (some (ch, record { name = name; category_id = cat })))
  unfolding parse_voice_state parse_channel_list
  voice_state_round_trip h k small =
      let long = le→leb 18 (length payload) (omega (arith, length-payload)) in
      let mid = le→leb 8 (length payload) (omega (arith, length-payload)) in
      (
        rw (long, mid, parse_name-payload small, channel_at h, category_at k),
        rw (long, parse_name-payload small, channel_at h, category_at k),
      )
