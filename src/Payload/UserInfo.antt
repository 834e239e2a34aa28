-- ===== src/Payload/UserInfo.antt =====
-- USER_INFO: `userInfoPayload` of sidecar/index.mjs writes it, `HandleMessage` of
-- pkg/bridge/manager.go reads it.
use matrix_discord_voice_bri.Base.{
  ℕ, ◌+◌, ◌-◌, ◌%◌, ◌^◌, ◌≤◌, ◌<◌, ◌≡◌, ◌≢◌, refl, ap, Option, none, some, [], ◌++◌, arith,
  if◌then◌else◌, leb, le→leb, leb→le, Bool-cases, inl, inr, length, take, drop, length-append,
  append_assoc, take-all, drop-all, drop-append,
}
use matrix_discord_voice_bri.Base.Eq.{Bytes}
use matrix_discord_voice_bri.Ipc.LittleEndian.{le_bytes, length-le_bytes, le_value-le_bytes}
use matrix_discord_voice_bri.Ipc.Frame.{max_payload}
use matrix_discord_voice_bri.Payload.Slice.{
  slice, slice_ok, uint_at, uint_at-le_bytes, take-drop_middle,
}

abbrev name_len : Bytes → ℕ
name_len p = uint_at 2 0 p

abbrev avatar_len : Bytes → ℕ
avatar_len p = uint_at 2 (2 + name_len p) p

-- `Payload[2 : 2+nameLen]`: the bound is a uint16 and wraps.
unfoldable pub parse_display_name : Bytes → Option Bytes
parse_display_name p =
    if leb (2 + name_len p) (length p) then slice 2 ((2 + name_len p) % 2 ^ 16) p else some []

-- `Payload[offset+2 : offset+2+int(avatarLen)]`: these bounds are ints.
unfoldable pub parse_avatar : Bytes → Option Bytes
parse_avatar p =
    let offset = 2 + name_len p in
    if leb (offset + 2) (length p)
    then (if leb (offset + 2 + avatar_len p) (length p)
        then slice (offset + 2) (offset + 2 + avatar_len p) p
        else some [])
    else some []

-- A panic at the display name, or else at the avatar, or both strings.
unfoldable pub profile : Option Bytes → Option Bytes → Option (Option (Bytes × Bytes))
profile none a = none
profile (some n) none = none
profile (some n) (some a) = some (some (n, a))

-- The display name and the avatar hash; the inner `none` is a payload that is too short, and
-- ignored; the outer one is a runtime panic.
unfoldable pub parse_user_info : Bytes → Option (Option (Bytes × Bytes))
parse_user_info p =
    if leb 2 (length p) then profile (parse_display_name p) (parse_avatar p) else some none

-- `userInfoPayload`.
unfoldable pub user_info_payload : Bytes → Bytes → Bytes
user_info_payload name avatar =
    le_bytes 2 (length name) ++ (name ++ (le_bytes 2 (length avatar) ++ avatar))

parse_display_name_total :
    (p : Bytes) → length p ≤ max_payload → (n : Bytes) × (parse_display_name p ≡ some n)
unfolding parse_display_name
parse_display_name_total p small = elim (Bool-cases (leb (2 + name_len p) (length p))) [
  | inl guard ↦
      let fits = leb→le (2 + name_len p) (length p) guard in
      let no_wrap : (2 + name_len p) % 2 ^ 16 ≡ 2 + name_len p = omega arith in
      (
        take (2 + name_len p - 2) (drop 2 p),
        rw (guard, no_wrap) (slice_ok 2 (2 + name_len p) p (omega arith) fits),
      )
  | inr short ↦ ([], rw short)
]

parse_avatar_total : (p : Bytes) → parse_avatar p ≢ none
unfolding parse_avatar slice
parse_avatar_total p = ground arith

pub parse_user_info_total : (p : Bytes) → length p ≤ max_payload → parse_user_info p ≢ none
unfolding parse_user_info profile
parse_user_info_total p small =
    let (n, e) = parse_display_name_total p small in ground (arith, e, parse_avatar_total p)

module _ (name avatar : Bytes) where
  abbrev payload : Bytes
  payload = user_info_payload name avatar

  length-payload : length payload ≡ 4 + length name + length avatar
  unfolding user_info_payload
  length-payload = omega (
    arith,
    length-append (le_bytes 2 (length name)) (name ++ (le_bytes 2 (length avatar) ++ avatar)),
    length-append name (le_bytes 2 (length avatar) ++ avatar),
    length-append (le_bytes 2 (length avatar)) avatar,
    length-le_bytes 2 (length name),
    length-le_bytes 2 (length avatar),
  )

  name_len_at : length name < 2 ^ 16 → name_len payload ≡ length name
  unfolding user_info_payload
  name_len_at h = uint_at-le_bytes [] _ 0 2 (length name) refl (le_value-le_bytes 2 (length name) h)

  before : length (le_bytes 2 (length name) ++ name) ≡ 2 + length name
  before =
      omega (arith, length-append (le_bytes 2 (length name)) name, length-le_bytes 2 (length name))

  avatar_len_at : length name < 2 ^ 16 → length avatar < 2 ^ 16 → avatar_len payload ≡ length avatar
  avatar_len_at h k = rw (name_len_at h) at_offset
    where
      at_offset : uint_at 2 (2 + length name) payload ≡ length avatar
      at_offset =
          unfold user_info_payload in
          rw (← append_assoc (le_bytes 2 (length name)) name (le_bytes 2 (length avatar) ++ avatar))
            (uint_at-le_bytes (le_bytes 2 (length name) ++ name) avatar (2 + length name) 2
              (length avatar) before (le_value-le_bytes 2 (length avatar) k))

  parse_display_name-payload :
      4 + length name + length avatar ≤ max_payload → parse_display_name payload ≡ some name
  unfolding parse_display_name
  parse_display_name-payload small =
      let no_wrap : (2 + length name) % 2 ^ 16 ≡ 2 + length name = omega arith in
      let minus : 2 + length name - 2 ≡ length name = omega arith in
      rw
        (
          name_len_at (omega arith),
          le→leb (2 + length name) (length payload) (omega (arith, length-payload)),
          no_wrap,
          slice_ok 2 (2 + length name) payload (omega arith) (omega (arith, length-payload)),
          minus,
        )
        (ap some (
          unfold user_info_payload in
          take-drop_middle (le_bytes 2 (length name)) name _ 2 (length name)
            (length-le_bytes 2 (length name)) refl))

  abbrev head : Bytes
  head = (le_bytes 2 (length name) ++ name) ++ le_bytes 2 (length avatar)

  length-head : length head ≡ 4 + length name
  length-head = omega (
    arith,
    length-append (le_bytes 2 (length name) ++ name) (le_bytes 2 (length avatar)),
    before,
    length-le_bytes 2 (length avatar),
  )

  payload-head : payload ≡ head ++ avatar
  unfolding user_info_payload
  payload-head = rw (
    append_assoc (le_bytes 2 (length name) ++ name) (le_bytes 2 (length avatar)) avatar,
    append_assoc (le_bytes 2 (length name)) name (le_bytes 2 (length avatar) ++ avatar),
  )

  drop-head : drop (2 + length name + 2) payload ≡ avatar
  drop-head =
      rw (payload-head, drop-append (2 + length name + 2) head avatar (omega (arith, length-head)))
        (rw (drop-all (2 + length name + 2) head (omega (arith, length-head))))

  parse_avatar-payload :
      4 + length name + length avatar ≤ max_payload → parse_avatar payload ≡ some avatar
  unfolding parse_avatar
  parse_avatar-payload small =
      let n = name_len_at (omega arith) in
      let a = rw n at (avatar_len_at (omega arith) (omega arith)) in
      let minus : 2 + length name + 2 + length avatar - (2 + length name + 2) ≡ length avatar =
        omega arith in
      rw
        (
          n,
          a,
          le→leb (2 + length name + 2) (length payload) (omega (arith, length-payload)),
          le→leb (2 + length name + 2 + length avatar) (length payload)
              (omega (arith, length-payload)),
          slice_ok (2 + length name + 2) (2 + length name + 2 + length avatar) payload (omega arith)
              (omega (arith, length-payload)),
          minus,
          drop-head,
        )
        (ap some (take-all (length avatar) avatar refl))

  -- The display name and the avatar hash that the sidecar writes are those that the bridge reads, as
  -- long as the payload fits a frame.
  pub user_info_round_trip :
      4 + length name + length avatar ≤ max_payload
      → parse_user_info payload ≡ some (some (name, avatar))
  unfolding parse_user_info profile
  user_info_round_trip small = rw (
    le→leb 2 (length payload) (omega (arith, length-payload)),
    parse_display_name-payload small,
    parse_avatar-payload small,
  )
