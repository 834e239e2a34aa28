-- ===== src/Matrix/Signaller.antt =====
-- pkg/matrix/signalling.go: the call memberships and profiles of the Discord users' ghosts. The
-- homeserver is the application service library's: what it answers is an argument.
use matrix_discord_voice_bri.Base.{
  ℕ, zero, suc, Bool, true, false, ◌&&◌, ◌||◌, Option, none, some, List, [], ◌∷◌, ◌++◌,
  if◌then◌else◌, leb, length, drop, ◌+◌,
}
use matrix_discord_voice_bri.Base.Eq.{Bytes, ◌==◌, nat_eq, bytes_eq}
use matrix_discord_voice_bri.Base.Assoc.{lookup, insert, delete, has, keys}
use matrix_discord_voice_bri.Base.Text.{text, decimal, has_prefix}

pub record MemberInfo : Type 0 where
  pub mxid : Bytes
  pub device_id : Bytes
  pub room_id : Bytes
  pub state_key : Bytes

pub record Signaller : Type 0 where
  pub server_name : Bytes
  pub lk_jwt_service : Bytes
  pub active : List (ℕ × MemberInfo)
  pub profile_checked : List (ℕ × Bool)

abbrev pub call_application : Bytes
call_application = text "m.call"

-- `discordMXID`.
unfoldable pub discord_mxid : Bytes → ℕ → Bytes
discord_mxid server user = text "@discord_" ++ decimal user ++ 58 ∷ server

-- `deviceID`.
unfoldable pub device_id_of : ℕ → Bytes
device_id_of user = text "VOICE_" ++ decimal user

-- `LiveKitIdentity`.
unfoldable pub livekit_identity : Bytes → ℕ → Bytes
livekit_identity server user = discord_mxid server user ++ 58 ∷ device_id_of user

unfoldable pub state_key_of : Bytes → ℕ → Bytes
state_key_of server user =
    text "_"
    ++ discord_mxid server user
    ++ text "_"
    ++ device_id_of user
    ++ text "_"
    ++ call_application

-- How one attempt of `sendStateRetry` ends: `cancelled` when it fails with the caller's context done.
pub data Answer : Type 0 where
  accepted failed cancelled : Answer

-- What an attempt's answer makes of the attempts after it.
abbrev pub after : Answer → Answer × ℕ → Answer × ℕ
after accepted later = (accepted, 1)
after cancelled later = (cancelled, 1)
after failed (answer, made) = (answer, suc made)

-- The loop of `sendStateRetry` with some attempts left, `n` being the next: its answer, and how many
-- requests it made.
unfoldable pub retry : ℕ → ℕ → (ℕ → Answer) → Answer × ℕ
retry zero n answers = (failed, 0)
retry (suc left) n answers = after (answers n) (retry left (suc n) answers)

-- `sendStateRetry`.
unfoldable pub send_state_retry : (ℕ → Answer) → Answer × ℕ
send_state_retry answers = retry 3 1 answers

-- The content of a member event: a membership, whose constant fields are left out, or the empty
-- object that ends one.
pub data Content : Type 0 where
  membership :
      (device_id membership_id : Bytes) (expires_ts : ℕ) (service_url alias : Bytes) → Content
  no_membership : Content

pub record StateEvent : Type 0 where
  pub sender : Bytes
  pub room : Bytes
  pub key : Bytes
  pub content : Content

pub data CallResult : Type 0 where
  done not_joined not_sent : CallResult

abbrev pub member_of : Bytes → ℕ → Bytes → MemberInfo
member_of server user room = record {
  mxid = discord_mxid server user;
  device_id = device_id_of user;
  room_id = room;
  state_key = state_key_of server user;
}

-- What a join reads: whether `EnsureJoined` succeeds, the time in milliseconds, the answers about the
-- state event, and `LiveKitRoomAlias`, a hash from Go's libraries.
pub record CallEnv : Type 0 where
  pub in_room : Bool
  pub now : ℕ
  pub answers : ℕ → Answer
  pub alias : Bytes → Bytes

abbrev pub join_event : CallEnv → Signaller → ℕ → Bytes → StateEvent
join_event env s user room = record {
  sender = discord_mxid s.server_name user;
  room = room;
  key = state_key_of s.server_name user;
  content =
      membership (device_id_of user) (livekit_identity s.server_name user) (env.now + 14400000)
        s.lk_jwt_service (env.alias room);
}

unfoldable pub joined_call : Answer → ℕ → Bytes → Signaller → Signaller × CallResult
joined_call accepted user room s =
    (record s { active = insert user (member_of s.server_name user room) s.active }, done)
joined_call failed user room s = (s, not_sent)
joined_call cancelled user room s = (s, not_sent)

-- `JoinCall`, with the event of its requests.
unfoldable pub join_call :
    CallEnv → ℕ → Bytes → Signaller → Signaller × List StateEvent × CallResult
join_call env user room s =
    if env.in_room
    then (let (s', result) = joined_call (send_state_retry env.answers).0 user room s in
        (s', join_event env s user room ∷ [], result))
    else (s, [], not_joined)

abbrev pub leave_event : MemberInfo → StateEvent
leave_event info = record {
  sender = info.mxid;
  room = info.room_id;
  key = info.state_key;
  content = no_membership;
}

abbrev pub sent_result : Answer → CallResult
sent_result accepted = done
sent_result failed = not_sent
sent_result cancelled = not_sent

unfoldable pub leave_member :
    Option MemberInfo → (ℕ → Answer) → ℕ → Signaller → Signaller × List StateEvent × CallResult
leave_member none answers user s = (s, [], done)
leave_member (some info) answers user s = (
  record s { active = delete user s.active },
  leave_event info ∷ [],
  sent_result (send_state_retry answers).0,
)

-- `LeaveCall`.
unfoldable pub leave_call : (ℕ → Answer) → ℕ → Signaller → Signaller × List StateEvent × CallResult
leave_call answers user s = leave_member (lookup user s.active) answers user s

unfoldable pub leave_each : (ℕ → ℕ → Answer) → List ℕ → Signaller → Signaller × List StateEvent
leave_each answers [] s = (s, [])
leave_each answers (user ∷ users) s =
    let (s', sent, result) = leave_call (answers user) user s in
    let (s'', rest) = leave_each answers users s' in (s'', sent ++ rest)

-- `LeaveAll`; `answers` is what the homeserver answers about each user.
unfoldable pub leave_all : (ℕ → ℕ → Answer) → Signaller → Signaller × List StateEvent
leave_all answers s = leave_each answers (keys s.active) s

unfoldable pub is_hex : ℕ → Bool
is_hex c = (leb 48 c && leb c 57) || ((leb 97 c && leb c 102) || (leb 65 c && leb c 70))

unfoldable pub all_hex : Bytes → Bool
all_hex [] = true
all_hex (c ∷ cs) = is_hex c && all_hex cs

abbrev pub hash_32 : Bytes → Bool
hash_32 s = (length s == 32) && all_hex s

-- `discordAvatarHashRe`.
unfoldable pub is_avatar_hash : Bytes → Bool
is_avatar_hash s = hash_32 s || (has_prefix (text "a_") s && hash_32 (drop 2 s))

-- The requests of `EnsureProfile` after the check of the profile.
pub data ProfileRequest : Type 0 where
  set_display_name : (name : Bytes) → ProfileRequest
  upload_avatar : (url : Bytes) → ProfileRequest

abbrev pub avatar_url : ℕ → Bytes → Bytes
avatar_url user hash =
    text "https://cdn.discordapp.com/avatars/"
    ++ decimal user
    ++ text "/"
    ++ hash
    ++ text ".png?size=256"

abbrev pub is_set : Option Bytes → Bool
is_set none = false
is_set (some []) = false
is_set (some (c ∷ cs)) = true

abbrev pub when_set : Bytes → ProfileRequest → List ProfileRequest
when_set [] r = []
when_set (c ∷ cs) r = r ∷ []

-- `EnsureProfile`; `profile` is the display name that `GetProfile` answers, `none` for an error.
unfoldable pub ensure_profile :
    Option Bytes → ℕ → Bytes → Bytes → Signaller → Signaller × List ProfileRequest
ensure_profile profile user name hash s = if has user s.profile_checked then (s, []) else (
  record s { profile_checked = insert user true s.profile_checked },
  if is_set profile
      then []
      else when_set name (set_display_name name)
        ++ (if is_avatar_hash hash then upload_avatar (avatar_url user hash) ∷ [] else []),
)

-- The localpart up to the colon, or all of it.
unfoldable pub until_colon : Bytes → Bytes
until_colon [] = []
until_colon (c ∷ cs) = let rest = until_colon cs in if c == 58 then [] else c ∷ rest

abbrev pub local_part : Bytes → Bytes
local_part [] = []
local_part (c ∷ []) = c ∷ []
local_part (c ∷ d ∷ cs) = if c == 64 then until_colon (d ∷ cs) else c ∷ d ∷ cs

abbrev pub name_or_local : Option Bytes → Bytes → Bytes
name_or_local none user = local_part user
name_or_local (some []) user = local_part user
name_or_local (some (c ∷ cs)) user = c ∷ cs

-- `GetDisplayName`.
unfoldable pub get_display_name : Option Bytes → Bytes → Bytes
get_display_name profile user = name_or_local profile user
