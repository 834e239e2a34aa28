-- ===== src/Bridge/Call.antt =====
-- pkg/bridge/manager.go: `OnMatrixCallMember`, the debounce timer that it sets, and
-- `pushMatrixUsers`.
use matrix_discord_voice_bri.Base.{
  ℕ, Bool, true, false, Option, none, some, List, [], ◌∷◌, ◌++◌, if◌then◌else◌, get_elem?,
}
use matrix_discord_voice_bri.Base.Eq.{Bytes, ◌==◌, nat_eq, bytes_eq}
use matrix_discord_voice_bri.Base.Assoc.{lookup, insert, delete, has, values}
use matrix_discord_voice_bri.Base.Text.{text, has_prefix}
use matrix_discord_voice_bri.Ipc.Frame.{Message, msg_matrix_users}
use matrix_discord_voice_bri.Payload.MatrixUsers.{names_payload}
use matrix_discord_voice_bri.Bridge.State.{Manager, ChannelBridge, Effect, send}
use matrix_discord_voice_bri.Bridge.Start.{start_bridge}
use matrix_discord_voice_bri.Bridge.Stop.{when, has_conn, stop_bridge, stop_all}

abbrev pub Users : Type 0
Users = List (Bytes × Bytes)

abbrev pub or_empty : Option Users → Users
or_empty none = []
or_empty (some us) = us

-- `m.matrixUsers[ch]`.
unfoldable pub users_of : ℕ → Manager → Users
users_of ch m = or_empty (lookup ch m.matrix_users)

abbrev pub is_empty : Users → Bool
is_empty [] = true
is_empty (u ∷ us) = false

abbrev pub matrix_users_message : List Bytes → Message
matrix_users_message names = record {
  msg_type = msg_matrix_users;
  user_id = 0;
  payload = names_payload names;
}

unfoldable pub push_to : Option ChannelBridge → ℕ → Manager → List Effect
push_to none ch m = []
push_to (some b) ch m =
    when (has_conn (get_elem? m.slots b.slot_index))
      (send b.slot_index (matrix_users_message (values (users_of ch m))))

-- `pushMatrixUsers`.
unfoldable pub push_matrix_users : ℕ → Manager → List Effect
push_matrix_users ch m = push_to (lookup ch m.active_bridges) ch m

abbrev pub keep_users : ℕ → Users → List (ℕ × Users) → List (ℕ × Users)
keep_users ch [] rest = rest
keep_users ch (u ∷ us) rest = (ch, u ∷ us) ∷ rest

-- The loop over the other channels when a user joins one: it takes the user out of them, and
-- collects the channels that it was in.
unfoldable pub leave_others : Bytes → ℕ → List (ℕ × Users) → List (ℕ × Users) × List ℕ
leave_others user ch [] = ([], [])
leave_others user ch ((other, us) ∷ rest) =
    let (rest', stops) = leave_others user ch rest in
    if other == ch
    then ((other, us) ∷ rest', stops)
    else if has user us
    then (keep_users other (delete user us) rest', other ∷ stops)
    else ((other, us) ∷ rest', stops)

unfoldable pub cancel_timers : List ℕ → List (ℕ × Bool) → List (ℕ × Bool)
cancel_timers [] timers = timers
cancel_timers (ch ∷ chs) timers = cancel_timers chs (delete ch timers)

-- What the homeserver and LiveKit answer during a join.
pub record JoinEnv : Type 0 where
  pub display_name : Bytes  -- `GetDisplayName`
  pub sub_ok : Bool  -- `NewSubscriber`

unfoldable pub track_user : Bytes → Bytes → ℕ → Manager → Manager
track_user user name ch m = record m {
  matrix_users = insert ch (insert user name (users_of ch m)) m.matrix_users;
}

-- A join, after the loop over the other channels.
unfoldable pub enter : JoinEnv → Bytes → ℕ → Manager → Manager × List Effect
enter env user ch m =
    if has user (users_of ch m)
    then (m, [])
    else (let name = if m.signaller then env.display_name else user in
        let (m', started) = start_bridge env.sub_ok ch (track_user user name ch m) in
        (m', started ++ push_matrix_users ch m'))

unfoldable pub on_join : JoinEnv → Bytes → ℕ → Manager → Manager × List Effect
on_join env user ch m =
    let (others, stops) = leave_others user ch m.matrix_users in
    let (m', stopped) = stop_all stops (record m {
      stop_timers = cancel_timers stops (delete ch m.stop_timers);
      matrix_users = others;
    }) in
    let (m'', entered) = enter env user ch m' in (m'', stopped ++ entered)

unfoldable pub untrack : Option Users → Bytes → ℕ → Manager → Manager
untrack none user ch m = m
untrack (some us) user ch m = record m {
  matrix_users =
      if is_empty (delete user us)
      then delete ch m.matrix_users
      else insert ch (delete user us) m.matrix_users;
}

unfoldable pub set_timer : ℕ → Manager → Manager
set_timer ch m =
    if is_empty (users_of ch m) then record m { stop_timers = insert ch true m.stop_timers } else m

unfoldable pub on_leave : Bytes → ℕ → Manager → Manager × List Effect
on_leave user ch m =
    let m' = untrack (lookup ch m.matrix_users) user ch m in
    (set_timer ch m', push_matrix_users ch m')

abbrev pub ghost_prefix : Bytes
ghost_prefix = text "@discord_"

unfoldable pub on_channel : Option ℕ → JoinEnv → Bytes → Bool → Manager → Manager × List Effect
on_channel none env user joined m = (m, [])
on_channel (some ch) env user true m = on_join env user ch m
on_channel (some ch) env user false m = on_leave user ch m

-- `OnMatrixCallMember`.
unfoldable pub on_call_member : JoinEnv → Bytes → Bytes → Bool → Manager → Manager × List Effect
on_call_member env room user joined m =
    if has_prefix ghost_prefix user
    then (m, [])
    else on_channel (lookup room m.room_channels) env user joined m

-- The section of the debounce timer's callback under `m.mu`, with its `stillEmpty`.
unfoldable pub timer_check : ℕ → Manager → Manager × Bool
timer_check ch m = (record m { stop_timers = delete ch m.stop_timers }, is_empty (users_of ch m))

-- The callback of the debounce timer, five seconds after the last user left.
unfoldable pub timer_fired : ℕ → Manager → Manager × List Effect
timer_fired ch m =
    let m' = record m { stop_timers = delete ch m.stop_timers } in
    if is_empty (users_of ch m) then stop_bridge ch m' else (m', [])
