-- ===== src/Examples/Commands.antt =====
-- pkg/matrix: messages of an admin, the sync loop and the renewal of a membership.
use matrix_discord_voice_bri.Base.{
  ℕ, ◌≤◌, ◌+◌, ◌≡◌, refl, true, false, ◌&&◌, ◌++◌, Option, none, some, List, [], ◌∷◌, arith,
}
use matrix_discord_voice_bri.Base.Eq.{Bytes, nat_eq, bytes_eq, bytes_beq}
use matrix_discord_voice_bri.Base.Assoc.{lookup, is_some}
use matrix_discord_voice_bri.Base.Text.{text, has_prefix}
use matrix_discord_voice_bri.Store.{empty_store}
use matrix_discord_voice_bri.Bridge.State.{new_manager}
use matrix_discord_voice_bri.Payload.VoiceState.{
  voice_state_payload, parse_voice_state, parse_channel_list, parse_name,
}
use matrix_discord_voice_bri.Payload.Slice.{slice}
use matrix_discord_voice_bri.Ipc.LittleEndian.{le_bytes, le_value}
use matrix_discord_voice_bri.Bridge.Messages.{
  handle_message, dispatch, handle_voice_state, on_voice_state, set_voice_state, presence,
  handle_channel_list, ensure_room, cached_or_new, new_room, kind_of,
}
use matrix_discord_voice_bri.Bridge.Machine.{call_member, message, step}
use matrix_discord_voice_bri.Bridge.Invariant.{Assigned}
use matrix_discord_voice_bri.Bridge.Discover.{Homeserver, scan, room_found}
use matrix_discord_voice_bri.Bridge.Api.{World, bridge_api}
use matrix_discord_voice_bri.Bridge.Commanded.{
  Event, call, incoming, react, react_from, RealRooms, react_from-Assigned,
}
use matrix_discord_voice_bri.Process.Boot.{info}
use matrix_discord_voice_bri.Matrix.Words.{fields}
use matrix_discord_voice_bri.Matrix.Commands.{is_admin, no_reply, unknown_command, on_message}
use matrix_discord_voice_bri.Matrix.Commands.Gate.{calls_change, on_message-reads}
use matrix_discord_voice_bri.Matrix.Commands.Texts.{answer, reply_text}
use matrix_discord_voice_bri.Matrix.Commands.Answers.{on_message-answer}
use matrix_discord_voice_bri.Matrix.Signaller.{
  Signaller, CallEnv, accepted, member_of, state_key_of, no_membership,
}
use matrix_discord_voice_bri.Matrix.Sync.{
  SyncResponse, CallEvent, hear_syncs, all_calls, hear_syncs-fresh,
}
use matrix_discord_voice_bri.Matrix.Renewal.{expires, stored, sent_until, membership_lasts}
use matrix_discord_voice_bri.Examples.Rooms.{
  two_slots, env, ada, grace, list_message, leave_message, list_message-IsSane,
  leave_message-IsSane,
}

-- A homeserver without bridge events.
abbrev silent : Homeserver
silent = record { joined = some (text "!seven" ∷ []); state = λ room. some [] }

silent-RealRooms : (guild : Bytes) → RealRooms guild silent
unfolding scan room_found
silent-RealRooms guild [] = tt
silent-RealRooms guild (room ∷ rooms) = silent-RealRooms guild rooms

abbrev admins : List Bytes
admins = ada ∷ []

abbrev world : World
world = record { manager = new_manager two_slots true true; db = empty_store }

on_message-reads_example :
    ((true
          && (is_admin admins grace
              && (has_prefix (text "!") (text "!leave")
                  && calls_change
                      (bridge_api bytes_beq true true (text "guild") silent)
                      (fields (text "!leave")))))
        ≡ false
      → (on_message
          (bridge_api bytes_beq true true (text "guild") silent)
          true
          admins
          grace
          (some (text "!leave"))
          world
          info).0
        ≡ world)
    × ((true && is_admin admins grace) ≡ false
        → on_message
            (bridge_api bytes_beq true true (text "guild") silent)
            true
            admins
            grace
            (some (text "!leave"))
            world
            info
          ≡ (world, info, no_reply))
on_message-reads_example =
    on_message-reads (bridge_api bytes_beq true true (text "guild") silent) true admins grace
      (text "!leave") world info

abbrev happened : List Event
happened =
    call (message (some (text "!seven")) 0 list_message)
    ∷ call (message none 0 leave_message)
    ∷ call (call_member env (text "!seven") ada true)
    ∷ incoming true true true silent info grace (some (text "!leave"))
    ∷ incoming true true true silent info ada (some (text "!sync-db"))
    ∷ []

abbrev world_of : Option World → World
world_of none = world
world_of (some w) = w

abbrev reacted : World
reacted = world_of (react_from bytes_beq (text "guild") admins happened (some world))

reacted-run : react_from bytes_beq (text "guild") admins happened (some world) ≡ some reacted
unfolding react step handle_message dispatch handle_voice_state on_voice_state set_voice_state
    presence parse_voice_state handle_channel_list parse_channel_list parse_name slice ensure_room
    cached_or_new new_room voice_state_payload le_bytes le_value kind_of new_manager lookup
reacted-run = refl

react_from-Assigned_example : Assigned reacted.manager.slots reacted.manager.active_bridges
react_from-Assigned_example =
    react_from-Assigned bytes_beq (text "guild") admins happened two_slots true true empty_store
      reacted (refl, (refl, tt))
      (
        list_message-IsSane,
        (
          leave_message-IsSane,
          (tt, (silent-RealRooms (text "guild"), (silent-RealRooms (text "guild"), tt))),
        ),
      )
      reacted-run

abbrev event : ℕ → CallEvent
event ends = record {
  room = text "!seven";
  sender = ada;
  has_key = true;
  application = true;
  expires_ts = some ends;
}

abbrev response : Bytes → SyncResponse
response since = record { since = since; now = 5; events = event 4 ∷ event 9 ∷ [] }

hear_syncs-fresh_example :
    hear_syncs false (response [] ∷ response (text "s1") ∷ response (text "s2") ∷ [])
    ≡ all_calls (response (text "s1") ∷ response (text "s2") ∷ [])
hear_syncs-fresh_example =
    hear_syncs-fresh (response []) (response (text "s1")) (response (text "s2") ∷ []) refl (λ e. cc)

abbrev joined : Signaller
joined = record {
  server_name = text "example.org";
  lk_jwt_service = text "https://jwt.example.org";
  active = (3, member_of (text "example.org") 3 (text "!seven")) ∷ [];
  profile_checked = [];
}

abbrev call_env : CallEnv
call_env = record { in_room = true; now = 5000; answers = λ n. accepted; alias = λ room. room }

active_in :
    (k : ℕ) → lookup 3 joined.active ≡ some (member_of (text "example.org") 3 (text "!seven"))
unfolding lookup
active_in k = refl

membership_lasts_example :
    90000000 + 3600000
    ≤ expires (
        stored
          (text "!seven")
          (state_key_of (text "example.org") 3)
          (sent_until call_env 1000 3 (text "!seven") joined (λ k. joined) 90000000)
          no_membership)
membership_lasts_example =
    membership_lasts call_env 1000 3 (text "!seven") joined (λ k. joined) 90000000 no_membership
      (omega arith) (omega arith) active_in

-- `%q` of a text without letters to escape.
abbrev quoted : Bytes → Bytes
quoted s = text "\"" ++ s ++ text "\""

-- An unknown command in capital letters is answered too.
on_message-answer_example :
    is_some (
      answer quoted
        (text "1m0s")
        (text "guild")
        (text "error")
        (on_message
          (bridge_api bytes_beq true true (text "guild") silent)
          true
          admins
          ada
          (some (text "!STOP now"))
          world
          info).2)
    ≡ (true && (has_prefix (text "!") (text "!STOP now") && is_admin admins ada))
on_message-answer_example =
    on_message-answer (bridge_api bytes_beq true true (text "guild") silent) quoted (text "1m0s")
      (text "guild") (text "error") true admins ada (text "!STOP now") world info

stop-answer :
    answer quoted (text "1m0s") (text "guild") (text "error") (unknown_command (text "!stop"))
    ≡ some (text "unknown command: !stop " ++ 226 ∷ 128 ∷ 148 ∷ text " try !help")
unfolding answer reply_text
stop-answer = refl
