-- ===== src/Examples/Calls.antt =====
-- pkg/bridge/manager.go: single calls on the manager of the run, and on one without bridges.
use matrix_discord_voice_bri.Base.{ℕ, ◌≡◌, ◌≢◌, refl, true, false, [], ◌∷◌, some, arith}
use matrix_discord_voice_bri.Base.Eq.{nat_eq, bytes_eq}
use matrix_discord_voice_bri.Base.Assoc.{lookup, delete, has}
use matrix_discord_voice_bri.Base.Text.{text}
use matrix_discord_voice_bri.Payload.VoiceState.{no_info}
use matrix_discord_voice_bri.Bridge.State.{Manager, new_manager, free, room_of, info_of}
use matrix_discord_voice_bri.Bridge.Slots.{slot_channel, first_free}
use matrix_discord_voice_bri.Bridge.Start.{
  start_bridge, full_bridge, claim, claim_free, claim_slot, claimed, publish,
}
use matrix_discord_voice_bri.Bridge.Stop.{stop_bridge, release}
use matrix_discord_voice_bri.Bridge.Call.{timer_check, on_join, on_leave, timer_fired, users_of}
use matrix_discord_voice_bri.Bridge.Cycle.{stop_bridge-start_bridge}
use matrix_discord_voice_bri.Bridge.Joins.{join_moves_user}
use matrix_discord_voice_bri.Bridge.Debounce.{leave_debounced}
use matrix_discord_voice_bri.Bridge.Shared.{join_stops_shared_bridge}
use matrix_discord_voice_bri.Bridge.Window.{late_stop_strands_user}
use matrix_discord_voice_bri.Bridge.Race.{stopped_start_leaks}
use matrix_discord_voice_bri.Examples.Rooms.{two_slots, env, ada, grace}

-- Two channels with rooms, and two users in the first.
abbrev shared : Manager
shared = record (new_manager two_slots true true) {
  channel_rooms = (7, text "!seven") ∷ (8, text "!eight") ∷ [];
  room_channels = (text "!seven", 7) ∷ (text "!eight", 8) ∷ [];
  matrix_users = (7, (ada, text "Ada") ∷ (grace, text "Grace") ∷ []) ∷ [];
}

abbrev alone : Manager
alone = record shared { matrix_users = (7, (ada, text "Ada") ∷ []) ∷ [] }

shared-new : has 7 shared.active_bridges ≡ false
unfolding has lookup new_manager
shared-new = refl

shared-free : first_free shared.slots ≡ some 0
unfolding first_free new_manager
shared-free = refl

shared-room : room_of 7 shared ≢ []
unfolding room_of lookup new_manager
shared-room e = ground (arith, e)

stop_bridge-start_bridge_example : (stop_bridge 7 (start_bridge true 7 shared).0).0 ≡ shared
stop_bridge-start_bridge_example = stop_bridge-start_bridge true 7 shared shared-new (omega arith)

join_moves_user_example :
    (has ada (users_of 8 (on_join env ada 8 shared).0) ≡ true)
    × ((other : ℕ) → other ≢ 8 → has ada (users_of other (on_join env ada 8 shared).0) ≡ false)
join_moves_user_example = join_moves_user env ada 8 shared

leave_debounced_example :
    ((on_leave ada 7 alone).0.active_bridges ≡ alone.active_bridges)
    × ((on_leave ada 7 alone).0.slots ≡ alone.slots)
    × (lookup 7 (on_leave ada 7 alone).0.stop_timers ≡ some true)
    × (has 7 (timer_fired 7 (on_leave ada 7 alone).0).0.active_bridges ≡ false)
leave_debounced_example = leave_debounced ada 7 alone (unfold users_of lookup delete in refl)

join_stops_shared_bridge_example :
    (has 7 (on_join env ada 8 shared).0.active_bridges ≡ false)
    × (has grace (users_of 7 (on_join env ada 8 shared).0) ≡ true)
join_stops_shared_bridge_example =
    join_stops_shared_bridge env ada grace 8 7 shared (omega arith) (λ e. ground (arith, e))
      (unfold users_of has lookup in refl) (unfold users_of has lookup in refl)

-- The manager between the two sections.
abbrev starting : Manager
starting = (claim 7 shared).0

starting-claimed : claim 7 shared ≡ (starting, claimed 0 (text "!seven") no_info)
unfolding claim claim_free claim_slot has lookup first_free room_of info_of new_manager
starting-claimed = refl

stopped_start_leaks_example :
    (lookup 7 (publish 7 0 (text "!seven") no_info true (release 7 starting)).active_bridges
      ≡ some (full_bridge 7 0 (text "!seven") no_info true))
    × (slot_channel 0 (publish 7 0 (text "!seven") no_info true (release 7 starting)).slots
        ≡ some free)
stopped_start_leaks_example =
    stopped_start_leaks true 7 0 shared starting (text "!seven") no_info (omega arith)
      starting-claimed

-- Ada joins the channel that nobody uses while its timer's callback runs.
abbrev unused : Manager
unused = record shared { matrix_users = [] }

late_stop_strands_user_example :
    ((timer_check 7 unused).1 ≡ true)
    × (has ada (users_of 7 (stop_bridge 7 (on_join env ada 7 (timer_check 7 unused).0).0).0) ≡ true)
    × (has 7 (stop_bridge 7 (on_join env ada 7 (timer_check 7 unused).0).0).0.active_bridges
        ≡ false)
    × (has 7
          (on_join env ada 7
            (stop_bridge 7 (on_join env ada 7 (timer_check 7 unused).0).0).0).0.active_bridges
        ≡ false)
late_stop_strands_user_example =
    late_stop_strands_user env env ada 7 unused (unfold users_of lookup in refl)
