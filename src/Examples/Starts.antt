-- ===== src/Examples/Starts.antt =====
-- pkg/bridge/manager.go: a start in flight while another channel is stopped.
use matrix_discord_voice_bri.Base.{◌≤◌, ◌≡◌, refl, true, some, List, [], ◌∷◌, arith}
use matrix_discord_voice_bri.Base.Eq.{nat_eq, bytes_eq, bytes_beq, elem}
use matrix_discord_voice_bri.Base.Assoc.{lookup, insert, has}
use matrix_discord_voice_bri.Base.Text.{text}
use matrix_discord_voice_bri.Payload.VoiceState.{
  voice_state_payload, parse_channel_list, parse_name,
}
use matrix_discord_voice_bri.Payload.Slice.{slice}
use matrix_discord_voice_bri.Ipc.LittleEndian.{le_bytes, le_value}
use matrix_discord_voice_bri.Bridge.Messages.{
  handle_message, dispatch, handle_channel_list, ensure_room, cached_or_new, new_room, kind_of,
}
use matrix_discord_voice_bri.Bridge.State.{Manager, new_manager, room_of, info_of}
use matrix_discord_voice_bri.Bridge.Slots.{slot_channel, first_free, set_channel}
use matrix_discord_voice_bri.Bridge.Start.{claim, claim_free, claim_slot, already_bridged}
use matrix_discord_voice_bri.Bridge.Invariant.{Assigned}
use matrix_discord_voice_bri.Bridge.Machine.{Op, message, spawned_stop, step}
use matrix_discord_voice_bri.Bridge.InFlight.{
  Flight, Traffic, take_off, Takes, Reached, start, later, call, begin, stops_of, Spares, careful,
  quiet,
}
use matrix_discord_voice_bri.Bridge.Orderly.{Holds, Apart}
use matrix_discord_voice_bri.Bridge.Stop.{slot_death, stop_bridge}
use matrix_discord_voice_bri.Bridge.Death.{IsDead, slot_death-kills}
use matrix_discord_voice_bri.Bridge.Unclaimed.{bound_for, interleaved-IsDead}
use matrix_discord_voice_bri.Bridge.Exclusion.{interleaved_starts-Apart}
use matrix_discord_voice_bri.Examples.Rooms.{
  two_slots, list_message, list_message-IsSane, manager_of,
}

-- Channel 7 is known and has a room.
abbrev list_op : Op
list_op = message (some (text "!seven")) 0 list_message

abbrev known : Manager
known = manager_of (step bytes_beq list_op (new_manager two_slots true true))

abbrev airborne : Traffic
airborne = take_off 7 [] (claim 7 known)

abbrev passed : Traffic
passed = record {
  mem = manager_of (step bytes_beq (spawned_stop 9) airborne.mem);
  flights = airborne.flights;
}

known-step : step bytes_beq list_op (new_manager two_slots true true) ≡ some known
unfolding step handle_message dispatch handle_channel_list parse_channel_list parse_name slice
    ensure_room cached_or_new new_room voice_state_payload le_bytes le_value kind_of new_manager
    lookup insert
known-step = refl

passed-step : step bytes_beq (spawned_stop 9) airborne.mem ≡ some passed.mem
unfolding step
passed-step = refl

abbrev flight : Flight
flight = record { channel = 7; index = 0; room = text "!seven"; info = info_of 7 known }

airborne-flights : airborne.flights ≡ flight ∷ []
unfolding step handle_message dispatch handle_channel_list parse_channel_list parse_name slice
    ensure_room cached_or_new new_room voice_state_payload le_bytes le_value kind_of new_manager
    lookup insert claim claim_free claim_slot take_off has first_free set_channel room_of info_of
airborne-flights = refl

spared : Spares (stops_of bytes_beq (spawned_stop 9) airborne.mem) airborne.flights
unfolding stops_of elem
spared = rw airborne-flights (refl, tt)

passed-Reached : Reached bytes_beq careful (quiet (new_manager two_slots true true)) passed
passed-Reached =
    later
      (later (later start (call list_op list_message-IsSane tt known-step))
        (begin 7 ((λ e. omega (arith, e)), (λ e. omega (arith, e)))))
      (call (spawned_stop 9) tt spared passed-step)

interleaved_starts-Apart_example :
    Assigned passed.mem.slots passed.mem.active_bridges
    × Apart passed.flights
    × ((f : Flight) (fs : List Flight)
        → Takes f passed.flights fs
        → Holds passed.mem.active_bridges f
          × (claim f.channel passed.mem ≡ (passed.mem, already_bridged)))
interleaved_starts-Apart_example =
    interleaved_starts-Apart bytes_beq two_slots true true passed (refl, (refl, tt)) passed-Reached

-- Slot 0 dies; a start of channel 7 takes slot 1 and is stopped in flight.
abbrev bereft : Traffic
bereft = quiet (slot_death 0 known).0

abbrev taken : Traffic
taken = take_off 7 [] (claim 7 bereft.mem)

abbrev stopped : Traffic
stopped = record { mem = (stop_bridge 7 taken.mem).0; flights = taken.flights }

known-slot : slot_channel 0 known.slots ≡ some 0
unfolding step handle_message dispatch handle_channel_list parse_channel_list parse_name slice
    ensure_room cached_or_new new_room voice_state_payload le_bytes le_value kind_of new_manager
    lookup insert slot_channel
known-slot = refl

stopped-step : step bytes_beq (spawned_stop 7) taken.mem ≡ some stopped.mem
unfolding step
stopped-step = refl

interleaved-IsDead_example :
    IsDead 0 stopped.mem × (bound_for 0 stopped.flights ≤ bound_for 0 bereft.flights)
interleaved-IsDead_example =
    interleaved-IsDead bytes_beq 0 bereft stopped (slot_death-kills 0 known known-slot)
      (later (later start (begin 7 tt)) (call (spawned_stop 7) tt tt stopped-step))
