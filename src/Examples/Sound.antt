-- ===== src/Examples/Sound.antt =====
-- pkg/livekit at concrete tracks, participants and samples.
use matrix_discord_voice_bri.Base.{
  ℕ, zero, suc, ◌≡◌, ◌≤◌, ◌<◌, refl, ◌⊎◌, true, false, List, [], ◌∷◌, some, none, arith, length,
  ◌++◌,
}
use matrix_discord_voice_bri.Base.Eq.{nat_eq, bytes_eq, elem}
use matrix_discord_voice_bri.Base.Assoc.{lookup, insert, has}
use matrix_discord_voice_bri.Base.Text.{text, has_prefix}
use matrix_discord_voice_bri.Livekit.SoftLimit.{ℤ, pos, negsuc}
use matrix_discord_voice_bri.Livekit.Subscriber.{
  TrackEntry, mixing, new_subscriber, on_packet, forwarded, decoded, is_bridge, on_subscribed,
  add_track, activate_mixer, mix_tracks, with_input, close, close_tracks,
}
use matrix_discord_voice_bri.Livekit.Modes.{RoomEvent, subscribed, run_events, handle_event}
use matrix_discord_voice_bri.Livekit.Tracks.{run_events-Heard}
use matrix_discord_voice_bri.Livekit.Inputs.{Announced, close_removes_inputs}
use matrix_discord_voice_bri.Livekit.Participants.{
  World, start, connect, shut_down, dialing, in_room, Reachable, from_start, next, begin_ensure,
  empty_world,
}
use matrix_discord_voice_bri.Livekit.Participants
use matrix_discord_voice_bri.Livekit.Flights.{Owner}
use matrix_discord_voice_bri.Livekit.Rooms.{no_room_leaks}
use matrix_discord_voice_bri.Livekit.Output.{OpusOutput, write_sample, write_each}
use matrix_discord_voice_bri.Livekit.Output.Frames.{Bounded, write_sample-write_each}

-- Two people speak.
abbrev two_speakers : List RoomEvent
two_speakers =
    subscribed (text "@ada:example.org:A") true (text "t1")
    ∷ subscribed (text "@grace:example.org:B") true (text "t2")
    ∷ []

abbrev mixed : TrackEntry
mixed = record { mode = mixing; input = some 0 }

tracked : lookup (text "t1") (run_events two_speakers new_subscriber).tracks ≡ some mixed
unfolding run_events handle_event on_subscribed is_bridge has_prefix add_track activate_mixer
    mix_tracks with_input insert lookup
tracked = refl

run_events-Heard_example :
    ((length (run_events two_speakers new_subscriber).tracks < 2)
      × ((run_events two_speakers new_subscriber).muted ≡ true)
      × (on_packet mixed (5 ∷ 6 ∷ []) ≡ forwarded (5 ∷ 6 ∷ [])))
    ⊎ ((2 ≤ length (run_events two_speakers new_subscriber).tracks)
        × ((run_events two_speakers new_subscriber).muted ≡ false)
        × ((i : ℕ) × (on_packet mixed (5 ∷ 6 ∷ []) ≡ decoded i (5 ∷ 6 ∷ []))))
run_events-Heard_example = run_events-Heard two_speakers (text "t1") mixed 5 (6 ∷ []) tracked

-- A user's call in flight, and in room 31, which a `Close` does not see.
abbrev at_work : World
at_work = record empty_world {
  manager = (begin_ensure 4 empty_world.manager).0;
  flights = (4, dialing) ∷ [];
}

abbrev arrived : World
arrived = record at_work { flights = (4, in_room 31) ∷ []; joined = 31 ∷ [] }

abbrev closed_early : World
closed_early = record arrived {
  manager = (Participants.close arrived.manager).0;
  leaving = (Participants.close arrived.manager).1 ++ [];
}

at_work-Reachable : Reachable at_work
unfolding begin_ensure has lookup
at_work-Reachable = next empty_world at_work from_start (start 4)

arrived-Reachable : Reachable arrived
unfolding insert lookup
arrived-Reachable = next at_work arrived at_work-Reachable (connect 4 31 refl)

closed_early-Reachable : Reachable closed_early
closed_early-Reachable = next arrived closed_early arrived-Reachable shut_down

no_room_leaks_example :
    ((r : ℕ) → elem r (31 ∷ []) ≡ true → Owner closed_early r)
    × ((u : ℕ)
        → has u ((4, in_room 31) ∷ []) ≡ true
        → lookup u closed_early.manager.participants ≡ none)
no_room_leaks_example = no_room_leaks closed_early closed_early-Reachable

two_speakers-Announced : Announced two_speakers new_subscriber
unfolding Announced on_subscribed is_bridge has_prefix add_track activate_mixer mix_tracks
    with_input insert lookup has
two_speakers-Announced = (refl, (refl, tt))

two_speakers-made : (close (run_events two_speakers new_subscriber)).made ≡ 2
unfolding close close_tracks run_events handle_event on_subscribed is_bridge has_prefix add_track
    activate_mixer mix_tracks with_input insert lookup
two_speakers-made = refl

close_removes_inputs_example :
    elem 1 (close (run_events two_speakers new_subscriber)).removed ≡ true
close_removes_inputs_example =
    close_removes_inputs two_speakers 1 two_speakers-Announced (omega (arith, two_speakers-made))

unfoldable silence : ℕ → List ℤ
silence zero = []
silence (suc n) = pos 0 ∷ silence n

-- An output that lacks one sample, with a handler that refuses every packet.
abbrev nearly_full : OpusOutput
nearly_full = record { muted = false; mono = silence 959; encoded = []; delivered = [] }

nearly_full-length : length (silence 959) ≡ 959
unfolding silence
nearly_full-length = refl

write_sample-write_each_example :
    (write_sample
        (λ frames. some (1 ∷ []))
        (λ packets. false)
        (pos 20000 ∷ negsuc 3 ∷ [])
        nearly_full
      ≡ write_each
          (λ frames. some (1 ∷ []))
          (λ packets. false)
          (pos 20000 ∷ negsuc 3 ∷ [])
          nearly_full)
    × Bounded
        (λ frames. some (1 ∷ []))
        (λ packets. false)
        (write_sample
          (λ frames. some (1 ∷ []))
          (λ packets. false)
          (pos 20000 ∷ negsuc 3 ∷ [])
          nearly_full)
write_sample-write_each_example =
    write_sample-write_each (λ frames. some (1 ∷ [])) (λ packets. false) (pos 20000 ∷ negsuc 3 ∷ [])
      nearly_full refl (omega (arith, nearly_full-length))
