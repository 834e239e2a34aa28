-- ===== src/Livekit/Tracks.antt =====
-- pkg/livekit/subscriber.go: what becomes of a track's packets.
use matrix_discord_voice_bri.Base.{
  ℕ, ◌≡◌, ◌<◌, ◌≤◌, ◌⊎◌, inl, inr, refl, true, false, Option, none, some, List, [], ◌∷◌, arith,
  length,
}
use matrix_discord_voice_bri.Base.Eq.{Bytes, nat_eq, bytes_eq}
use matrix_discord_voice_bri.Base.Assoc.{lookup}
use matrix_discord_voice_bri.Livekit.Subscriber.{
  Mode, passthrough, mixing, TrackEntry, Subscriber, new_subscriber, forwarded, decoded, route,
  on_packet,
}
use matrix_discord_voice_bri.Livekit.Modes.{
  AllPass, is_input, AllMix, Modes, RoomEvent, run_events, run_events-Modes, start_Modes,
}

pass_packet :
    (sid : Bytes) (l : List (Bytes × TrackEntry)) (entry : TrackEntry) (b : ℕ) (bs : Bytes)
    → AllPass l
    → lookup sid l ≡ some entry
    → on_packet entry (b ∷ bs) ≡ forwarded (b ∷ bs)
unfolding AllPass lookup on_packet route
pass_packet sid [] entry b bs v h = cc
pass_packet sid ((j, other) ∷ l) entry b bs v h = ground (arith, pass_packet sid l entry b bs v.2)

mixed_entry :
    (sid : Bytes) (l : List (Bytes × TrackEntry)) (entry : TrackEntry)
    → AllMix l
    → lookup sid l ≡ some entry
    → (entry.mode ≡ mixing) × (is_input entry.input ≡ true)
unfolding AllMix lookup
mixed_entry sid [] entry v h = cc
mixed_entry sid ((j, other) ∷ l) entry v h = ground (arith, mixed_entry sid l entry v.2)

route_mixing :
    (mode : Mode) (o : Option ℕ) (payload : Bytes)
    → mode ≡ mixing
    → is_input o ≡ true
    → (i : ℕ) × (route mode o payload ≡ decoded i payload)
unfolding route
route_mixing passthrough o payload m h = absurd (ground arith)
route_mixing mixing none payload m h = absurd (ground arith)
route_mixing mixing (some i) payload m h = (i, refl)

-- How a subscriber treats a packet that is not empty.
abbrev Heard : Subscriber → TrackEntry → Bytes → Type 0
Heard s entry payload =
    ((length s.tracks < 2) × (s.muted ≡ true) × (on_packet entry payload ≡ forwarded payload))
    ⊎ ((2 ≤ length s.tracks)
        × (s.muted ≡ false)
        × ((i : ℕ) × (on_packet entry payload ≡ decoded i payload)))

Modes-Heard :
    (s : Subscriber) (sid : Bytes) (entry : TrackEntry) (b : ℕ) (bs : Bytes)
    → Modes s
    → lookup sid s.tracks ≡ some entry
    → Heard s entry (b ∷ bs)
unfolding Modes on_packet
Modes-Heard s sid entry b bs (inl (few, passing, quiet)) h =
    inl (few, quiet, pass_packet sid s.tracks entry b bs passing h)
Modes-Heard s sid entry b bs (inr (many, mixed, loud)) h =
    let e = mixed_entry sid s.tracks entry mixed h in
    inr (many, loud, route_mixing entry.mode entry.input (b ∷ bs) e.0 e.1)

-- After any subscriptions and unsubscriptions, a non-empty packet of a track that is there is
-- passed on as it came when the track is the only one, with the mixer's output muted; with several
-- tracks it is decoded into an input of the mixer, whose output is not muted.
pub run_events-Heard :
    (evs : List RoomEvent) (sid : Bytes) (entry : TrackEntry) (b : ℕ) (bs : Bytes)
    → lookup sid (run_events evs new_subscriber).tracks ≡ some entry
    → Heard (run_events evs new_subscriber) entry (b ∷ bs)
run_events-Heard evs sid entry b bs h =
    Modes-Heard (run_events evs new_subscriber) sid entry b bs
      (run_events-Modes evs new_subscriber start_Modes) h
