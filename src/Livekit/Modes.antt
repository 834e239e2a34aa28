-- ===== src/Livekit/Modes.antt =====
-- pkg/livekit/subscriber.go: the modes of a subscriber's tracks as they come and go.
use matrix_discord_voice_bri.Base.{
  ℕ, suc, ◌≡◌, ◌<◌, ◌≤◌, ◌⊎◌, inl, inr, refl, ap, Bool, true, false, Option, none, some, List, [],
  ◌∷◌, arith, length, Bool-cases,
}
use matrix_discord_voice_bri.Base.Eq.{Bytes, ◌==◌, nat_eq, bytes_eq}
use matrix_discord_voice_bri.Base.Assoc.{lookup, insert, delete}
use matrix_discord_voice_bri.Livekit.Subscriber.{
  passthrough, mixing, TrackEntry, Subscriber, new_subscriber, with_input, mix_tracks,
  activate_mixer, pass_tracks, activate_passthrough, new_entry, add_track, on_subscribed,
  drop_track, settle, on_unsubscribed, is_bridge,
}

-- Every track in one mode, with or without an input as the mode wants it.
unfoldable pub AllPass : List (Bytes × TrackEntry) → Type 0
AllPass [] = Unit
AllPass ((sid, entry) ∷ rest) = (entry.mode ≡ passthrough) × (entry.input ≡ none) × AllPass rest

abbrev pub is_input : Option ℕ → Bool
is_input none = false
is_input (some i) = true

unfoldable pub AllMix : List (Bytes × TrackEntry) → Type 0
AllMix [] = Unit
AllMix ((sid, entry) ∷ rest) = (entry.mode ≡ mixing) × (is_input entry.input ≡ true) × AllMix rest

-- One speaker is passed through with the mixer's output muted, several are mixed.
unfoldable pub Modes : Subscriber → Type 0
Modes s =
    ((length s.tracks < 2) × AllPass s.tracks × (s.muted ≡ true))
    ⊎ ((2 ≤ length s.tracks) × AllMix s.tracks × (s.muted ≡ false))

mix_tracks-length : (n : ℕ) (l : List (Bytes × TrackEntry)) → length (mix_tracks n l).1 ≡ length l
unfolding mix_tracks
mix_tracks-length n [] = refl
mix_tracks-length n ((sid, entry) ∷ l) = ap suc (mix_tracks-length (with_input n entry.input).0 l)

with_input-mixes :
    (n : ℕ) (o : Option ℕ)
    → ((with_input n o).1.mode ≡ mixing) × (is_input (with_input n o).1.input ≡ true)
unfolding with_input
with_input-mixes n none = (refl, refl)
with_input-mixes n (some i) = (refl, refl)

mix_tracks-AllMix : (n : ℕ) (l : List (Bytes × TrackEntry)) → AllMix (mix_tracks n l).1
unfolding mix_tracks AllMix
mix_tracks-AllMix n [] = tt
mix_tracks-AllMix n ((sid, entry) ∷ l) =
    let w = with_input-mixes n entry.input in
    (w.0, w.1, mix_tracks-AllMix (with_input n entry.input).0 l)

pass_tracks-length : (l : List (Bytes × TrackEntry)) → length (pass_tracks l).1 ≡ length l
unfolding pass_tracks
pass_tracks-length [] = refl
pass_tracks-length ((sid, entry) ∷ l) = ap suc (pass_tracks-length l)

pass_tracks-AllPass : (l : List (Bytes × TrackEntry)) → AllPass (pass_tracks l).1
unfolding pass_tracks AllPass
pass_tracks-AllPass [] = tt
pass_tracks-AllPass ((sid, entry) ∷ l) = (refl, refl, pass_tracks-AllPass l)

delete-AllMix : (sid : Bytes) (l : List (Bytes × TrackEntry)) → AllMix l → AllMix (delete sid l)
unfolding AllMix delete
delete-AllMix sid [] h = tt
delete-AllMix sid ((j, entry) ∷ l) h = ground (arith, delete-AllMix sid l)

-- The track that is alone after a subscription is the new one.
insert-alone :
    (sid : Bytes) (l : List (Bytes × TrackEntry))
    → length (insert sid new_entry l) ≡ 1
    → AllPass (insert sid new_entry l)
unfolding insert AllPass
insert-alone sid [] h = (refl, refl, tt)
insert-alone sid ((j, entry) ∷ []) h = ground arith
insert-alone sid ((j, entry) ∷ (k, other) ∷ l) h = absurd (ground arith)

insert-length : (sid : Bytes) (l : List (Bytes × TrackEntry)) → 1 ≤ length (insert sid new_entry l)
unfolding insert
insert-length sid [] = omega arith
insert-length sid ((j, entry) ∷ l) = ground arith

add_track-Modes : (sid : Bytes) (s : Subscriber) → Modes (add_track sid s)
unfolding add_track Modes activate_mixer
add_track-Modes sid s = elim (Bool-cases (length (insert sid new_entry s.tracks) == 1)) [
  | inl alone ↦ rw alone (inl (ground arith, insert-alone sid s.tracks (ground arith), refl))
  | inr several ↦ rw several (
      inr (
        ground (
          arith,
          insert-length sid s.tracks,
          mix_tracks-length s.made (insert sid new_entry s.tracks),
        ),
        mix_tracks-AllMix s.made (insert sid new_entry s.tracks),
        refl,
      ))
]

settle-Modes :
    (s : Subscriber)
    → (2 ≤ length s.tracks → AllMix s.tracks × (s.muted ≡ false))
    → Modes (settle s)
unfolding settle Modes activate_passthrough
settle-Modes s several = elim (Bool-cases (length s.tracks == 1)) [
  | inl one ↦
      rw one (inl (ground (arith, pass_tracks-length s.tracks), pass_tracks-AllPass s.tracks, refl))
  | inr other ↦ rw other (elim (Bool-cases (length s.tracks == 0)) [
    | inl none_left ↦ rw none_left (inl (ground arith, empty s.tracks (ground arith), refl))
    | inr many ↦
        let two : 2 ≤ length s.tracks = ground arith in
        rw many (inr (two, (several two).0, (several two).1))
  ])
]
  where
    empty : (l : List (Bytes × TrackEntry)) → length l ≡ 0 → AllPass l
    empty [] h = unfold AllPass in tt
    empty (x ∷ l) h = absurd (ground arith)

length-delete : (sid : Bytes) (l : List (Bytes × TrackEntry)) → length (delete sid l) ≤ length l
unfolding delete
length-delete sid [] = omega arith
length-delete sid ((j, entry) ∷ l) = ground (arith, length-delete sid l)

Modes-several :
    (s : Subscriber) → Modes s → 2 ≤ length s.tracks → AllMix s.tracks × (s.muted ≡ false)
unfolding Modes
Modes-several s (inl (few, passing, quiet)) h = absurd (omega (arith, few, h))
Modes-several s (inr (many, mixed, loud)) h = (mixed, loud)

on_unsubscribed-Modes : (sid : Bytes) (s : Subscriber) → Modes s → Modes (on_unsubscribed sid s)
unfolding on_unsubscribed
on_unsubscribed-Modes sid s v =
    settle-Modes (drop_track sid (lookup sid s.tracks) s) (go (lookup sid s.tracks))
  where
    go :
        (o : Option TrackEntry)
        → 2 ≤ length (drop_track sid o s).tracks
        → AllMix (drop_track sid o s).tracks × ((drop_track sid o s).muted ≡ false)
    go none h = unfold drop_track in Modes-several s v h
    go (some entry) h =
        let m =
          Modes-several s v (unfold drop_track in omega (arith, h, length-delete sid s.tracks)) in
        unfold drop_track in (delete-AllMix sid s.tracks m.0, m.1)

-- The callbacks of the room.
pub data RoomEvent : Type 0 where
  subscribed : (ident : Bytes) (audio : Bool) (sid : Bytes) → RoomEvent
  unsubscribed : (sid : Bytes) → RoomEvent

unfoldable pub handle_event : RoomEvent → Subscriber → Subscriber
handle_event (subscribed ident audio sid) s = on_subscribed ident audio sid s
handle_event (unsubscribed sid) s = on_unsubscribed sid s

unfoldable pub run_events : List RoomEvent → Subscriber → Subscriber
run_events [] s = s
run_events (ev ∷ evs) s = run_events evs (handle_event ev s)

on_subscribed-Modes :
    (ident : Bytes) (audio : Bool) (sid : Bytes) (s : Subscriber)
    → Modes s
    → Modes (on_subscribed ident audio sid s)
unfolding on_subscribed
on_subscribed-Modes ident false sid s v = elim (Bool-cases (is_bridge ident)) [
  | inl own ↦ rw own v
  | inr human ↦ rw human v
]
on_subscribed-Modes ident true sid s v = elim (Bool-cases (is_bridge ident)) [
  | inl own ↦ rw own v
  | inr human ↦ rw human (add_track-Modes sid s)
]

handle_event-Modes : (ev : RoomEvent) (s : Subscriber) → Modes s → Modes (handle_event ev s)
unfolding handle_event
handle_event-Modes (subscribed ident audio sid) s v = on_subscribed-Modes ident audio sid s v
handle_event-Modes (unsubscribed sid) s v = on_unsubscribed-Modes sid s v

pub run_events-Modes : (evs : List RoomEvent) (s : Subscriber) → Modes s → Modes (run_events evs s)
unfolding run_events
run_events-Modes [] s v = v
run_events-Modes (ev ∷ evs) s v =
    run_events-Modes evs (handle_event ev s) (handle_event-Modes ev s v)

pub start_Modes : Modes new_subscriber
unfolding Modes AllPass
start_Modes = inl (omega arith, tt, refl)
