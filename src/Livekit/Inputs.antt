-- ===== src/Livekit/Inputs.antt =====
-- pkg/livekit/subscriber.go: every mixer input that was made belongs to a track or was removed.
use matrix_discord_voice_bri.Base.{
  ℕ, ◌≡◌, ◌<◌, refl, ◌∙◌, Bool, true, false, ◌||◌, Option, none, some, List, [], ◌∷◌, arith,
  Bool-cases, inl, inr, length,
}
use matrix_discord_voice_bri.Base.Eq.{Bytes, ◌==◌, nat_eq, bytes_eq, elem, elem-append}
use matrix_discord_voice_bri.Base.Assoc.{
  lookup, insert, has, Distinct, Distinct-insert, Distinct-delete,
}
use matrix_discord_voice_bri.Livekit.Subscriber.{
  TrackEntry, Subscriber, new_subscriber, with_input, mix_tracks, activate_mixer, removal,
  pass_tracks, activate_passthrough, new_entry, add_track, on_subscribed, drop_track, settle,
  on_unsubscribed, close_tracks, close, is_bridge,
}
use matrix_discord_voice_bri.Livekit.Modes.{
  RoomEvent, subscribed, unsubscribed, run_events, handle_event,
}
use matrix_discord_voice_bri.Livekit.Held.{
  holds, elem-removal, pass_tracks-elem, close_tracks-elem, holds-insert, holds-delete,
  mix_tracks-holds,
}

-- Every input that was made belongs to a track or was given to `RemoveInput`.
pub record Accounted (s : Subscriber) : Type 0 where
  pub distinct : Distinct s.tracks
  pub kept : (i : ℕ) → i < s.made → (holds i s.tracks || elem i s.removed) ≡ true

mix_tracks-has :
    (n : ℕ) (sid : Bytes) (l : List (Bytes × TrackEntry)) → has sid (mix_tracks n l).1 ≡ has sid l
unfolding mix_tracks has lookup
mix_tracks-has n sid [] = refl
mix_tracks-has n sid ((j, entry) ∷ l) =
    ground (arith, mix_tracks-has (with_input n entry.input).0 sid l)

mix_tracks-Distinct :
    (n : ℕ) (l : List (Bytes × TrackEntry)) → Distinct l → Distinct (mix_tracks n l).1
unfolding mix_tracks Distinct
mix_tracks-Distinct n [] d = tt
mix_tracks-Distinct n ((j, entry) ∷ l) d =
    let n' = (with_input n entry.input).0 in
    (mix_tracks-has n' j l ∙ d.0, mix_tracks-Distinct n' l d.1)

pass_tracks-has :
    (sid : Bytes) (l : List (Bytes × TrackEntry)) → has sid (pass_tracks l).1 ≡ has sid l
unfolding pass_tracks has lookup
pass_tracks-has sid [] = refl
pass_tracks-has sid ((j, entry) ∷ l) = ground (arith, pass_tracks-has sid l)

pass_tracks-Distinct : (l : List (Bytes × TrackEntry)) → Distinct l → Distinct (pass_tracks l).1
unfolding pass_tracks Distinct
pass_tracks-Distinct [] d = tt
pass_tracks-Distinct ((j, entry) ∷ l) d = (pass_tracks-has j l ∙ d.0, pass_tracks-Distinct l d.1)

add_track-Accounted :
    (sid : Bytes) (s : Subscriber)
    → has sid s.tracks ≡ false
    → Accounted s
    → Accounted (add_track sid s)
unfolding add_track activate_mixer
add_track-Accounted sid s new v =
    let l = insert sid new_entry s.tracks in
    let d = Distinct-insert sid new_entry s.tracks v.distinct in
    elim (Bool-cases (length l == 1)) [
      | inl alone ↦ rw alone (record {
        distinct = d;
        kept = λ i h. ground (arith, v.kept i h, holds-insert i sid s.tracks new);
      })
      | inr several ↦ rw several (record {
        distinct = mix_tracks-Distinct s.made l d;
        kept = λ i h.
            ground
              (arith, h, v.kept i, holds-insert i sid s.tracks new, mix_tracks-holds s.made i l);
      })
    ]

drop_track-Accounted :
    (o : Option TrackEntry) (sid : Bytes) (s : Subscriber)
    → lookup sid s.tracks ≡ o
    → Accounted s
    → Accounted (drop_track sid o s)
unfolding drop_track
drop_track-Accounted none sid s e v = v
drop_track-Accounted (some entry) sid s e v = record {
  distinct = Distinct-delete sid s.tracks v.distinct;
  kept = λ i h. ground (
    arith,
    v.kept i h,
    holds-delete i sid s.tracks entry v.distinct e,
    elem-append i (removal entry.input) s.removed,
    elem-removal i entry.input,
  );
}

settle-Accounted : (s : Subscriber) → Accounted s → Accounted (settle s)
unfolding settle activate_passthrough
settle-Accounted s v = elim (Bool-cases (length s.tracks == 1)) [
  | inl one ↦ rw one (record {
    distinct = pass_tracks-Distinct s.tracks v.distinct;
    kept = λ i h. ground (
      arith,
      v.kept i h,
      elem-append i (pass_tracks s.tracks).0 s.removed,
      pass_tracks-elem i s.tracks,
    );
  })
  | inr other ↦ rw other (elim (Bool-cases (length s.tracks == 0)) [
    | inl empty ↦ rw empty (record { distinct = v.distinct; kept = v.kept })
    | inr many ↦ rw many v
  ])
]

-- Every subscription is of a track that is not subscribed at the time, as LiveKit announces them.
unfoldable pub Announced : List RoomEvent → Subscriber → Type 0
Announced [] s = Unit
Announced (subscribed ident audio sid ∷ evs) s =
    (has sid s.tracks ≡ false) × Announced evs (on_subscribed ident audio sid s)
Announced (unsubscribed sid ∷ evs) s = Announced evs (on_unsubscribed sid s)

on_subscribed-Accounted :
    (ident : Bytes) (audio : Bool) (sid : Bytes) (s : Subscriber)
    → has sid s.tracks ≡ false
    → Accounted s
    → Accounted (on_subscribed ident audio sid s)
unfolding on_subscribed
on_subscribed-Accounted ident false sid s new v = elim (Bool-cases (is_bridge ident)) [
  | inl own ↦ rw own v
  | inr human ↦ rw human v
]
on_subscribed-Accounted ident true sid s new v = elim (Bool-cases (is_bridge ident)) [
  | inl own ↦ rw own v
  | inr human ↦ rw human (add_track-Accounted sid s new v)
]

run_events-Accounted :
    (evs : List RoomEvent) (s : Subscriber)
    → Announced evs s
    → Accounted s
    → Accounted (run_events evs s)
unfolding run_events handle_event Announced on_unsubscribed
run_events-Accounted [] s a v = v
run_events-Accounted (subscribed ident audio sid ∷ evs) s a v =
    run_events-Accounted evs (on_subscribed ident audio sid s) a.1
      (on_subscribed-Accounted ident audio sid s a.0 v)
run_events-Accounted (unsubscribed sid ∷ evs) s a v =
    run_events-Accounted evs (on_unsubscribed sid s) a (
      settle-Accounted (drop_track sid (lookup sid s.tracks) s)
        (drop_track-Accounted (lookup sid s.tracks) sid s refl v))

start_Accounted : Accounted new_subscriber
unfolding Distinct
start_Accounted = record { distinct = tt; kept = λ i h. absurd (omega (arith, h)) }

-- When `Close` runs after any subscriptions, each of a track that was not subscribed at the time, and
-- unsubscriptions, every input that the mixer made has been given to `RemoveInput`.
pub close_removes_inputs :
    (evs : List RoomEvent) (i : ℕ)
    → Announced evs new_subscriber
    → i < (close (run_events evs new_subscriber)).made
    → elem i (close (run_events evs new_subscriber)).removed ≡ true
unfolding close
close_removes_inputs evs i a h =
    let s = run_events evs new_subscriber in
    let v = run_events-Accounted evs new_subscriber a start_Accounted in
    ground (
      arith,
      v.kept i h,
      elem-append i (close_tracks s.tracks).0 s.removed,
      close_tracks-elem i s.tracks,
    )
