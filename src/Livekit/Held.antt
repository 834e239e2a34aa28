-- ===== src/Livekit/Held.antt =====
-- pkg/livekit/subscriber.go: which mixer inputs the tracks hold.
use matrix_discord_voice_bri.Base.{
  ℕ, ◌≡◌, ◌<◌, ◌≤◌, refl, Bool, true, false, ◌||◌, Option, none, some, List, [], ◌∷◌, arith,
}
use matrix_discord_voice_bri.Base.Eq.{
  Bytes, ◌==◌, nat_eq, bytes_eq, elem, elem-append, bytes_beq_iff,
}
use matrix_discord_voice_bri.Base.Assoc.{delete_none, lookup, insert, delete, has, Distinct}
use matrix_discord_voice_bri.Livekit.Subscriber.{
  TrackEntry, with_input, mix_tracks, removal, pass_tracks, new_entry, close_tracks,
}

abbrev pub is_at : ℕ → Option ℕ → Bool
is_at i none = false
is_at i (some j) = j == i

-- Some track has the input.
unfoldable pub holds : ℕ → List (Bytes × TrackEntry) → Bool
holds i [] = false
holds i ((sid, entry) ∷ rest) = is_at i entry.input || holds i rest

pub elem-removal : (i : ℕ) (o : Option ℕ) → elem i (removal o) ≡ is_at i o
unfolding elem
elem-removal i none = refl
elem-removal i (some j) = ground arith

pub pass_tracks-elem :
    (i : ℕ) (l : List (Bytes × TrackEntry)) → elem i (pass_tracks l).0 ≡ holds i l
unfolding pass_tracks holds
pass_tracks-elem i [] = unfold elem in refl
pass_tracks-elem i ((sid, entry) ∷ l) =
    rw
      (
        elem-append i (removal entry.input) (pass_tracks l).0,
        elem-removal i entry.input,
        pass_tracks-elem i l,
      )
      refl

pub close_tracks-elem :
    (i : ℕ) (l : List (Bytes × TrackEntry)) → elem i (close_tracks l).0 ≡ holds i l
unfolding close_tracks holds
close_tracks-elem i [] = unfold elem in refl
close_tracks-elem i ((sid, entry) ∷ l) =
    rw
      (
        elem-append i (removal entry.input) (close_tracks l).0,
        elem-removal i entry.input,
        close_tracks-elem i l,
      )
      refl

pub holds-insert :
    (i : ℕ) (sid : Bytes) (l : List (Bytes × TrackEntry))
    → has sid l ≡ false
    → holds i (insert sid new_entry l) ≡ holds i l
unfolding holds insert has lookup
holds-insert i sid [] h = refl
holds-insert i sid ((j, entry) ∷ l) h = ground (arith, holds-insert i sid l)

holds-cons :
    (i : ℕ) (j : Bytes) (other : TrackEntry) (l : List (Bytes × TrackEntry))
    → holds i ((j, other) ∷ l) ≡ (is_at i other.input || holds i l)
unfolding holds
holds-cons i j other l = refl

pub holds-delete :
    (i : ℕ) (sid : Bytes) (l : List (Bytes × TrackEntry)) (entry : TrackEntry)
    → Distinct l
    → lookup sid l ≡ some entry
    → holds i l ≡ (is_at i entry.input || holds i (delete sid l))
unfolding holds delete lookup Distinct has
holds-delete i sid [] entry d h = cc
holds-delete i sid ((j, other) ∷ l) entry d h = ground (
  arith,
  bytes_beq_iff j sid,
  delete_none sid l,
  holds-delete i sid l entry,
  holds-cons i j other (delete sid l),
)

with_input-holds :
    (n i : ℕ) (o : Option ℕ)
    → (n ≤ (with_input n o).0)
      × (is_at i o ≡ true → is_at i (with_input n o).1.input ≡ true)
      × (n ≤ i → i < (with_input n o).0 → is_at i (with_input n o).1.input ≡ true)
unfolding with_input
with_input-holds n i none = (omega arith, λ h. absurd (ground arith), λ l h. ground (arith, l, h))
with_input-holds n i (some j) = (omega arith, λ h. h, λ l h. absurd (omega (arith, l, h)))

-- Making inputs keeps those that are there, and gives each new one to a track.
pub mix_tracks-holds :
    (n i : ℕ) (l : List (Bytes × TrackEntry))
    → (n ≤ (mix_tracks n l).0)
      × (holds i l ≡ true → holds i (mix_tracks n l).1 ≡ true)
      × (n ≤ i → i < (mix_tracks n l).0 → holds i (mix_tracks n l).1 ≡ true)
unfolding mix_tracks holds
mix_tracks-holds n i [] = (omega arith, λ h. h, λ l h. absurd (omega (arith, l, h)))
mix_tracks-holds n i ((sid, entry) ∷ l) =
    ground
      (arith, with_input-holds n i entry.input, mix_tracks-holds (with_input n entry.input).0 i l)
