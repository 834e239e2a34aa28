-- ===== src/Livekit/Flights.antt =====
-- pkg/livekit/manager.go: who answers for a joined room, and what keeps it so.
use matrix_discord_voice_bri.Base.{
  ℕ, ◌≡◌, ◌≢◌, refl, ap, true, false, Option, none, some, List, [], ◌∷◌, arith, if◌then◌else◌,
  nat_beq_iff, some-eq,
}
use matrix_discord_voice_bri.Base.Eq.{◌==◌, nat_eq, elem}
use matrix_discord_voice_bri.Base.Assoc.{
  lookup, insert, delete, has, values, lookup-insert, lookup-delete,
}
use matrix_discord_voice_bri.Livekit.Participants.{World, Stage, dialing, left, in_room, without}

pub elem-without :
    (gone : ℕ) (cs : List ℕ) (j : ℕ)
    → elem j (without gone cs) ≡ (if j == gone then false else elem j cs)
unfolding elem without
elem-without gone [] j = ground arith
elem-without gone (c ∷ cs) j =
    ground (arith, elem-without gone cs j, nat_beq_iff c j, nat_beq_iff c gone, nat_beq_iff j gone)

pub elem-values : (u r : ℕ) (l : List (ℕ × ℕ)) → lookup u l ≡ some r → elem r (values l) ≡ true
unfolding lookup elem
elem-values u r [] h = cc
elem-values u r ((j, v) ∷ l) h = ground (arith, elem-values u r l, nat_beq_iff v r)

-- Who answers for a joined room: a participant, a call of `ensureParticipant` that is in it, or a call
-- that is about to disconnect it.
pub data Owner (w : World) (r : ℕ) : Type 0 where
  participant : (u : ℕ) → lookup u w.manager.participants ≡ some r → Owner w r
  caller : (u : ℕ) → lookup u w.flights ≡ some (in_room r) → Owner w r
  leaver : elem r w.leaving ≡ true → Owner w r

-- The calls in flight are those of the users marked as connecting, none of them has a participant, and
-- someone answers for every joined room.
pub record Tracked (w : World) : Type 0 where
  pub marked : (u : ℕ) → has u w.flights ≡ has u w.manager.connecting
  pub new : (u : ℕ) → has u w.manager.connecting ≡ true → has u w.manager.participants ≡ false
  pub owned : (r : ℕ) → elem r w.joined ≡ true → Owner w r

module _ {V : Type 0} where
  pub has-delete :
      (k j : ℕ) (l : List (ℕ × V)) → has j (delete k l) ≡ (if k == j then false else has j l)
  unfolding has
  has-delete k j l = ground (arith, lookup-delete k j l)

  pub has-insert :
      (k j : ℕ) (v : V) (l : List (ℕ × V))
      → has j (insert k v l) ≡ (if k == j then true else has j l)
  unfolding has
  has-insert k j v l = ground (arith, lookup-insert k j v l)

  pub has-some : (k : ℕ) (v : V) (l : List (ℕ × V)) → lookup k l ≡ some v → has k l ≡ true
  unfolding has
  has-some k v l h = rw h refl

  pub has-none : (k : ℕ) (l : List (ℕ × V)) → has k l ≡ false → lookup k l ≡ none
  unfolding has
  has-none k l h = ground arith

-- The room that a stage is in.
abbrev pub room_of : Stage → Option ℕ
room_of dialing = none
room_of left = none
room_of (in_room r) = some r

pub in_room-eq : {r room : ℕ} → some (in_room r) ≡ some (in_room room) → r ≡ room
in_room-eq e = some-eq (ap room_of (some-eq e))

pub dialing-in_room : {r : ℕ} → some dialing ≢ some (in_room r)
dialing-in_room e = ground (arith, ap room_of (some-eq e))

pub left-in_room : {r : ℕ} → some left ≢ some (in_room r)
left-in_room e = ground (arith, ap room_of (some-eq e))
