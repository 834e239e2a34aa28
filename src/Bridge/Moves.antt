-- ===== src/Bridge/Moves.antt =====
-- `OnMatrixCallMember` of pkg/bridge/manager.go: whom the manager tracks, and which bridges a join
-- stops.
use matrix_discord_voice_bri.Base.{
  ℕ, ◌≡◌, ◌≢◌, refl, true, false, some, List, [], ◌∷◌, arith, if◌then◌else◌,
}
use matrix_discord_voice_bri.Base.Eq.{Bytes, ◌==◌, nat_eq, bytes_eq, bytes_beq_iff}
use matrix_discord_voice_bri.Base.Assoc.{lookup, delete, has, lookup-delete}
use matrix_discord_voice_bri.Bridge.Call.{Users, or_empty, leave_others, keep_users, is_empty}

-- The users of a channel in the map itself.
abbrev pub in_map : ℕ → List (ℕ × Users) → Users
in_map ch l = or_empty (lookup ch l)

has-delete_self : (user : Bytes) (us : Users) → has user (delete user us) ≡ false
unfolding has
has-delete_self user us = ground (arith, lookup-delete user user us, bytes_beq_iff user user)

has_nil : (w : Bytes) → has {V = Bytes} w [] ≡ false
unfolding has lookup
has_nil w = refl

has-delete_ne : (user w : Bytes) (us : Users) → user ≢ w → has w (delete user us) ≡ has w us
unfolding has
has-delete_ne user w us ne = ground (arith, lookup-delete user w us, bytes_beq_iff user w)

keep_users-lookup :
    (o k : ℕ) (us : Users) (rest : List (ℕ × Users))
    → lookup k (keep_users o us rest)
      ≡ (if is_empty us then lookup k rest else if o == k then some us else lookup k rest)
unfolding lookup
keep_users-lookup o k [] rest = refl
keep_users-lookup o k (u ∷ us) rest = refl

pub lookup-cons :
    (o k : ℕ) (us : Users) (rest : List (ℕ × Users))
    → lookup k ((o, us) ∷ rest) ≡ (if o == k then some us else lookup k rest)
unfolding lookup
lookup-cons o k us rest = refl

-- The loop takes the user out of every other channel.
pub leave_others-gone :
    (user : Bytes) (ch other : ℕ) (l : List (ℕ × Users))
    → other ≢ ch
    → has user (in_map other (leave_others user ch l).0) ≡ false
unfolding leave_others
leave_others-gone user ch other [] ne = unfold has lookup in refl
leave_others-gone user ch other ((o, us) ∷ l) ne = ground (
  arith,
  leave_others-gone user ch other l ne,
  keep_users-lookup o other (delete user us) (leave_others user ch l).0,
  lookup-cons o other us (leave_others user ch l).0,
  has-delete_self user us,
)

-- It leaves the channel that is joined alone.
pub leave_others-same :
    (user : Bytes) (ch : ℕ) (l : List (ℕ × Users))
    → lookup ch (leave_others user ch l).0 ≡ lookup ch l
unfolding leave_others
leave_others-same user ch [] = refl
leave_others-same user ch ((o, us) ∷ l) = ground (
  arith,
  leave_others-same user ch l,
  keep_users-lookup o ch (delete user us) (leave_others user ch l).0,
  lookup-cons o ch us (leave_others user ch l).0,
  lookup-cons o ch us l,
)

-- The other users of the other channels stay.
pub leave_others-stay :
    (user w : Bytes) (ch other : ℕ) (l : List (ℕ × Users))
    → user ≢ w
    → has w (in_map other l) ≡ true
    → has w (in_map other (leave_others user ch l).0) ≡ true
unfolding leave_others
leave_others-stay user w ch other [] ne h = h
leave_others-stay user w ch other ((o, us) ∷ l) ne h = ground (
  arith,
  leave_others-stay user w ch other l ne,
  keep_users-lookup o other (delete user us) (leave_others user ch l).0,
  lookup-cons o other us (leave_others user ch l).0,
  lookup-cons o other us l,
  has-delete_ne user w us ne,
  has_nil w,
)
