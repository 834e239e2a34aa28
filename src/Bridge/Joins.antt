-- ===== src/Bridge/Joins.antt =====
-- What a join, a leave and the debounce timer of pkg/bridge/manager.go do to users and bridges.
use matrix_discord_voice_bri.Base.{
  ℕ, ◌≡◌, ◌≢◌, refl, ap, ◌∙◌, true, false, List, arith, if◌then◌else◌,
}
use matrix_discord_voice_bri.Base.Eq.{Bytes, nat_eq, bytes_eq}
use matrix_discord_voice_bri.Base.Assoc.{insert, delete, has, lookup-insert_self, lookup-insert_ne}
use matrix_discord_voice_bri.Bridge.State.{Manager}
use matrix_discord_voice_bri.Bridge.Stop.{stop_all}
use matrix_discord_voice_bri.Bridge.Frame.{start_bridge-SameMaps, stop_all-SameMaps}
use matrix_discord_voice_bri.Bridge.Call.{
  Users, JoinEnv, on_join, enter, track_user, users_of, leave_others, cancel_timers,
}
use matrix_discord_voice_bri.Bridge.Moves.{in_map, leave_others-gone}

abbrev pub joined_name : JoinEnv → Bytes → Manager → Bytes
joined_name env user n = if n.signaller then env.display_name else user

enter-users :
    (env : JoinEnv) (user : Bytes) (ch : ℕ) (n : Manager)
    → (enter env user ch n).0.matrix_users ≡ (
        if has user (users_of ch n)
        then n.matrix_users
        else insert ch (insert user (joined_name env user n) (users_of ch n)) n.matrix_users)
unfolding enter track_user
enter-users env user ch n = ground (
  arith,
  (start_bridge-SameMaps env.sub_ok ch (track_user user (joined_name env user n) ch n)).same_users,
)

has_self : (user name : Bytes) (us : Users) → has user (insert user name us) ≡ true
unfolding has
has_self user name us = rw (lookup-insert_self user name us)

module _ (env : JoinEnv) (user : Bytes) (ch : ℕ) (m : Manager) where
  abbrev pub others : List (ℕ × Users)
  others = (leave_others user ch m.matrix_users).0

  abbrev pub stops : List ℕ
  stops = (leave_others user ch m.matrix_users).1

  -- The manager between the loop over the other channels and the join itself.
  abbrev pub moved : Manager
  moved =
      (stop_all stops (record m {
        stop_timers = cancel_timers stops (delete ch m.stop_timers);
        matrix_users = others;
      })).0

  moved-users : moved.matrix_users ≡ others
  moved-users = (stop_all-SameMaps stops _).same_users

  pub users_of-moved : users_of ch moved ≡ in_map ch others
  unfolding users_of
  users_of-moved = ap (in_map ch) moved-users

  pub on_join-enter : (on_join env user ch m).0 ≡ (enter env user ch moved).0
  unfolding on_join
  on_join-enter = refl

  pub joined_users : (on_join env user ch m).0.matrix_users ≡ (
      if has user (in_map ch others)
      then others
      else insert ch (insert user (joined_name env user moved) (in_map ch others)) others)
  joined_users =
      ap (λ (n : Manager). n.matrix_users) on_join-enter
      ∙ enter-users env user ch moved
      ∙ rw (users_of-moved, moved-users)

  -- A join leaves the user tracked in the room's channel, and in no other.
  pub join_moves_user :
      (has user (users_of ch (on_join env user ch m).0) ≡ true)
      × ((other : ℕ) → other ≢ ch → has user (users_of other (on_join env user ch m).0) ≡ false)
  unfolding users_of
  join_moves_user = (
    ground (
      arith,
      joined_users,
      lookup-insert_self ch (insert user (joined_name env user moved) (in_map ch others)) others,
      has_self user (joined_name env user moved) (in_map ch others),
    ),
    λ other ne. ground (
      arith,
      joined_users,
      lookup-insert_ne ch other (insert user (joined_name env user moved) (in_map ch others))
          others,
      leave_others-gone user ch other m.matrix_users ne,
      ne,
    ),
  )
