-- ===== src/Bridge/Debounce.antt =====
-- When the calls of `OnMatrixCallMember` and its debounce timer in pkg/bridge/manager.go stop a
-- bridge.
use matrix_discord_voice_bri.Base.{
  ℕ, ◌≡◌, refl, ap, ◌∙◌, true, false, Option, none, some, [], ◌∷◌, arith, if◌then◌else◌,
  nat_beq_iff,
}
use matrix_discord_voice_bri.Base.Eq.{Bytes, ◌==◌, nat_eq, bytes_eq}
use matrix_discord_voice_bri.Base.Assoc.{
  lookup, insert, delete, has, lookup-delete, lookup-insert_self, lookup-delete_self,
}
use matrix_discord_voice_bri.Bridge.State.{Manager}
use matrix_discord_voice_bri.Bridge.Stop.{stop_bridge, release, release_bridge}
use matrix_discord_voice_bri.Bridge.Call.{
  Users, or_empty, JoinEnv, on_join, on_leave, users_of, is_empty, timer_fired, untrack, set_timer,
}
use matrix_discord_voice_bri.Bridge.Joins.{join_moves_user}

pub stop_bridge-has :
    (ch k : ℕ) (m : Manager)
    → has k (stop_bridge ch m).0.active_bridges
      ≡ (if ch == k then false else has k m.active_bridges)
unfolding stop_bridge release release_bridge has
stop_bridge-has ch k m = ground (arith, lookup-delete ch k m.active_bridges)

nonempty : (user : Bytes) (us : Users) → has user us ≡ true → is_empty us ≡ false
unfolding has lookup
nonempty user [] h = cc
nonempty user (u ∷ us) h = refl

-- A debounce timer of a channel that fires right after a join of the channel stops nothing.
pub join_survives_timer :
    (env : JoinEnv) (user : Bytes) (ch : ℕ) (m : Manager)
    → let n = (on_join env user ch m).0 in
      timer_fired ch n ≡ (record n { stop_timers = delete ch n.stop_timers }, [])
unfolding timer_fired
join_survives_timer env user ch m =
    let n = (on_join env user ch m).0 in
    rw (nonempty user (users_of ch n) (join_moves_user env user ch m).0)

untrack-rest :
    (o : Option Users) (user : Bytes) (ch : ℕ) (m : Manager)
    → ((untrack o user ch m).active_bridges ≡ m.active_bridges)
      × ((untrack o user ch m).slots ≡ m.slots)
unfolding untrack
untrack-rest none user ch m = (refl, refl)
untrack-rest (some us) user ch m = (refl, refl)

untrack-users :
    (o : Option Users) (user : Bytes) (ch : ℕ) (m : Manager)
    → lookup ch m.matrix_users ≡ o
    → is_empty (users_of ch (untrack o user ch m)) ≡ is_empty (delete user (or_empty o))
unfolding untrack users_of delete
untrack-users none user ch m e = ap (λ p. is_empty (or_empty p)) e
untrack-users (some us) user ch m e = ground (
  arith,
  lookup-delete_self ch m.matrix_users,
  lookup-insert_self ch (delete user us) m.matrix_users,
)

-- When the last tracked user of a channel leaves, the bridges and the slots stay as they are and a
-- timer is set; if the timer fires then, the channel has no bridge any more.
pub leave_debounced :
    (user : Bytes) (ch : ℕ) (m : Manager)
    → is_empty (delete user (users_of ch m)) ≡ true
    → let n = (on_leave user ch m).0 in
      (n.active_bridges ≡ m.active_bridges)
      × (n.slots ≡ m.slots)
      × (lookup ch n.stop_timers ≡ some true)
      × (has ch (timer_fired ch n).0.active_bridges ≡ false)
unfolding on_leave set_timer timer_fired users_of
leave_debounced user ch m last =
    let o = lookup ch m.matrix_users in
    let u = untrack o user ch m in
    let empty : is_empty (users_of ch u) ≡ true = untrack-users o user ch m refl ∙ last in
    ground (
      arith,
      empty,
      untrack-rest o user ch m,
      lookup-insert_self ch true u.stop_timers,
      stop_bridge-has ch ch (record u { stop_timers = delete ch (insert ch true u.stop_timers) }),
      nat_beq_iff ch ch,
    )
