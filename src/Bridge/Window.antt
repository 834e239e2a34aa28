-- ===== src/Bridge/Window.antt =====
-- pkg/bridge/manager.go: a join between the two sections of the debounce timer's callback.
use matrix_discord_voice_bri.Base.{
  ℕ, ◌≡◌, refl, ◌∙◌, true, false, [], if◌then◌else◌, arith, ap, nat_beq_iff,
}
use matrix_discord_voice_bri.Base.Eq.{Bytes, nat_eq, bytes_eq}
use matrix_discord_voice_bri.Base.Assoc.{has, delete}
use matrix_discord_voice_bri.Bridge.State.{Manager}
use matrix_discord_voice_bri.Bridge.Stop.{stop_bridge}
use matrix_discord_voice_bri.Bridge.Frame.{stop_bridge-SameMaps}
use matrix_discord_voice_bri.Bridge.Call.{
  JoinEnv, on_join, enter, users_of, cancel_timers, or_empty, timer_check, timer_fired, is_empty,
}
use matrix_discord_voice_bri.Bridge.Moves.{in_map, leave_others-same}
use matrix_discord_voice_bri.Bridge.Joins.{
  join_moves_user, moved, users_of-moved, on_join-enter, stops, others,
}
use matrix_discord_voice_bri.Bridge.Debounce.{stop_bridge-has}
use matrix_discord_voice_bri.Bridge.Shared.{stop_all-has}

-- The callback is its check, and then the stop where the check found nobody.
pub timer_fired-timer_check :
    (ch : ℕ) (m : Manager)
    → timer_fired ch m ≡ (
        if (timer_check ch m).1
        then stop_bridge ch (timer_check ch m).0
        else ((timer_check ch m).0, []))
unfolding timer_fired timer_check
timer_fired-timer_check ch m = refl

users_of-stop_bridge : (ch k : ℕ) (m : Manager) → users_of k (stop_bridge ch m).0 ≡ users_of k m
unfolding users_of
users_of-stop_bridge ch k m = ap (in_map k) (stop_bridge-SameMaps ch m).same_users

-- A join event of a user who is tracked in the channel starts no bridge.
tracked_join :
    (env : JoinEnv) (user : Bytes) (ch : ℕ) (n : Manager)
    → has user (users_of ch n) ≡ true
    → has ch n.active_bridges ≡ false
    → has ch (on_join env user ch n).0.active_bridges ≡ false
unfolding enter
tracked_join env user ch n tracked idle =
    let still : has user (users_of ch (moved env user ch n)) ≡ true =
      ap (has user)
        (users_of-moved env user ch n ∙ ap or_empty (leave_others-same user ch n.matrix_users))
      ∙ unfold users_of in tracked in
    let gone : has ch (moved env user ch n).active_bridges ≡ false = ground (
      arith,
      stop_all-has (stops env user ch n) ch (record n {
        stop_timers = cancel_timers (stops env user ch n) (delete ch n.stop_timers);
        matrix_users = others env user ch n;
      }),
      idle,
    ) in
    ap (λ (x : Manager). has ch x.active_bridges) (on_join-enter env user ch n) ∙ rw still gone

-- If nobody is tracked in a channel when its timer's callback checks, and a user joins before the
-- callback stops the bridge, then afterwards the user is tracked in the channel, the channel has no
-- bridge, and further join events of the user there start none.
pub late_stop_strands_user :
    (env later : JoinEnv) (user : Bytes) (ch : ℕ) (m : Manager)
    → is_empty (users_of ch m) ≡ true
    → let checked = timer_check ch m in
      let n = (stop_bridge ch (on_join env user ch checked.0).0).0 in
      (checked.1 ≡ true)
      × (has user (users_of ch n) ≡ true)
      × (has ch n.active_bridges ≡ false)
      × (has ch (on_join later user ch n).0.active_bridges ≡ false)
unfolding timer_check
late_stop_strands_user env later user ch m nobody =
    let joined = (on_join env user ch (timer_check ch m).0).0 in
    let tracked : has user (users_of ch (stop_bridge ch joined).0) ≡ true =
      rw (users_of-stop_bridge ch ch joined) (join_moves_user env user ch (timer_check ch m).0).0 in
    let idle : has ch (stop_bridge ch joined).0.active_bridges ≡ false =
      stop_bridge-has ch ch joined ∙ ground (arith, nat_beq_iff ch ch) in
    (nobody, tracked, idle, tracked_join later user ch (stop_bridge ch joined).0 tracked idle)
