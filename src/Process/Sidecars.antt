-- ===== src/Process/Sidecars.antt =====
-- cmd/bridge/main.go: which of the sidecars' processes that `run` starts it also ends.
use matrix_discord_voice_bri.Base.{
  ℕ, ◌+◌, ◌<◌, ◌≡◌, ◌≢◌, refl, sym, ◌∙◌, some, List, [], ◌∷◌, ◌++◌, map, arith, length,
  if◌then◌else◌, on_branches, append-nil, Bool, false,
}
use matrix_discord_voice_bri.Base.Eq.{nat_eq}
use matrix_discord_voice_bri.Store.{Bot}
use matrix_discord_voice_bri.Bridge.State.{Manager, Slot, Effect}
use matrix_discord_voice_bri.Bridge.Stop.{close}
use matrix_discord_voice_bri.Process.Launch.{
  Arrival, connects, Act, close_server, sigterm, sigkill, close_connection, warn_readers, manager,
  close_database, Kept, launch,
}
use matrix_discord_voice_bri.Process.Shutdown.{
  Ending, Why, sync_failed, cancelled, primary_died, close_initial, wait_for_end, clean_up, run_end,
  indices, run_acts,
}
use matrix_discord_voice_bri.Process.Spawned.{
  spawned_by, terminated_by, collect, spawned, terminated, collect-append, collect-quiet,
  terminated-sigterm, launch-terminated, launch-spawned, launch-cmds, launch-fails, count_from,
  left_over,
}

module _ (f : Act → List ℕ) (closes : (i : ℕ) → f (close_connection i) ≡ [])
    (asks : (e : Effect) → f (manager e) ≡ []) (quiet : f warn_readers ≡ []) where
  collect-close_initial : (told : ℕ → Bool) (is : List ℕ) → collect f (close_initial told is) ≡ []
  unfolding close_initial
  collect-close_initial told [] = refl
  collect-close_initial told (i ∷ is) =
      on_branches (λ x. collect f (x ++ close_connection i ∷ close_initial told is) ≡ []) (told i)
        (λ e. rw (asks, closes) (collect-close_initial told is))
        (λ e. rw closes (collect-close_initial told is))

  collect-wait_for_end :
      (e : Ending) (is : List ℕ) (m : Manager) → collect f (wait_for_end e is m).1 ≡ []
  unfolding wait_for_end
  collect-wait_for_end e is m = waited e.why
    where
      closed :
          (told : ℕ → Bool) (in_time : Bool)
          → collect f (close_initial told is ++ (if in_time then [] else warn_readers ∷ [])) ≡ []
      closed told in_time =
          collect-append f (close_initial told is) (if in_time then [] else warn_readers ∷ [])
          ∙ rw (collect-close_initial told is)
              (on_branches (λ x. collect f x ≡ []) in_time (λ h. refl) (λ h. rw quiet refl))

      waited : (y : Why) → collect f (wait_for_end (record e { why = y }) is m).1 ≡ []
      waited sync_failed = refl
      waited cancelled = closed e.told _
      waited primary_died = closed (λ i. false) _

  collect-run_end :
      (e : Ending) (kept : Kept) (m : Manager)
      → f close_database ≡ []
      → collect f (run_end e kept m).acts ≡ collect f (clean_up e.exits kept)
  unfolding run_end
  collect-run_end e kept m no_database =
      let is = indices kept.slots in
      let asked = map manager (close (wait_for_end e is m).0).1 in
      let rest = clean_up e.exits kept ++ close_database ∷ [] in
      collect-append f (wait_for_end e is m).1 (asked ++ rest)
      ∙ rw (collect-wait_for_end e is m) (
          collect-append f asked rest
          ∙ rw (collect-quiet f manager asks (close (wait_for_end e is m).0).1) (
              collect-append f (clean_up e.exits kept) (close_database ∷ [])
              ∙ rw no_database (append-nil (collect f (clean_up e.exits kept)))))

collect-clean_up :
    (f : Act → List ℕ) (exits : Bool) (kept : Kept)
    → ((i : ℕ) → f (sigkill i) ≡ [])
    → ((i : ℕ) → f (close_server i) ≡ [])
    → ((i : ℕ) → f (close_connection i) ≡ [])
    → collect f (clean_up exits kept) ≡ collect f (map sigterm kept.cmds)
unfolding clean_up
collect-clean_up f exits kept kills servers closes =
    let is = indices kept.slots in
    let last = map close_server kept.servers ++ map close_connection is in
    let killed = if exits then [] else map sigkill kept.cmds in
    let none_else : collect f (killed ++ last) ≡ [] =
      collect-append f killed last
      ∙ rw
          (
            on_branches (λ x. collect f x ≡ []) exits (λ e. refl)
                (λ e. collect-quiet f sigkill kills kept.cmds),
            collect-append f (map close_server kept.servers) (map close_connection is),
            collect-quiet f close_server servers kept.servers,
            collect-quiet f close_connection closes is,
          )
          refl in
    collect-append f (map sigterm kept.cmds) (killed ++ last)
    ∙ rw none_else (append-nil (collect f (map sigterm kept.cmds)))

run_end-terminated :
    (e : Ending) (kept : Kept) (m : Manager) → terminated (run_end e kept m).acts ≡ kept.cmds
run_end-terminated e kept m =
    collect-run_end terminated_by (λ i. refl) (λ x. refl) refl e kept m refl
    ∙ collect-clean_up terminated_by e.exits kept (λ i. refl) (λ i. refl) (λ i. refl)
    ∙ terminated-sigterm kept.cmds

run_end-spawned : (e : Ending) (kept : Kept) (m : Manager) → spawned (run_end e kept m).acts ≡ []
run_end-spawned e kept m =
    collect-run_end spawned_by (λ i. refl) (λ x. refl) refl e kept m refl
    ∙ collect-clean_up spawned_by e.exits kept (λ i. refl) (λ i. refl) (λ i. refl)
    ∙ collect-quiet spawned_by sigterm (λ i. refl) kept.cmds

-- When every sidecar connects, then however `run` ends it sends SIGTERM to exactly the processes
-- that it started, in the order in which it started them, and they are those of its slots.
pub run_acts-terminated :
    (arrival : ℕ → Arrival) (e : Ending) (work : List Slot → Manager) (bots : List Bot)
    (kept : Kept)
    → (launch arrival 0 bots).1 ≡ some kept
    → (terminated (run_acts arrival e work bots) ≡ spawned (run_acts arrival e work bots))
      × (spawned (run_acts arrival e work bots) ≡ indices kept.slots)
unfolding run_acts
run_acts-terminated arrival e work bots kept up =
    let acts = (launch arrival 0 bots).0 in
    let ending = (run_end e kept (work kept.slots)).acts in
    let started : spawned (acts ++ ending) ≡ spawned acts =
      collect-append spawned_by acts ending
      ∙ rw (run_end-spawned e kept (work kept.slots)) (append-nil (spawned acts)) in
    let ended : terminated (acts ++ ending) ≡ kept.cmds =
      collect-append terminated_by acts ending
      ∙ rw (launch-terminated arrival 0 bots) (run_end-terminated e kept (work kept.slots)) in
    rw up (
      ended ∙ sym (started ∙ launch-cmds arrival 0 bots kept up),
      started ∙ launch-spawned arrival 0 bots kept up,
    )

-- When the first bots connect and a further one fails to, `run` sends SIGTERM to no process, though
-- it started one for each bot before, and one for the failing bot if only its connection is missing.
pub failed_start_leaves_sidecars :
    (arrival : ℕ → Arrival) (e : Ending) (work : List Slot → Manager) (bots : List Bot) (k : ℕ)
    → k < length bots
    → ((j : ℕ) → j < k → arrival j ≡ connects)
    → arrival k ≢ connects
    → (terminated (run_acts arrival e work bots) ≡ [])
      × (spawned (run_acts arrival e work bots) ≡ count_from 0 (k + left_over (arrival k)))
unfolding run_acts
failed_start_leaves_sidecars arrival e work bots k there before fails =
    let acts = (launch arrival 0 bots).0 in
    let (started, down) =
      launch-fails arrival 0 k k bots (omega arith) there (λ j least less. before j less) fails in
    rw down (
      collect-append terminated_by acts (close_database ∷ [])
          ∙ rw (launch-terminated arrival 0 bots) refl,
      collect-append spawned_by acts (close_database ∷ []) ∙ append-nil (spawned acts) ∙ started,
    )
