-- ===== src/Process/Ending.antt =====
-- cmd/bridge/main.go: what the end of `run` leaves of the manager, and how long it takes.
use matrix_discord_voice_bri.Base.{
  ℕ, ◌≡◌, ◌≢◌, refl, ◌∙◌, ap, Bool, true, false, not, any, ◌||◌, ◌&&◌, List, [], ◌∷◌, ◌++◌, map,
  All, All-map, arith, if◌then◌else◌, on_branches,
}
use matrix_discord_voice_bri.Base.Eq.{nat_eq, elem}
use matrix_discord_voice_bri.Bridge.State.{Manager}
use matrix_discord_voice_bri.Bridge.Stop.{close}
use matrix_discord_voice_bri.Bridge.Invariant.{Inv}
use matrix_discord_voice_bri.Bridge.Keeps.{slot_death-keeps}
use matrix_discord_voice_bri.Bridge.Death.{IsDead, close-IsDead}
use matrix_discord_voice_bri.Bridge.Closing.{Closed, close-Closed}
use matrix_discord_voice_bri.Process.Survival.{HasSlot}
use matrix_discord_voice_bri.Process.Launch.{
  Act, is_warning, warn_readers, sigterm, sigkill, close_server, close_connection, manager,
  close_database, Kept,
}
use matrix_discord_voice_bri.Process.Shutdown.{
  Why, sync_failed, cancelled, primary_died, Ending, wait_readers, wait_for_end, close_initial,
  clean_up, run_end, closed_by, indices, is_error, is_cancelled,
}
use matrix_discord_voice_bri.Process.Waiting.{Gentle, wait_keeps, wait_kills, wait_over}

abbrev pub warns : List Act → Bool
warns = any is_warning

warns-append : (xs ys : List Act) → warns (xs ++ ys) ≡ (warns xs || warns ys)
warns-append [] ys = refl
warns-append (x ∷ xs) ys = ground (arith, warns-append xs ys)

warns-map :
    {A : Type 0} (f : A → Act)
    → ((a : A) → is_warning (f a) ≡ false)
    → (xs : List A) → warns (map f xs) ≡ false
warns-map f quiet [] = refl
warns-map f quiet (x ∷ xs) = rw (quiet x) (warns-map f quiet xs)

warns-close_initial : (told : ℕ → Bool) (is : List ℕ) → warns (close_initial told is) ≡ false
unfolding close_initial
warns-close_initial told [] = refl
warns-close_initial told (i ∷ is) =
    on_branches (λ x. warns (x ++ close_connection i ∷ close_initial told is) ≡ false) (told i)
      (λ e. warns-close_initial told is) (λ e. warns-close_initial told is)

closed_by-close_initial : (told : ℕ → Bool) (is : List ℕ) → closed_by (close_initial told is) ≡ is
unfolding close_initial
closed_by-close_initial told [] = refl
closed_by-close_initial told (i ∷ is) =
    on_branches (λ x. closed_by (x ++ close_connection i ∷ close_initial told is) ≡ i ∷ is) (told i)
      (λ e. ap (◌∷◌ i) (closed_by-close_initial told is))
      (λ e. ap (◌∷◌ i) (closed_by-close_initial told is))

warns-clean_up : (exits : Bool) (kept : Kept) → warns (clean_up exits kept) ≡ false
unfolding clean_up
warns-clean_up exits kept =
    let is = indices kept.slots in
    let killed = if exits then [] else map sigkill kept.cmds in
    let last = map close_server kept.servers ++ map close_connection is in
    ground (
      arith,
      warns-append (map sigterm kept.cmds) (killed ++ last),
      warns-append killed last,
      warns-append (map close_server kept.servers) (map close_connection is),
      warns-map sigterm (λ i. refl) kept.cmds,
      warns-map sigkill (λ i. refl) kept.cmds,
      warns-map close_server (λ i. refl) kept.servers,
      warns-map close_connection (λ i. refl) is,
    )

-- The deferred calls warn of nothing.
warns-run_end :
    (e : Ending) (kept : Kept) (m : Manager)
    → warns (run_end e kept m).acts ≡ warns (wait_for_end e (indices kept.slots) m).1
unfolding run_end
warns-run_end e kept m =
    let waited = (wait_for_end e (indices kept.slots) m).1 in
    let asked = (close (wait_for_end e (indices kept.slots) m).0).1 in
    ground (
      arith,
      warns-append waited (map manager asked ++ (clean_up e.exits kept ++ close_database ∷ [])),
      warns-append (map manager asked) (clean_up e.exits kept ++ close_database ∷ []),
      warns-append (clean_up e.exits kept) (close_database ∷ []),
      warns-map manager (λ x. refl) asked,
      warns-clean_up e.exits kept,
    )

-- The loops that go on: those that are still handling a message, and those of bots that were added
-- later, on connections that stay open.
abbrev pub reading : Ending → List ℕ → Bool
reading e initial =
    any (λ w. w.busy || (not (w.quits || elem w.slot initial) && e.stays_open w.slot)) e.watchers

warns-waited :
    (told : ℕ → Bool) (initial : List ℕ) (in_time late : Bool)
    → in_time ≡ not late
    → warns (close_initial told initial ++ (if in_time then [] else warn_readers ∷ [])) ≡ late
warns-waited told initial in_time late h = ground (
  arith,
  warns-append (close_initial told initial) (if in_time then [] else warn_readers ∷ []),
  warns-close_initial told initial,
)

-- However `run` ends after its start, by a signal or by the death of the primary sidecar, it waits
-- out its ten seconds and warns exactly when a read loop is still handling a message then, or when that
-- of a bot that was added while it ran has read no SHUTDOWN and its connection stays open; a loop of
-- an initial slot that is handling none does not make it wait, since `run` closes its connection.
pub run_end-warns :
    (e : Ending) (kept : Kept) (m : Manager)
    → e.why ≢ sync_failed
    → warns (run_end e kept m).acts ≡ reading e (indices kept.slots)
run_end-warns e kept m started = warns-run_end e kept m ∙ waited e.why refl
  where
    over :
        (told : ℕ → Bool) (done : Bool)
        → (wait_readers
            (closed_by (close_initial told (indices kept.slots)))
            e.stays_open
            done
            e.watchers
            m).1
          ≡ not (reading e (indices kept.slots))
    over told done =
        wait_over (closed_by (close_initial told (indices kept.slots))) e.stays_open done e.watchers
          m
        ∙ ap
            (λ is. not (
              any (λ w. w.busy || (not (w.quits || elem w.slot is) && e.stays_open w.slot))
                e.watchers))
            (closed_by-close_initial told (indices kept.slots))

    waited :
        (y : Why)
        → e.why ≡ y
        → warns (wait_for_end e (indices kept.slots) m).1 ≡ reading e (indices kept.slots)
    waited sync_failed why = absurd (started why)
    waited cancelled why =
        unfold wait_for_end in
        rw why (
          warns-waited e.told (indices kept.slots) _ (reading e (indices kept.slots))
            (over e.told true))
    waited primary_died why =
        unfold wait_for_end in
        rw why (
          warns-waited (λ i. false) (indices kept.slots) _ (reading e (indices kept.slots))
            (over (λ i. false) false))

-- However `run` ends, with slots and bridges in order before, and whatever the manager's other calls
-- do until then that keeps them in order, leaves dead slots dead and drops no slot: it leaves no
-- bridge, no timer and no busy slot. It returns an error unless the context was done. When the primary
-- sidecar died, every initial slot whose reader was still running is dead, unless that reader got a
-- SHUTDOWN or was still handling a message.
pub run_end-clears :
    (e : Ending) (kept : Kept) (m : Manager)
    → Inv m
    → All Gentle e.watchers
    → Closed (run_end e kept m).mem
      × ((run_end e kept m).error ≡ not (is_cancelled e.why))
      × (e.why ≡ primary_died
          → All
              (λ w.
                elem w.slot (indices kept.slots) ≡ true
                → w.quits ≡ false
                → w.busy ≡ false
                → HasSlot w.slot m
                → IsDead w.slot (run_end e kept m).mem)
              e.watchers)
unfolding run_end
run_end-clears e kept m v calm = (
  close-Closed (wait_for_end e (indices kept.slots) m).0 (waited e.why refl),
  reported e.why,
  λ why.
      All-map
        (λ w kill shut stays idle there.
          close-IsDead w.slot (wait_for_end e (indices kept.slots) m).0 (
            unfold wait_for_end in
            rw why (
              kill (rw (closed_by-close_initial (λ i. false) (indices kept.slots)) shut) stays idle
                there)))
        e.watchers
        (wait_kills (closed_by (close_initial (λ i. false) (indices kept.slots))) e.stays_open
          e.watchers m calm),
)
  where
    orderly :
        (told : ℕ → Bool) (done : Bool)
        → Inv
            (wait_readers
              (closed_by (close_initial told (indices kept.slots)))
              e.stays_open
              done
              e.watchers
              m).0
    orderly told done =
        wait_keeps (closed_by (close_initial told (indices kept.slots))) e.stays_open done Inv
          (λ i n w. slot_death-keeps i n w) e.watchers
          (All-map (λ x g. g.keeps_order) e.watchers calm) m v

    reported : (y : Why) → is_error y ≡ not (is_cancelled y)
    reported sync_failed = refl
    reported cancelled = refl
    reported primary_died = refl

    waited : (y : Why) → e.why ≡ y → Inv (wait_for_end e (indices kept.slots) m).0
    waited sync_failed why = unfold wait_for_end in rw why v
    waited cancelled why = unfold wait_for_end in rw why (orderly e.told true)
    waited primary_died why = unfold wait_for_end in rw why (orderly (λ i. false) false)
