-- ===== src/Examples/Endings.antt =====
-- cmd/bridge/main.go: starts and ends of a process with two bots.
use matrix_discord_voice_bri.Base.{
  ℕ, zero, suc, ◌<◌, ◌≡◌, refl, ◌∙◌, true, false, none, some, List, [], ◌∷◌, arith, All,
}
use matrix_discord_voice_bri.Base.Eq.{◌==◌, nat_eq, elem}
use matrix_discord_voice_bri.Base.Text.{text}
use matrix_discord_voice_bri.Store.{Bot}
use matrix_discord_voice_bri.Bridge.State.{Manager, Slot, new_manager}
use matrix_discord_voice_bri.Bridge.Stop.{stop_bridge}
use matrix_discord_voice_bri.Bridge.Death.{IsDead, stop_bridge-IsDead}
use matrix_discord_voice_bri.Bridge.Keeps.{stop_bridge-keeps}
use matrix_discord_voice_bri.Process.Waiting.{Gentle, stop_bridge-slot}
use matrix_discord_voice_bri.Bridge.Closing.{Closed}
use matrix_discord_voice_bri.Process.Boot.{slot_for}
use matrix_discord_voice_bri.Process.Survival.{HasSlot}
use matrix_discord_voice_bri.Process.Launch.{
  Kept, Arrival, connects, no_connection, launch, then_rest,
}
use matrix_discord_voice_bri.Process.Shutdown.{
  Ending, Watcher, primary_died, run_end, run_acts, indices,
}
use matrix_discord_voice_bri.Process.Ending.{warns, reading, run_end-warns, run_end-clears}
use matrix_discord_voice_bri.Process.Spawned.{spawned, terminated, count_from}
use matrix_discord_voice_bri.Process.Sidecars.{run_acts-terminated, failed_start_leaves_sidecars}
use matrix_discord_voice_bri.Ipc.Sidecar.{Environment, sidecar_env, read_settings}
use matrix_discord_voice_bri.Process.Started.{
  last_of, last_of-LastValue, settings_for, sidecar_env-read_settings,
}
use matrix_discord_voice_bri.Examples.Rooms.{ran, ran-Ready}

abbrev bot : ℕ → Bot
bot i = record { id = i; token = text "token"; guild_id = text "guild"; active = true }

abbrev two_kept : Kept
two_kept = record {
  cmds = 0 ∷ 1 ∷ [];
  servers = 0 ∷ 1 ∷ [];
  slots = slot_for 0 (bot 1) ∷ slot_for 1 (bot 2) ∷ [];
}

-- The reader of slot 1, before whose end the bridge of channel 7 is stopped.
abbrev dying : Watcher
dying = record {
  slot = 1;
  primary = false;
  before = λ m. (stop_bridge 7 m).0;
  quits = false;
  busy = false;
}

dying-Gentle : Gentle dying
dying-Gentle = record {
  keeps_order = λ m v. stop_bridge-keeps 7 m v;
  keeps_dead = λ i m h. stop_bridge-IsDead i 7 m h;
  keeps_slot = λ i m h. stop_bridge-slot i 7 m ∙ h;
}

-- That of slot 2, which was added later.
abbrev lasting : Watcher
lasting = record { slot = 2; primary = false; before = λ m. m; quits = false; busy = false }

lasting-Gentle : Gentle lasting
lasting-Gentle = record { keeps_order = λ m v. v; keeps_dead = λ i m h. h; keeps_slot = λ i m h. h }

-- The primary sidecar dies; two readers still run.
abbrev ending : Ending
ending = record {
  why = primary_died;
  watchers = dying ∷ lasting ∷ [];
  told = λ i. false;
  stays_open = λ i. i == 2;
  exits = true;
}

run_end-warns_example : warns (run_end ending two_kept ran).acts ≡ reading ending (0 ∷ 1 ∷ [])
run_end-warns_example = run_end-warns ending two_kept ran (λ e. ground (arith, e))

-- So the process does wait in vain.
ending-reading : reading ending (0 ∷ 1 ∷ []) ≡ true
unfolding elem
ending-reading = refl

run_end-clears_example :
    Closed (run_end ending two_kept ran).mem
    × ((run_end ending two_kept ran).error ≡ true)
    × (primary_died ≡ primary_died
        → All
            (λ w.
              elem w.slot (0 ∷ 1 ∷ []) ≡ true
              → w.quits ≡ false
              → w.busy ≡ false
              → HasSlot w.slot ran
              → IsDead w.slot (run_end ending two_kept ran).mem)
            (dying ∷ lasting ∷ []))
run_end-clears_example =
    run_end-clears ending two_kept ran ran-Ready.inv (dying-Gentle, (lasting-Gentle, tt))

abbrev bots : List Bot
bots = bot 1 ∷ bot 2 ∷ []

abbrev all_connect : ℕ → Arrival
all_connect i = connects

-- The second sidecar starts and never connects.
abbrev one_connects : ℕ → Arrival
one_connects zero = connects
one_connects (suc i) = no_connection

abbrev managed : List Slot → Manager
managed slots = new_manager slots true true

all_connect-launch : (launch all_connect 0 bots).1 ≡ some two_kept
unfolding launch then_rest
all_connect-launch = refl

run_acts-terminated_example :
    (terminated (run_acts all_connect ending managed bots)
      ≡ spawned (run_acts all_connect ending managed bots))
    × (spawned (run_acts all_connect ending managed bots) ≡ indices two_kept.slots)
run_acts-terminated_example =
    run_acts-terminated all_connect ending managed bots two_kept all_connect-launch

first_connects : (j : ℕ) → j < 1 → one_connects j ≡ connects
first_connects zero h = refl
first_connects (suc j) h = absurd (omega (arith, h))

failed_start_leaves_sidecars_example :
    (terminated (run_acts one_connects ending managed bots) ≡ [])
    × (spawned (run_acts one_connects ending managed bots) ≡ count_from 0 2)
failed_start_leaves_sidecars_example =
    failed_start_leaves_sidecars one_connects ending managed bots 1 (omega arith) first_connects
      (λ e. ground (arith, e))

-- The bridge runs with a log level of its own, which the sidecar does not take over.
abbrev own : Environment
own = (text "SIDECAR_LOG_LEVEL", text "trace") ∷ []

sidecar_env-read_settings_example :
    read_settings (λ name.
      last_of name
        (sidecar_env own (text "/run/bridge.1") (text "token") (text "guild") [] false 1))
    ≡ some (settings_for none (text "/run/bridge.1") (text "token") (text "guild") [] false 1)
sidecar_env-read_settings_example =
    sidecar_env-read_settings last_of last_of-LastValue own (text "/run/bridge.1") (text "token")
      (text "guild") [] false 1 (λ e. ground (arith, e)) (λ e. ground (arith, e))
      (λ e. ground (arith, e))
