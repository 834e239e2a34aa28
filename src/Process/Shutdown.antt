-- ===== src/Process/Shutdown.antt =====
-- cmd/bridge/main.go: the end of `run`: the wait for the readers, and what is deferred.
use matrix_discord_voice_bri.Base.{
  ℕ, Bool, true, false, Option, none, some, List, [], ◌∷◌, ◌++◌, map, if◌then◌else◌, ◌||◌,
}
use matrix_discord_voice_bri.Base.Eq.{nat_eq, elem}
use matrix_discord_voice_bri.Store.{Bot}
use matrix_discord_voice_bri.Bridge.State.{Manager, Slot, send}
use matrix_discord_voice_bri.Bridge.Stop.{close, shutdown_message}
use matrix_discord_voice_bri.Process.Reader.{Round, again, over, panics, read_failed}
use matrix_discord_voice_bri.Process.Launch.{
  Arrival, Act, close_server, sigterm, sigkill, close_connection, warn_readers, manager,
  close_database, Kept, launch,
}

-- A read loop that still runs, of a slot that the process started with or that was added later.
-- `before` is what the manager's calls, those for the messages that the loops go on reading included,
-- make of it from the end of the loop before to the end of this one, or to the end of the ten
-- seconds; `quits` tells whether it reads a SHUTDOWN meanwhile, `busy` whether the handling of a message
-- keeps it for longer than that.
pub record Watcher : Type 0 where
  pub slot : ℕ
  pub primary : Bool
  pub before : Manager → Manager
  pub quits : Bool
  pub busy : Bool

-- Why `run` returns once the manager is made: `StartSync` failed, the context is done, or the reader
-- of the primary slot sent its error.
pub data Why : Type 0 where
  sync_failed cancelled primary_died : Why

abbrev pub is_cancelled : Why → Bool
is_cancelled sync_failed = false
is_cancelled cancelled = true
is_cancelled primary_died = false

abbrev pub is_error : Why → Bool
is_error sync_failed = true
is_error cancelled = false
is_error primary_died = true

-- What the surroundings do meanwhile. `watchers` are the read loops in the order in which they end; `told` tells which slots get their SHUTDOWN, from a goroutine of its own, before `run` closes
-- their connection; `stays_open` tells which sidecars keep an open connection for ten seconds; `exits` whether the
-- sidecars' processes end within five seconds of SIGTERM.
pub record Ending : Type 0 where
  pub why : Why
  pub watchers : List Watcher
  pub told : ℕ → Bool
  pub stays_open : ℕ → Bool
  pub exits : Bool

abbrev pub state_after : Round → Manager → Manager
state_after (again rest n) m = n
state_after (over n e) m = n
state_after panics m = m

-- The end of a loop: a SHUTDOWN, or the failed read on a closed connection.
unfoldable pub watcher_ends : Bool → Watcher → Manager → Manager
watcher_ends done w m =
    if w.quits
    then m
    else state_after
        (read_failed
          (record {
            slot = w.slot;
            primary = w.primary;
            done = done;
            created = λ n. none;
            between = λ n x. x;
          })
          0 m)
        m

-- Whether a read loop goes on for the ten seconds once the connections of the slots in the list are
-- closed: reading from a closed one fails.
unfoldable pub reads_on : List ℕ → (ℕ → Bool) → Watcher → Bool
reads_on closed stays_open w =
    w.busy || (if w.quits || elem w.slot closed then false else stays_open w.slot)

-- Ten seconds of `wg.Wait`: the state then, and whether the wait is over.
unfoldable pub wait_readers : List ℕ → (ℕ → Bool) → Bool → List Watcher → Manager → Manager × Bool
wait_readers closed stays_open done [] m = (m, true)
wait_readers closed stays_open done (w ∷ ws) m =
    let met = w.before m in
    let m' = if reads_on closed stays_open w then met else watcher_ends done w met in
    let (m'', in_time) = wait_readers closed stays_open done ws m' in
    (m'', if reads_on closed stays_open w then false else in_time)

-- Closing the initial connections, with the SHUTDOWN before where it came in time.
unfoldable pub close_initial : (ℕ → Bool) → List ℕ → List Act
close_initial told [] = []
close_initial told (i ∷ is) =
    (if told i then manager (send i shutdown_message) ∷ [] else [])
    ++ close_connection i ∷ close_initial told is

-- The connections that some acts close.
abbrev pub closed_by : List Act → List ℕ
closed_by [] = []
closed_by (a ∷ acts) = elim a [ close_connection i ↦ i ∷ closed_by acts | _ ↦ closed_by acts ]

-- The `select` on `ctx.Done()` and `errCh`, over the indices of the initial slots.
unfoldable pub wait_for_end : Ending → List ℕ → Manager → Manager × List Act
wait_for_end e initial m = elim e.why [
  | sync_failed ↦ (m, [])
  | cancelled ↦ closing e.told
  | primary_died ↦ closing (λ i. false)
]
  where
    closing : (ℕ → Bool) → Manager × List Act
    closing told =
        let acts = close_initial told initial in
        let (m', in_time) =
          wait_readers (closed_by acts) e.stays_open (is_cancelled e.why) e.watchers m in
        (m', acts ++ (if in_time then [] else warn_readers ∷ []))

abbrev pub indices : List Slot → List ℕ
indices = map (λ s. s.index)

-- The deferred cleanup of sidecars, over the processes, the servers and the slots.
unfoldable pub clean_up : Bool → Kept → List Act
clean_up exits kept =
    map sigterm kept.cmds
    ++ ((if exits then [] else map sigkill kept.cmds)
        ++ (map close_server kept.servers ++ map close_connection (indices kept.slots)))

pub record Finished : Type 0 where
  pub mem : Manager
  pub acts : List Act
  pub error : Bool

-- What `run` does once the manager is made and its readers run: the wait, then the deferred calls,
-- the last deferred one first.
unfoldable pub run_end : Ending → Kept → Manager → Finished
run_end e kept m =
    let (m', waited) = wait_for_end e (indices kept.slots) m in
    let (m'', asked) = close m' in
    record {
      mem = m'';
      acts = waited ++ (map manager asked ++ (clean_up e.exits kept ++ close_database ∷ []));
      error = is_error e.why;
    }

-- `run` from the start of the sidecars on. `work` is what the calls until the end make of the
-- manager of the slots.
unfoldable pub run_acts : (ℕ → Arrival) → Ending → (List Slot → Manager) → List Bot → List Act
run_acts arrival e work bots = ended (launch arrival 0 bots)
  where
    ended : List Act × Option Kept → List Act
    ended (acts, none) = acts ++ close_database ∷ []
    ended (acts, some kept) = acts ++ (run_end e kept (work kept.slots)).acts
