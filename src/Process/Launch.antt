-- ===== src/Process/Launch.antt =====
-- cmd/bridge/main.go: the loop of `run` that starts a sidecar for each bot, with what it opens and
-- starts on the way.
use matrix_discord_voice_bri.Base.{
  ℕ, suc, Bool, true, false, Option, none, some, List, [], ◌∷◌, ◌++◌,
}
use matrix_discord_voice_bri.Base.Eq.{Bytes, ◌==◌, nat_eq}
use matrix_discord_voice_bri.Store.{Bot}
use matrix_discord_voice_bri.Bridge.State.{Slot, Effect}
use matrix_discord_voice_bri.Process.Boot.{slot_for}

-- How far a bot's sidecar comes: `NewServer` fails, `StartSidecar` fails, `Accept` fails, or it
-- connects.
pub data Arrival : Type 0 where
  no_socket no_process no_connection connects : Arrival

abbrev pub is_connected : Arrival → Bool
is_connected connects = true
is_connected no_socket = false
is_connected no_process = false
is_connected no_connection = false

-- What `run` does to sockets, processes and connections, in order. A sidecar's process, its server
-- and its connection go by the index of its slot; `manager` is what `Close` asks for, or a SHUTDOWN;
-- what the death of a slot asks for is left out.
pub data Act : Type 0 where
  listen : ℕ → Act
  close_server : ℕ → Act
  spawn : ℕ → Bytes → Bool → Act  -- the bot's token, and whether it is the primary
  sigterm : ℕ → Act
  sigkill : ℕ → Act
  accept : ℕ → Act
  close_connection : ℕ → Act
  warn_readers : Act
  manager : Effect → Act
  close_database : Act

-- Whether it is the warning that the readers did not end in time.
abbrev pub is_warning : Act → Bool
is_warning act = elim act [ warn_readers ↦ true | _ ↦ false ]

-- One round of the loop.
unfoldable pub arrive_acts : Arrival → ℕ → Bot → List Act
arrive_acts no_socket i bot = []
arrive_acts no_process i bot = listen i ∷ close_server i ∷ []
arrive_acts no_connection i bot = listen i ∷ spawn i bot.token (i == 0) ∷ []
arrive_acts connects i bot = listen i ∷ spawn i bot.token (i == 0) ∷ accept i ∷ []

-- The three lists that the loop appends to: the processes (`cmds`), the servers, and the slots.
pub record Kept : Type 0 where
  pub cmds : List ℕ
  pub servers : List ℕ
  pub slots : List Slot

abbrev pub keep : ℕ → Bot → Option Kept → Option Kept
keep i bot none = none
keep i bot (some k) =
    some (record { cmds = i ∷ k.cmds; servers = i ∷ k.servers; slots = slot_for i bot ∷ k.slots })

-- A round, with what the rounds after it come to; `none` is the error with which `run` returns.
unfoldable pub then_rest : Arrival → ℕ → Bot → List Act × Option Kept → List Act × Option Kept
then_rest no_socket i bot rest = (arrive_acts no_socket i bot, none)
then_rest no_process i bot rest = (arrive_acts no_process i bot, none)
then_rest no_connection i bot rest = (arrive_acts no_connection i bot, none)
then_rest connects i bot (acts, kept) = (arrive_acts connects i bot ++ acts, keep i bot kept)

unfoldable pub launch : (ℕ → Arrival) → ℕ → List Bot → List Act × Option Kept
launch arrival i [] = ([], some (record { cmds = []; servers = []; slots = [] }))
launch arrival i (bot ∷ bots) = then_rest (arrival i) i bot (launch arrival (suc i) bots)
