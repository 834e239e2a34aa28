-- ===== src/Process/Reader.antt =====
-- cmd/bridge/main.go: the read loop of a slot, over the bytes that its sidecar sends. What other
-- goroutines do to the manager before a message is handled is an argument.
use matrix_discord_voice_bri.Base.{ℕ, zero, suc, Bool, Option, none, some, if◌then◌else◌}
use matrix_discord_voice_bri.Base.Eq.{Bytes, ◌==◌, nat_eq}
use matrix_discord_voice_bri.Ipc.Frame.{
  ReadResult, received, failed, read_message, msg_ready, msg_shutdown,
}
use matrix_discord_voice_bri.Bridge.State.{Manager}
use matrix_discord_voice_bri.Bridge.Stop.{slot_death}
use matrix_discord_voice_bri.Bridge.Messages.{Handled, handle_message}

-- How the loop ends: the context was done, the sidecar sent SHUTDOWN, or reading failed, which of the
-- primary slot is an error of the process.
pub data Ended : Type 0 where
  cancelled shut_down : Ended
  died : (reported : Bool) → Ended

pub record Reader : Type 0 where
  pub slot : ℕ
  pub primary : Bool
  pub done : Bool  -- `ctx.Done()` when reading fails
  pub created : ℕ → Option Bytes  -- what `CreateRoom` answers during the n-th message
  pub between : ℕ → Manager → Manager  -- the other goroutines before the n-th message

-- What one round leads to.
pub data Round : Type 0 where
  again : (rest : Bytes) (m : Manager) → Round
  over : (m : Manager) (e : Ended) → Round
  panics : Round

unfoldable pub read_failed : Reader → ℕ → Manager → Round
read_failed r n m =
    if r.done
    then over (r.between n m) cancelled
    else over (slot_death r.slot (r.between n m)).0 (died r.primary)

unfoldable pub handled : Bytes → Handled → Round
handled rest none = panics
handled rest (some (m, sent, known)) = again rest m

unfoldable pub on_read : Reader → ℕ → Manager → ReadResult → Round
on_read r n m (failed e) = read_failed r n m
on_read r n m (received msg rest) =
    if msg.msg_type == msg_ready
    then again rest m
    else if msg.msg_type == msg_shutdown
    then over m shut_down
    else handled rest (handle_message (r.created n) r.slot msg (r.between n m))

unfoldable pub read_round : Reader → ℕ → Bytes → Manager → Round
read_round r n s m = on_read r n m (read_message s)

pub data Outcome : Type 0 where
  ended : (m : Manager) (e : Ended) → Outcome
  panicked out_of_fuel : Outcome

-- The loop on fuel.
unfoldable pub read_loop : ℕ → Reader → ℕ → Bytes → Manager → Outcome
read_loop zero r n s m = out_of_fuel
read_loop (suc fuel) r n s m = elim (read_round r n s m) [
  | again rest m' ↦ read_loop fuel r (suc n) rest m'
  | over m' e ↦ ended m' e
  | panics ↦ panicked
]
