-- ===== src/Examples/Restarts.antt =====
-- cmd/bridge/main.go and pkg/store/store.go: a reader, a database and a restart.
use matrix_discord_voice_bri.Base.{◌≡◌, refl, true, false, none, some, List, [], ◌∷◌, arith, All}
use matrix_discord_voice_bri.Base.Eq.{Bytes, nat_eq, bytes_eq, elem}
use matrix_discord_voice_bri.Base.Text.{text}
use matrix_discord_voice_bri.Ipc.LittleEndian.{IsByte}
use matrix_discord_voice_bri.Bridge.State.{Manager, new_manager}
use matrix_discord_voice_bri.Bridge.Slots.{slot_channel}
use matrix_discord_voice_bri.Store.{
  Bot, Room, empty_store, bot_of, find_row, add_bot, insert_bot, remove_bot, get_room,
}
use matrix_discord_voice_bri.Store.Views.{
  Call, add, upsert, drop_room, run_call, run_calls, room_calls, run_calls_refines,
}
use matrix_discord_voice_bri.Process.Boot.{seed}
use matrix_discord_voice_bri.Process.Reader.{Reader, Ended, read_loop, ended}
use matrix_discord_voice_bri.Process.Restart.{removed_bot_returns}
use matrix_discord_voice_bri.Process.Survival.{Serves, HasSlot, EndsWell, read_loop_ends}
use matrix_discord_voice_bri.Examples.Rooms.{two_slots}

-- The primary slot's reader, with no other goroutine at work.
abbrev reader : Reader
reader = record { slot = 0; primary = true; done = false; created = λ n. none; between = λ n m. m }

abbrev started : Manager
started = new_manager two_slots true true

-- READY, and then a header that is cut short.
abbrev torn : Bytes
torn = 5 ∷ 0 ∷ 0 ∷ 0 ∷ 0 ∷ 0 ∷ 0 ∷ 0 ∷ 0 ∷ 0 ∷ 0 ∷ 9 ∷ []

torn-IsByte : All IsByte torn
torn-IsByte = (
  omega arith,
  (
    omega arith,
    (
      omega arith,
      (
        omega arith,
        (
          omega arith,
          (
            omega arith,
            (
              omega arith,
              (omega arith, (omega arith, (omega arith, (omega arith, (omega arith, tt))))),
            ),
          ),
        ),
      ),
    ),
  ),
)

started-HasSlot : HasSlot 0 started
unfolding slot_channel new_manager
started-HasSlot = refl

started-Serves : Serves 0 started
unfolding new_manager
started-Serves = (started-HasSlot, refl)

read_loop_ends_example :
    (m : Manager) × (e : Ended) × (read_loop 13 reader 0 torn started ≡ ended m e)
    × EndsWell reader m e
read_loop_ends_example =
    read_loop_ends reader (λ n m h. h) 13 0 torn started torn-IsByte started-Serves (omega arith)

abbrev configured : List Bytes
configured = text "first" ∷ text "second" ∷ []

abbrev hired : List Call
hired = add (text "first") (text "guild") ∷ []

abbrev bot : Bot
bot = record { id = 1; token = text "first"; guild_id = text "guild"; active = true }

bot-hired : bot_of (text "first") (run_calls hired empty_store) ≡ some bot
unfolding bot_of run_calls run_call add_bot insert_bot find_row
bot-hired = refl

first-configured : elem (text "first") configured ≡ true
unfolding elem
first-configured = refl

removed_bot_returns_example :
    (bot_of (text "first") (remove_bot 1 (run_calls hired empty_store)) ≡ none)
    × ((b : Bot) × (bot_of
            (text "first")
            (seed configured (text "guild") (remove_bot 1 (run_calls hired empty_store)))
          ≡ some b)
        × (b.active ≡ true))
removed_bot_returns_example =
    removed_bot_returns hired configured (text "guild") (text "first") bot bot-hired
      first-configured

abbrev lobby : Room
lobby = record {
  discord_channel = 7;
  matrix_room = text "!seven";
  name = text "Lobby";
  guild_id = text "guild";
  category_id = 5;
}

abbrev written : List Call
written = upsert lobby ∷ upsert (record lobby { guild_id = text "other" }) ∷ drop_room 8 ∷ []

run_calls_refines_example :
    (λ ch. get_room ch (run_calls written empty_store)) ≡ room_calls written (λ ch. none)
run_calls_refines_example = run_calls_refines written
