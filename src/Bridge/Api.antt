-- ===== src/Bridge/Api.antt =====
-- pkg/bridge/manager.go as the `types.ManagerAPI` of the admin commands, over the manager and the
-- database: what the database is asked by `AddBot`, `RemoveBot` and `RebuildDB` is written out here.
use matrix_discord_voice_bri.Base.{
  ℕ, zero, suc, Bool, true, false, ◌&&◌, Option, none, some, if◌then◌else◌, ltb, get_elem?,
}
use matrix_discord_voice_bri.Base.Eq.{Bytes, nat_eq, bytes_eq}
use matrix_discord_voice_bri.Store
use matrix_discord_voice_bri.Store.{Store}
use matrix_discord_voice_bri.Bridge.State.{Manager, Slot}
use matrix_discord_voice_bri.Bridge.Stop
use matrix_discord_voice_bri.Bridge.Stop.{Removed, removed, refused}
use matrix_discord_voice_bri.Bridge.Admin
use matrix_discord_voice_bri.Bridge.Admin.{
  Manual, done, channel_not_found, stats, list_rooms, list_slots, manual_join, manual_leave,
}
use matrix_discord_voice_bri.Bridge.Discover.{
  Homeserver, Rebuilt, rebuilt, no_database, no_room_list, rebuild_db,
}
use matrix_discord_voice_bri.Matrix.Commands.{ManagerApi, Signed, plus, minus}

-- The manager and the database that it was given.
pub record World : Type 0 where
  pub manager : Manager
  pub db : Store

abbrev pub is_done : Manual → Bool
is_done done = true
is_done channel_not_found = false

abbrev pub was_removed : Removed → Bool
was_removed removed = true
was_removed (refused e) = false

abbrev pub row_or_zero : Option ℕ → ℕ
row_or_zero none = 0
row_or_zero (some row) = row

abbrev pub count_of : Rebuilt → Option ℕ
count_of no_database = none
count_of no_room_list = none
count_of (rebuilt n) = some n

-- `AddBot`: the row is written once the sidecar is connected.
unfoldable pub api_add : Bool → Bytes → Bytes → World → World × Option ℕ
api_add connected guild token w =
    let (db, row) =
      if connected && w.manager.store then Store.add_bot token guild w.db else (w.db, none) in
    let (m, slot) = Admin.add_bot connected token (row_or_zero row) w.manager in
    (record { manager = m; db = db }, slot)

-- The row of a slot's bot, if it has one.
abbrev pub forget_bot : Option Slot → Manager → Store → Store
forget_bot none m db = db
forget_bot (some s) m db =
    if m.store && ltb 0 s.bot_db_id then Store.remove_bot s.bot_db_id db else db

unfoldable pub api_remove_at : ℕ → World → World × Bool
api_remove_at i w =
    let (m, sent, result) = Stop.remove_bot i w.manager in
    (
      record {
        manager = m;
        db =
            if was_removed result
            then forget_bot (get_elem? w.manager.slots i) w.manager w.db
            else w.db;
      },
      was_removed result,
    )

-- `RemoveBot`.
unfoldable pub api_remove : Signed → World → World × Bool
api_remove (plus i) w = api_remove_at i w
api_remove (minus zero) w = api_remove_at 0 w
api_remove (minus (suc n)) w = (w, false)

-- `equal_fold` is `strings.EqualFold`, `sub_ok` whether LiveKit lets a bridge start, `connected` whether
-- a new sidecar connects.
module _ (equal_fold : Bytes → Bytes → Bool) (sub_ok connected : Bool) (guild : Bytes)
    (hs : Homeserver) where
  unfoldable pub api_join : Bytes → World → World × Bool
  api_join name w =
      let (m, sent, result) = manual_join equal_fold sub_ok name w.manager in
      (record w { manager = m }, is_done result)

  unfoldable pub api_leave : Bytes → World → World × Bool
  api_leave name w =
      let (m, sent, result) = manual_leave equal_fold name w.manager in
      (record w { manager = m }, is_done result)

  unfoldable pub api_rebuild : World → World × Option ℕ
  api_rebuild w =
      let (m, db, result) = rebuild_db guild hs w.manager w.db in
      (record { manager = m; db = db }, count_of result)

  unfoldable pub bridge_api : ManagerApi World
  bridge_api = record {
    stats = λ w. stats w.manager;
    list_rooms = λ w. list_rooms w.manager;
    list_slots = λ w. list_slots w.manager;
    manual_join = api_join;
    manual_leave = api_leave;
    add_bot = api_add connected guild;
    remove_bot = api_remove;
    rebuild_db = api_rebuild;
  }
