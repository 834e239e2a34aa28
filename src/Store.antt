-- ===== src/Store.antt =====
-- pkg/store/store.go: the three tables, and each method as what its SQL statement does to them. A row
-- is found by its primary key or its UNIQUE column; rows are read in the order of the list. The
-- database's own failures, which every method passes on as an error, are not modelled.
pub mod Views
pub mod Unique
use matrix_discord_voice_bri.Base.{
  ltb, ◌^◌, ◌&&◌, ℕ, suc, Bool, true, false, not, ◌&&◌, Option, none, some, List, [], ◌∷◌, ◌++◌,
  if◌then◌else◌,
}
use matrix_discord_voice_bri.Base.Eq.{Bytes, ◌==◌, nat_eq, bytes_eq}
use matrix_discord_voice_bri.Base.Assoc.{insert}

pub record Bot : Type 0 where
  pub id : ℕ
  pub token : Bytes
  pub guild_id : Bytes
  pub active : Bool

pub record Room : Type 0 where
  pub discord_channel : ℕ
  pub matrix_room : Bytes
  pub name : Bytes
  pub guild_id : Bytes
  pub category_id : ℕ

pub record Guild : Type 0 where
  pub space_room : Bytes
  pub last_sync : ℕ

-- The database; `last_id` is what AUTOINCREMENT gave last.
pub record Store : Type 0 where
  pub bots : List Bot
  pub last_id : ℕ
  pub rooms : List Room
  pub guilds : List (Bytes × Guild)

-- `migrate` on a new database.
abbrev pub empty_store : Store
empty_store = record { bots = []; last_id = 0; rooms = []; guilds = [] }

unfoldable pub filter {ℓ} : {A : Type ℓ} → (A → Bool) → List A → List A
filter p [] = []
filter p (x ∷ xs) = let rest = filter p xs in if p x then x ∷ rest else rest

-- The first row that passes the test.
unfoldable pub find_row {ℓ} : {A : Type ℓ} → (A → Bool) → List A → Option A
find_row p [] = none
find_row p (x ∷ xs) = if p x then some x else find_row p xs

unfoldable pub bot_of : Bytes → Store → Option Bot
bot_of token s = find_row (λ b. b.token == token) s.bots

unfoldable pub insert_bot : Option Bot → Bytes → Bytes → Store → Store × Option ℕ
insert_bot (some b) token guild s = (s, none)
insert_bot none token guild s = (
  record s {
    bots =
        s.bots
        ++ record { id = suc s.last_id; token = token; guild_id = guild; active = true } ∷ [];
    last_id = suc s.last_id;
  },
  some (suc s.last_id),
)

-- `AddBot`; `none` is the error for a token that is there already.
unfoldable pub add_bot : Bytes → Bytes → Store → Store × Option ℕ
add_bot token guild s = insert_bot (bot_of token s) token guild s

-- `RemoveBot`.
unfoldable pub remove_bot : ℕ → Store → Store
remove_bot id s = record s { bots = filter (λ b. not (b.id == id)) s.bots }

unfoldable pub deactivate : Bytes → List Bot → List Bot
deactivate token [] = []
deactivate token (b ∷ bs) =
    (if b.token == token then record b { active = false } else b) ∷ deactivate token bs

-- `DeactivateBot`.
unfoldable pub deactivate_bot : Bytes → Store → Store
deactivate_bot token s = record s { bots = deactivate token s.bots }

-- `ListBots`.
unfoldable pub list_bots : Bytes → Store → List Bot
list_bots guild s = filter (λ b. b.guild_id == guild) s.bots

-- `AllActiveBots`.
unfoldable pub all_active_bots : Store → List Bot
all_active_bots s = filter (λ b. b.active) s.bots

-- What `ON CONFLICT(discord_channel) DO UPDATE` leaves of the old row: its guild.
abbrev pub updated_room : Room → Room → Room
updated_room r old = record r { guild_id = old.guild_id }

unfoldable pub upsert_row : Room → List Room → List Room
upsert_row r [] = r ∷ []
upsert_row r (old ∷ rows) =
    if old.discord_channel == r.discord_channel
    then updated_room r old ∷ rows
    else old ∷ upsert_row r rows

-- The numbers that `database/sql` takes: it refuses a uint64 whose high bit is set.
abbrev pub is_storable : Room → Bool
is_storable r = ltb r.discord_channel (2 ^ 63) && ltb r.category_id (2 ^ 63)

-- `UpsertRoom`, whose error is only logged.
unfoldable pub upsert_room : Room → Store → Store
upsert_room r s = if is_storable r then record s { rooms = upsert_row r s.rooms } else s

-- `ListRooms`.
unfoldable pub list_rooms : Bytes → Store → List Room
list_rooms guild s = filter (λ r. r.guild_id == guild) s.rooms

-- `GetRoom`; `none` is the nil row: with an error for a number that the database refuses, without one
-- where there is no row.
unfoldable pub get_room : ℕ → Store → Option Room
get_room ch s = find_row (λ r. r.discord_channel == ch) s.rooms

-- `DeleteRoom`.
unfoldable pub delete_room : ℕ → Store → Store
delete_room ch s = record s { rooms = filter (λ r. not (r.discord_channel == ch)) s.rooms }

-- `UpsertGuild`; `now` is the database's clock.
unfoldable pub upsert_guild : Bytes → Bytes → ℕ → Store → Store
upsert_guild guild space now s = record s {
  guilds = insert guild (record { space_room = space; last_sync = now }) s.guilds;
}
