-- ===== src/Bridge/Discover.antt =====
-- pkg/bridge/manager.go: the rooms of earlier runs, from the database or from the m.bridge events of
-- the homeserver: `DiscoverExistingRooms`, `RebuildDB`, and the event that `ensureMatrixRoom` leaves.
use matrix_discord_voice_bri.Base.{
  ℕ, ◌+◌, ◌-◌, ◌*◌, ◌^◌, Bool, true, false, ◌&&◌, Option, none, some, List, [], ◌∷◌, ◌++◌,
  if◌then◌else◌, leb, ltb, length,
}
use matrix_discord_voice_bri.Base.Eq.{Bytes, ◌==◌, nat_eq, bytes_eq}
use matrix_discord_voice_bri.Base.Assoc.{insert}
use matrix_discord_voice_bri.Base.Text.{text, has_prefix, decimal}
use matrix_discord_voice_bri.Payload.VoiceState.{ChannelInfo}
use matrix_discord_voice_bri.Store
use matrix_discord_voice_bri.Store.{Store, Room}
use matrix_discord_voice_bri.Bridge.State.{Manager}

-- The `channel` object of an m.bridge event; `none` for a field that is missing or no text.
pub record EventChannel : Type 0 where
  pub id : Option Bytes
  pub displayname : Option Bytes

-- An m.bridge event, as far as it is read: `none` for an object that is missing, or for a protocol id
-- that is no text.
pub record BridgeContent : Type 0 where
  pub protocol : Option (Option Bytes)
  pub channel : Option EventChannel

pub record BridgeEvent : Type 0 where
  pub state_key : Bytes
  pub raw : Option BridgeContent

-- What the homeserver answers to the bot: its rooms, and the m.bridge events of a room.
pub record Homeserver : Type 0 where
  pub joined : Option (List Bytes)
  pub state : Bytes → Option (List BridgeEvent)

abbrev pub bridge_protocol_id : Bytes
bridge_protocol_id = text "discord-voice"

unfoldable pub key_prefix : Bytes → Bytes
key_prefix guild = text "fi.mau.discord://discord/" ++ guild ++ text "/"

-- The bridge event of `ensureMatrixRoom`.
unfoldable pub created_event : Bytes → ℕ → Bytes → BridgeEvent
created_event guild ch name = record {
  state_key = key_prefix guild ++ decimal ch;
  raw = some (record {
    protocol = some (some bridge_protocol_id);
    channel = some (record { id = some (decimal ch); displayname = some name });
  });
}

-- The value of decimal digits after `acc`; `none` for another byte.
unfoldable pub digits_value : ℕ → Bytes → Option ℕ
digits_value acc [] = some acc
digits_value acc (c ∷ cs) =
    let rest = digits_value (acc * 10 + (c - 48)) cs in if leb 48 c && leb c 57 then rest else none

abbrev pub in_range : Option ℕ → Option ℕ
in_range none = none
in_range (some n) = if ltb n (2 ^ 64) then some n else none

-- `strconv.ParseUint(s, 10, 64)`.
unfoldable pub parse_uint : Bytes → Option ℕ
parse_uint [] = none
parse_uint (c ∷ cs) = in_range (digits_value 0 (c ∷ cs))

abbrev pub text_or_empty : Option Bytes → Bytes
text_or_empty none = []
text_or_empty (some s) = s

abbrev pub with_name : Option Bytes → Option ℕ → Option (ℕ × Bytes)
with_name name none = none
with_name name (some ch) = some (ch, text_or_empty name)

unfoldable pub channel_of : Option EventChannel → Option (ℕ × Bytes)
channel_of none = none
channel_of (some c) = with_name c.displayname (parse_uint (text_or_empty c.id))

abbrev pub is_bridge_protocol : Option (Option Bytes) → Bool
is_bridge_protocol none = false
is_bridge_protocol (some none) = false
is_bridge_protocol (some (some id)) = id == bridge_protocol_id

unfoldable pub content_channel : Option BridgeContent → Option (ℕ × Bytes)
content_channel none = none
content_channel (some c) = if is_bridge_protocol c.protocol then channel_of c.channel else none

-- The channel and the name that an event gives a room, if it is one of this bridge for the guild.
unfoldable pub event_channel : Bytes → BridgeEvent → Option (ℕ × Bytes)
event_channel guild e =
    if has_prefix (key_prefix guild) e.state_key then content_channel e.raw else none

pub record Found : Type 0 where
  pub room : Bytes
  pub name : Bytes

abbrev pub cons_found : Bytes → Option (ℕ × Bytes) → List (ℕ × Found) → List (ℕ × Found)
cons_found room none rest = rest
cons_found room (some (ch, name)) rest = (ch, record { room = room; name = name }) ∷ rest

unfoldable pub room_found : Bytes → Bytes → List BridgeEvent → List (ℕ × Found)
room_found guild room [] = []
room_found guild room (e ∷ es) = cons_found room (event_channel guild e) (room_found guild room es)

abbrev pub events_or_none : Option (List BridgeEvent) → List BridgeEvent
events_or_none none = []
events_or_none (some es) = es

-- The loop over the joined rooms; a room whose state cannot be read is passed over.
unfoldable pub scan : Bytes → Homeserver → List Bytes → List (ℕ × Found)
scan guild hs [] = []
scan guild hs (room ∷ rooms) =
    room_found guild room (events_or_none (hs.state room)) ++ scan guild hs rooms

unfoldable pub learn : List (ℕ × Found) → Manager → Manager
learn [] m = m
learn ((ch, f) ∷ rest) m = learn rest (record m {
  channel_rooms = insert ch f.room m.channel_rooms;
  room_channels = insert f.room ch m.room_channels;
})

abbrev pub found_room : Bytes → ℕ → Bytes → Bytes → Room
found_room guild ch room name = record {
  discord_channel = ch;
  matrix_room = room;
  name = name;
  guild_id = guild;
  category_id = 0;
}

-- The rows of `RebuildDB`, which have no category.
unfoldable pub save_named : Bytes → List (ℕ × Found) → Store → Store
save_named guild [] db = db
save_named guild ((ch, f) ∷ rest) db =
    save_named guild rest (Store.upsert_room (found_room guild ch f.room f.name) db)

-- The rows of `DiscoverExistingRooms`, which have no name either.
unfoldable pub save_unnamed : Bytes → List (ℕ × Found) → Store → Store
save_unnamed guild [] db = db
save_unnamed guild ((ch, f) ∷ rest) db =
    save_unnamed guild rest (Store.upsert_room (found_room guild ch f.room []) db)

pub data Rebuilt : Type 0 where
  no_database no_room_list : Rebuilt
  rebuilt : ℕ → Rebuilt

unfoldable pub rebuild_from :
    Bytes → Homeserver → Option (List Bytes) → Manager → Store → Manager × Store × Rebuilt
rebuild_from guild hs none m db = (m, db, no_room_list)
rebuild_from guild hs (some rooms) m db =
    let found = scan guild hs rooms in
    (learn found m, save_named guild found db, rebuilt (length found))

-- `RebuildDB`.
unfoldable pub rebuild_db : Bytes → Homeserver → Manager → Store → Manager × Store × Rebuilt
rebuild_db guild hs m db =
    if m.store then rebuild_from guild hs hs.joined m db else (m, db, no_database)

abbrev pub name_info : Room → List (ℕ × ChannelInfo) → List (ℕ × ChannelInfo)
name_info r infos =
    if r.name == []
    then infos
    else insert r.discord_channel (record { name = r.name; category_id = r.category_id }) infos

-- The fast path: rooms from the database.
unfoldable pub load_rooms : List Room → Manager → Manager
load_rooms [] m = m
load_rooms (r ∷ rs) m = load_rooms rs (record m {
  channel_rooms = insert r.discord_channel r.matrix_room m.channel_rooms;
  room_channels = insert r.matrix_room r.discord_channel m.room_channels;
  channel_infos = name_info r m.channel_infos;
})

-- The scan, whose results come in an order that the goroutines settle: `arrive` reorders them.
unfoldable pub scan_rooms :
    (List (ℕ × Found) → List (ℕ × Found))
    → Bytes
    → Homeserver
    → Option (List Bytes)
    → Manager
    → Store
    → Manager × Store × Bool
scan_rooms arrive guild hs none m db = (m, db, false)
scan_rooms arrive guild hs (some rooms) m db =
    let found = arrive (scan guild hs rooms) in
    (learn found m, if m.store then save_unnamed guild found db else db, true)

unfoldable pub discover_from :
    List Room
    → (List (ℕ × Found) → List (ℕ × Found))
    → Bytes
    → Homeserver
    → Manager
    → Store
    → Manager × Store × Bool
discover_from [] arrive guild hs m db = scan_rooms arrive guild hs hs.joined m db
discover_from (r ∷ rs) arrive guild hs m db = (load_rooms (r ∷ rs) m, db, true)

-- `DiscoverExistingRooms`; the result is false for the error of a missing room list.
unfoldable pub discover_rooms :
    (List (ℕ × Found) → List (ℕ × Found))
    → Bytes
    → Homeserver
    → Manager
    → Store
    → Manager × Store × Bool
discover_rooms arrive guild hs m db =
    discover_from (if m.store then Store.list_rooms guild db else []) arrive guild hs m db
