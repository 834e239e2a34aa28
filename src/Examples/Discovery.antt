-- ===== src/Examples/Discovery.antt =====
-- pkg/bridge/manager.go: a homeserver with the rooms that the bridge left, and a hierarchy of spaces.
use matrix_discord_voice_bri.Base.{
  ℕ, ◌≡◌, refl, true, none, some, List, [], ◌∷◌, arith, if◌then◌else◌,
}
use matrix_discord_voice_bri.Base.Eq.{Bytes, ◌==◌, nat_eq, bytes_eq}
use matrix_discord_voice_bri.Base.Assoc.{lookup, Distinct, has}
use matrix_discord_voice_bri.Base.Text.{text}
use matrix_discord_voice_bri.Store
use matrix_discord_voice_bri.Store.{empty_store}
use matrix_discord_voice_bri.Bridge.State.{Manager, new_manager}
use matrix_discord_voice_bri.Bridge.Discover.{
  Homeserver, Found, created_event, rebuild_db, rebuilt, discover_rooms,
}
use matrix_discord_voice_bri.Bridge.Scanned.{bridged, other, no_more}
use matrix_discord_voice_bri.Bridge.Rediscover.{
  Left, room_or, row_or, rebuild_db-restores, discover_rooms-restores,
}
use matrix_discord_voice_bri.Bridge.Spaces.{SpaceServer, add_to_guild_space}
use matrix_discord_voice_bri.Bridge.Spaces.Finding.{
  category_state, past, here, plain, of_category, no_child,
}
use matrix_discord_voice_bri.Bridge.Spaces.Placement.{
  Hierarchy, events_of, space_for, add_to_guild_space-Hierarchy,
}
use matrix_discord_voice_bri.Examples.Rooms.{two_slots}

abbrev guild : Bytes
guild = text "guild"

abbrev left_rooms : List (ℕ × Found)
left_rooms =
    (7, record { room = text "!seven"; name = text "Lobby" })
    ∷ (8, record { room = text "!eight"; name = text "Quiet" })
    ∷ []

abbrev homeserver : Homeserver
homeserver = record {
  joined = some (text "!seven" ∷ text "!direct" ∷ text "!eight" ∷ []);
  state = λ room.
      if room == text "!seven"
      then some (created_event guild 7 (text "Lobby") ∷ [])
      else if room == text "!eight"
      then some (created_event guild 8 (text "Quiet") ∷ [])
      else some [];
}

left_rooms-Left : Left guild homeserver left_rooms
unfolding Distinct has lookup
left_rooms-Left = record {
  rooms = text "!seven" ∷ text "!direct" ∷ text "!eight" ∷ [];
  joined = refl;
  held = bridged (omega arith) refl (other tt (bridged (omega arith) refl no_more));
  distinct = (refl, (refl, tt));
}

abbrev stored_manager : Manager
stored_manager = new_manager two_slots true true

stored_manager-store : stored_manager.store ≡ true
unfolding new_manager
stored_manager-store = refl

no_rows : Store.list_rooms guild empty_store ≡ []
unfolding Store.list_rooms Store.filter
no_rows = refl

rebuild_db-restores_example :
    ((rebuild_db guild homeserver stored_manager empty_store).2 ≡ rebuilt 2)
    × ((ch : ℕ)
        → (lookup ch (rebuild_db guild homeserver stored_manager empty_store).0.channel_rooms
            ≡ room_or (lookup ch left_rooms) (lookup ch stored_manager.channel_rooms))
          × (Store.get_room ch (rebuild_db guild homeserver stored_manager empty_store).1
              ≡ row_or guild ch (lookup ch left_rooms) (Store.get_room ch empty_store)))
rebuild_db-restores_example =
    rebuild_db-restores guild homeserver left_rooms stored_manager empty_store stored_manager-store
      left_rooms-Left

discover_rooms-restores_example :
    lookup 7
      (discover_rooms (λ found. found) guild homeserver stored_manager empty_store).0.channel_rooms
    ≡ room_or (lookup 7 left_rooms) (lookup 7 stored_manager.channel_rooms)
discover_rooms-restores_example =
    discover_rooms-restores (λ found. found) guild homeserver left_rooms stored_manager empty_store
      (λ stored. no_rows) left_rooms-Left (λ found d. (d, λ ch. refl)) 7

abbrev spaces : List (ℕ × Bytes)
spaces = (5, text "!five") ∷ []

-- `!other` has the guild's event and is no space; `!talk` is a room, whose event names a category.
abbrev space_server : SpaceServer
space_server = record {
  bot_rooms = some (text "!other" ∷ text "!guild" ∷ []);
  bridged = λ room key. true;
  create_type = λ room. if room == text "!guild" then some (text "m.space") else none;
  children = λ space. some (text "!talk" ∷ text "!five" ∷ []);
  child_state = λ room.
      if room == text "!five"
      then some (category_state guild 5)
      else some (record (category_state guild 5) { create_type = none });
  accepts_child = λ space room. true;
}

spaces-Hierarchy : Hierarchy guild space_server (text "!guild") spaces
unfolding Distinct has lookup
spaces-Hierarchy = record {
  rooms = text "!other" ∷ text "!guild" ∷ [];
  joined = refl;
  found = past (λ event e. ground (arith, e)) (here refl refl);
  named = λ e. cc;
  children = text "!talk" ∷ text "!five" ∷ [];
  listed = refl;
  states = plain refl (λ e. ground (arith, e)) (of_category (omega arith) refl no_child);
  distinct = (refl, tt);
}

no_space : stored_manager.guild_space ≡ []
unfolding new_manager
no_space = refl

no_categories : stored_manager.category_spaces ≡ []
unfolding new_manager
no_categories = refl

add_to_guild_space-Hierarchy_example :
    (add_to_guild_space guild space_server (text "!seven") 5 stored_manager).1
    ≡ events_of space_server (space_for (text "!guild") spaces 5) (text "!seven")
add_to_guild_space-Hierarchy_example =
    add_to_guild_space-Hierarchy guild space_server (text "!guild") spaces spaces-Hierarchy
      (text "!seven") 5 stored_manager no_space no_categories
