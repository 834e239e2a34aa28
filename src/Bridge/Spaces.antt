-- ===== src/Bridge/Spaces.antt =====
-- pkg/bridge/manager.go: where a new room is put in mautrix-discord's hierarchy of spaces:
-- `discoverGuildSpace`, `discoverCategorySpaces`, `addToGuildSpace`.
pub mod Finding
pub mod Placement
use matrix_discord_voice_bri.Base.{
  ℕ, ◌≡◌, Bool, true, false, ◌&&◌, Option, none, some, List, [], ◌∷◌, ◌++◌, if◌then◌else◌, drop,
  length,
}
use matrix_discord_voice_bri.Base.Eq.{Bytes, ◌==◌, nat_eq, bytes_eq}
use matrix_discord_voice_bri.Base.Assoc.{lookup, insert}
use matrix_discord_voice_bri.Base.Text.{text, has_prefix}
use matrix_discord_voice_bri.Bridge.Discover.{key_prefix, parse_uint}
use matrix_discord_voice_bri.Bridge.State.{Manager}

-- The state of a child: the `type` of its create event, `none` if that cannot be read or is no text,
-- and the state keys of its m.bridge events.
pub record ChildState : Type 0 where
  pub create_type : Option Bytes
  pub bridges : List Bytes

-- What the homeserver answers to @discordbot, and to the two events that are sent.
pub record SpaceServer : Type 0 where
  pub bot_rooms : Option (List Bytes)
  pub bridged : Bytes → Bytes → Bool  -- the room has an m.bridge event with the key
  pub create_type : Bytes → Option Bytes
  pub children : Bytes → Option (List Bytes)
  pub child_state : Bytes → Option ChildState
  pub accepts_child : Bytes → Bytes → Bool

-- The events that are sent: m.space.child in a space for a room, m.space.parent in a room for a space.
pub data SpaceEvent : Type 0 where
  space_child space_parent : Bytes → Bytes → SpaceEvent

abbrev pub is_space : Option Bytes → Bool
is_space none = false
is_space (some kind) = kind == text "m.space"

abbrev pub guild_key : Bytes → Bytes
guild_key guild = text "fi.mau.discord://discord/" ++ guild

unfoldable pub find_space : Bytes → SpaceServer → List Bytes → Option Bytes
find_space guild srv [] = none
find_space guild srv (room ∷ rooms) =
    let rest = find_space guild srv rooms in
    if srv.bridged room (guild_key guild) && is_space (srv.create_type room)
    then some room
    else rest

unfoldable pub keep_space : Option Bytes → Manager → Manager × Option Bytes
keep_space none m = (m, none)
keep_space (some room) m = (record m { guild_space = room }, some room)

unfoldable pub search_space :
    Bytes → SpaceServer → Option (List Bytes) → Manager → Manager × Option Bytes
search_space guild srv none m = (m, none)
search_space guild srv (some rooms) m = keep_space (find_space guild srv rooms) m

-- `discoverGuildSpace`; `none` is its error.
unfoldable pub discover_guild_space : Bytes → SpaceServer → Manager → Manager × Option Bytes
discover_guild_space guild srv m =
    if m.guild_space == [] then search_space guild srv srv.bot_rooms m else (m, some m.guild_space)

abbrev pub put_category : Bytes → Option ℕ → List (ℕ × Bytes) → List (ℕ × Bytes)
put_category child none known = known
put_category child (some category) known = insert category child known

-- The bridge keys of a child; what follows the prefix is the category.
unfoldable pub learn_keys : Bytes → Bytes → List Bytes → List (ℕ × Bytes) → List (ℕ × Bytes)
learn_keys guild child [] known = known
learn_keys guild child (key ∷ keys) known = learn_keys guild child keys (
    if has_prefix (key_prefix guild) key
    then put_category child (parse_uint (drop (length (key_prefix guild)) key)) known
    else known)

unfoldable pub learn_child : Bytes → Bytes → Option ChildState → List (ℕ × Bytes) → List (ℕ × Bytes)
learn_child guild child none known = known
learn_child guild child (some s) known =
    if is_space s.create_type then learn_keys guild child s.bridges known else known

unfoldable pub learn_children :
    Bytes → SpaceServer → List Bytes → List (ℕ × Bytes) → List (ℕ × Bytes)
learn_children guild srv [] known = known
learn_children guild srv (child ∷ rest) known =
    learn_children guild srv rest (learn_child guild child (srv.child_state child) known)

abbrev pub learn_from : Bytes → SpaceServer → Option (List Bytes) → Manager → Manager
learn_from guild srv none m = m
learn_from guild srv (some children) m = record m {
  category_spaces = learn_children guild srv children m.category_spaces;
}

-- `discoverCategorySpaces`.
unfoldable pub discover_category_spaces : Bytes → SpaceServer → Manager → Manager
discover_category_spaces guild srv m =
    if m.guild_space == [] then m else learn_from guild srv (srv.children m.guild_space) m

unfoldable pub know_categories : Bytes → SpaceServer → List (ℕ × Bytes) → Manager → Manager
know_categories guild srv [] m = discover_category_spaces guild srv m
know_categories guild srv (known ∷ rest) m = m

abbrev pub space_or : Bytes → Option Bytes → Bytes
space_or guild_space none = guild_space
space_or guild_space (some space) = space

-- The category's space if it is known, else the guild's.
unfoldable pub target_space : Bytes → ℕ → Manager → Bytes
target_space guild_space category m =
    if category == 0 then guild_space else space_or guild_space (lookup category m.category_spaces)

unfoldable pub send_space : SpaceServer → Bytes → Bytes → List SpaceEvent
send_space srv space room =
    if srv.accepts_child space room
    then space_child space room ∷ space_parent room space ∷ []
    else space_child space room ∷ []

abbrev pub place_in :
    Bytes → SpaceServer → Bytes → ℕ → Manager × Option Bytes → Manager × List SpaceEvent
place_in guild srv room category (m, none) = (m, [])
place_in guild srv room category (m, some guild_space) =
    let known = know_categories guild srv m.category_spaces m in
    (known, send_space srv (target_space guild_space category known) room)

-- `addToGuildSpace`.
unfoldable pub add_to_guild_space :
    Bytes → SpaceServer → Bytes → ℕ → Manager → Manager × List SpaceEvent
add_to_guild_space guild srv room category m =
    place_in guild srv room category (discover_guild_space guild srv m)
