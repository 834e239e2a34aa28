-- ===== src/Bridge/Spaces/Placement.antt =====
-- pkg/bridge/manager.go: a room goes into the space of its category.
use matrix_discord_voice_bri.Base.{
  ℕ, ◌≡◌, ◌≢◌, refl, ap, ◌∙◌, on_branches, some, List, [], ◌∷◌, if◌then◌else◌,
}
use matrix_discord_voice_bri.Base.Eq.{Bytes, ◌==◌, nat_eq, bytes_eq}
use matrix_discord_voice_bri.Base.Assoc.{lookup, Distinct}
use matrix_discord_voice_bri.Bridge.State.{Manager}
use matrix_discord_voice_bri.Bridge.Spaces.{
  SpaceServer, learn_children, discover_category_spaces, learn_from, know_categories,
  discover_guild_space, target_space, send_space, space_or, add_to_guild_space, place_in,
  search_space, keep_space, SpaceEvent, space_child, space_parent,
}
use matrix_discord_voice_bri.Bridge.Spaces.Finding.{
  Children, Rooms, bytes_beq-ne, find_space-Rooms, first_or, first_or-none, learn_children-lookup,
}

-- What mautrix-discord has set up: a guild space that @discordbot is in, with spaces for categories
-- among its children, one for a category.
pub record Hierarchy (guild : Bytes) (srv : SpaceServer) (guild_space : Bytes)
    (cats : List (ℕ × Bytes)) : Type 0 where
  pub rooms : List Bytes
  pub joined : srv.bot_rooms ≡ some rooms
  pub found : Rooms guild srv guild_space rooms
  pub named : guild_space ≢ []
  pub children : List Bytes
  pub listed : srv.children guild_space ≡ some children
  pub states : Children guild srv children cats
  pub distinct : Distinct cats

-- The space that a room of a category belongs to.
abbrev pub space_for : Bytes → List (ℕ × Bytes) → ℕ → Bytes
space_for guild_space cats number =
    if number == 0 then guild_space else space_or guild_space (lookup number cats)

-- The events that put a room into a space.
abbrev pub events_of : SpaceServer → Bytes → Bytes → List SpaceEvent
events_of srv space room =
    space_child space room
    ∷ (if srv.accepts_child space room then space_parent room space ∷ [] else [])

send_space-events :
    (srv : SpaceServer) (space room : Bytes) → send_space srv space room ≡ events_of srv space room
unfolding send_space
send_space-events srv space room =
    on_branches (λ es. es ≡ events_of srv space room) (srv.accepts_child space room)
      (λ e. rw e refl) (λ e. rw e refl)

module _ (guild : Bytes) (srv : SpaceServer) (guild_space : Bytes) (cats : List (ℕ × Bytes))
    (hier : Hierarchy guild srv guild_space cats) where
  discover_guild_space-Hierarchy :
      (m : Manager)
      → m.guild_space ≡ []
      → discover_guild_space guild srv m
        ≡ (record m { guild_space = guild_space }, some guild_space)
  unfolding discover_guild_space search_space keep_space
  discover_guild_space-Hierarchy m empty =
      ap (λ s. if s == [] then search_space guild srv srv.bot_rooms m else (m, some s)) empty
      ∙ ap (λ o. search_space guild srv o m) hier.joined
      ∙ ap (λ o. keep_space o m) (find_space-Rooms guild srv guild_space hier.found)

  categories-Hierarchy :
      (m : Manager)
      → (discover_category_spaces guild srv
          (record m { guild_space = guild_space })).category_spaces
        ≡ learn_children guild srv hier.children m.category_spaces
  unfolding discover_category_spaces
  categories-Hierarchy m =
      ap
        (λ b.
          (if b
            then record m { guild_space = guild_space }
            else learn_from guild srv (srv.children guild_space)
                (record m { guild_space = guild_space })).category_spaces)
        (bytes_beq-ne guild_space [] hier.named)
      ∙ ap (λ o. (learn_from guild srv o (record m { guild_space = guild_space })).category_spaces)
          hier.listed

  -- With nothing cached, `addToGuildSpace` puts a room into the space of its category, or into the
  -- guild's space where the category is 0 or has no space: it sends the m.space.child event there, and,
  -- if that is accepted, the room's m.space.parent event for the same space.
  pub add_to_guild_space-Hierarchy :
      (room : Bytes) (category : ℕ) (m : Manager)
      → m.guild_space ≡ []
      → m.category_spaces ≡ []
      → (add_to_guild_space guild srv room category m).1
        ≡ events_of srv (space_for guild_space cats category) room
  unfolding add_to_guild_space know_categories target_space lookup
  add_to_guild_space-Hierarchy room category m empty none_known =
      ap (λ p. (place_in guild srv room category p).1) (discover_guild_space-Hierarchy m empty)
      ∙ ap
          (λ l.
            (let known = know_categories guild srv l m' in
              send_space srv (target_space guild_space category known) room))
          none_known
      ∙ ap
          (λ l.
            send_space srv
              (if category == 0 then guild_space else space_or guild_space (lookup category l))
              room)
          (categories-Hierarchy m)
      ∙ ap
          (λ o. send_space srv (if category == 0 then guild_space else space_or guild_space o) room)
          (learn_children-lookup guild srv category m.category_spaces hier.states hier.distinct
            ∙ ap (λ l. first_or (lookup category cats) (lookup category l)) none_known
            ∙ first_or-none (lookup category cats))
      ∙ send_space-events srv (space_for guild_space cats category) room
    where
      m' : Manager
      m' = record m { guild_space = guild_space }
