-- ===== src/Bridge/Spaces/Finding.antt =====
-- pkg/bridge/manager.go: what the searches for spaces find on a homeserver.
use matrix_discord_voice_bri.Base.{
  ℕ, ◌^◌, ◌<◌, ◌≡◌, ◌≢◌, refl, ap, ◌∙◌, Bool, true, false, ◌&&◌, Option, none, some, List, [], ◌∷◌,
  ◌++◌, arith, nat_beq_iff, drop, length,
}
use matrix_discord_voice_bri.Base.Eq.{Bytes, ◌==◌, nat_eq, bytes_eq, bytes_beq_iff}
use matrix_discord_voice_bri.Base.Assoc.{lookup, insert, has, Distinct, lookup-insert}
use matrix_discord_voice_bri.Base.Text.{text, decimal}
use matrix_discord_voice_bri.Bridge.Digits.{parse_uint-decimal, has_prefix-append}
use matrix_discord_voice_bri.Bridge.Discover.{key_prefix}
use matrix_discord_voice_bri.Bridge.Spaces.{
  ChildState, SpaceServer, learn_keys, learn_child, learn_children, find_space, is_space, guild_key,
}

drop-append_length : (p s : Bytes) → drop (length p) (p ++ s) ≡ s
drop-append_length [] s = refl
drop-append_length (c ∷ p) s = drop-append_length p s

-- The state of a category's space, as mautrix-discord leaves it.
abbrev pub category_state : Bytes → ℕ → ChildState
category_state guild category = record {
  create_type = some (text "m.space");
  bridges = (key_prefix guild ++ decimal category) ∷ [];
}

-- The children of the guild's space: the categories' spaces, and others: rooms, and children whose state
-- cannot be read.
pub data Children (guild : Bytes) (srv : SpaceServer) : List Bytes → List (ℕ × Bytes) → Type 0 where
  no_child : Children guild srv [] []
  of_category :
      {number : ℕ} {space : Bytes} {children : List Bytes} {cats : List (ℕ × Bytes)}
      → number < 2 ^ 64
      → srv.child_state space ≡ some (category_state guild number)
      → Children guild srv children cats
      → Children guild srv (space ∷ children) ((number, space) ∷ cats)
  plain :
      {child : Bytes} {s : ChildState} {children : List Bytes} {cats : List (ℕ × Bytes)}
      → srv.child_state child ≡ some s
      → s.create_type ≢ some (text "m.space")
      → Children guild srv children cats
      → Children guild srv (child ∷ children) cats
  unread :
      {child : Bytes} {children : List Bytes} {cats : List (ℕ × Bytes)}
      → srv.child_state child ≡ none
      → Children guild srv children cats
      → Children guild srv (child ∷ children) cats

-- The rooms of @discordbot: the first that has the guild's m.bridge event and is a space is the guild's
-- space; a room that has the event may come before it if it is no space.
pub data Rooms (guild : Bytes) (srv : SpaceServer) (guild_space : Bytes) : List Bytes → Type 0 where
  here :
      {rooms : List Bytes}
      → srv.bridged guild_space (text "fi.mau.discord://discord/" ++ guild) ≡ true
      → srv.create_type guild_space ≡ some (text "m.space")
      → Rooms guild srv guild_space (guild_space ∷ rooms)
  past :
      {room : Bytes} {rooms : List Bytes}
      → (srv.bridged room (text "fi.mau.discord://discord/" ++ guild) ≡ true
          → srv.create_type room ≢ some (text "m.space"))
      → Rooms guild srv guild_space rooms
      → Rooms guild srv guild_space (room ∷ rooms)

pub bytes_beq-ne : (a b : Bytes) → a ≢ b → (a == b) ≡ false
bytes_beq-ne a b h = ground (arith, bytes_beq_iff a b)

no_space : (t : Option Bytes) → t ≢ some (text "m.space") → is_space t ≡ false
no_space none h = refl
no_space (some kind) h = bytes_beq-ne kind (text "m.space") (λ e. h (ap some e))

passed_over :
    (b : Bool) (t : Option Bytes)
    → (b ≡ true → t ≢ some (text "m.space"))
    → (b && is_space t) ≡ false
passed_over true t h = no_space t (h refl)
passed_over false t h = refl

pub find_space-Rooms :
    (guild : Bytes) (srv : SpaceServer) (guild_space : Bytes) {rooms : List Bytes}
    → Rooms guild srv guild_space rooms
    → find_space guild srv rooms ≡ some guild_space
unfolding find_space
find_space-Rooms guild srv guild_space (here event kind) = rw (event, kind) refl
find_space-Rooms guild srv guild_space (past {room} not_it rooms) =
    rw (passed_over (srv.bridged room (guild_key guild)) (srv.create_type room) not_it)
      (find_space-Rooms guild srv guild_space rooms)

learn_child-category :
    (guild space : Bytes) (category : ℕ) (known : List (ℕ × Bytes))
    → category < 2 ^ 64
    → learn_child guild space (some (category_state guild category)) known
      ≡ insert category space known
unfolding learn_child learn_keys
learn_child-category guild space category known h =
    rw
      (
        has_prefix-append (key_prefix guild) (decimal category),
        drop-append_length (key_prefix guild) (decimal category),
        parse_uint-decimal category h,
      )
      refl

abbrev pub first_or : Option Bytes → Option Bytes → Option Bytes
first_or none known = known
first_or (some space) known = some space

pub first_or-none : (o : Option Bytes) → first_or o none ≡ o
first_or-none none = refl
first_or-none (some space) = refl

learn_child-plain :
    (guild child : Bytes) (s : ChildState) (known : List (ℕ × Bytes))
    → s.create_type ≢ some (text "m.space")
    → learn_child guild child (some s) known ≡ known
unfolding learn_child
learn_child-plain guild child s known h = rw (no_space s.create_type h) refl

learn_child-nil :
    (guild child : Bytes) (known : List (ℕ × Bytes)) → learn_child guild child none known ≡ known
unfolding learn_child
learn_child-nil guild child known = refl

pub learn_children-lookup :
    (guild : Bytes) (srv : SpaceServer) (k : ℕ) {children : List Bytes} {cats : List (ℕ × Bytes)}
    (known : List (ℕ × Bytes))
    → Children guild srv children cats
    → Distinct cats
    → lookup k (learn_children guild srv children known) ≡ first_or (lookup k cats) (lookup k known)
unfolding learn_children lookup Distinct has
learn_children-lookup guild srv k known no_child d = refl
learn_children-lookup guild srv k known
      (of_category {number} {space} {children} {cats} h state rest) d =
    ap (λ o. lookup k (learn_children guild srv children (learn_child guild space o known))) state
    ∙ ap (λ l. lookup k (learn_children guild srv children l))
        (learn_child-category guild space number known h)
    ∙ learn_children-lookup guild srv k (insert number space known) rest d.1
    ∙ ground (arith, lookup-insert number k space known, nat_beq_iff number k)
learn_children-lookup guild srv k known (plain {child} {s} {children} state kind rest) d =
    ap (λ o. lookup k (learn_children guild srv children (learn_child guild child o known))) state
    ∙ ap (λ l. lookup k (learn_children guild srv children l))
        (learn_child-plain guild child s known kind)
    ∙ learn_children-lookup guild srv k known rest d
learn_children-lookup guild srv k known (unread {child} {children} state rest) d =
    ap (λ o. lookup k (learn_children guild srv children (learn_child guild child o known))) state
    ∙ ap (λ l. lookup k (learn_children guild srv children l)) (learn_child-nil guild child known)
    ∙ learn_children-lookup guild srv k known rest d
