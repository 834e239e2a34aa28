-- ===== src/Store/Views.antt =====
-- pkg/store/store.go: the database as its readers see it, two functions, over any calls.
use mathlib.Core.Path.{fun_ext}
use matrix_discord_voice_bri.Base.{
  ℕ, ◌≡◌, refl, ap, ◌∙◌, not, Option, none, some, List, [], ◌∷◌, arith, if◌then◌else◌, nat_beq_iff,
  ltb, ◌^◌, ◌&&◌, Bool, true, false,
}
use matrix_discord_voice_bri.Base.Eq.{Bytes, ◌==◌, nat_eq, bytes_eq}
use matrix_discord_voice_bri.Store.{
  Bot, Room, Store, empty_store, filter, find_row, bot_of, insert_bot, add_bot, remove_bot,
  deactivate_bot, is_storable, upsert_row, upsert_room, get_room, delete_room, upsert_guild,
}

-- A call that writes.
pub data Call : Type 0 where
  add : (token guild : Bytes) → Call
  remove : (id : ℕ) → Call
  deactivate_token : (token : Bytes) → Call
  upsert : Room → Call
  drop_room : (ch : ℕ) → Call
  sync_guild : (guild space : Bytes) (now : ℕ) → Call

unfoldable pub run_call : Call → Store → Store
run_call (add token guild) s = (add_bot token guild s).0
run_call (remove id) s = remove_bot id s
run_call (deactivate_token token) s = deactivate_bot token s
run_call (upsert r) s = upsert_room r s
run_call (drop_room ch) s = delete_room ch s
run_call (sync_guild guild space now) s = upsert_guild guild space now s

unfoldable pub run_calls : List Call → Store → Store
run_calls [] s = s
run_calls (c ∷ cs) s = run_calls cs (run_call c s)

-- The row that an upsert leaves, column by column: all as given, but for the guild of an older row.
abbrev pub kept_guild : Room → Option Room → Room
kept_guild r none = r
kept_guild r (some old) = record {
  discord_channel = r.discord_channel;
  matrix_room = r.matrix_room;
  name = r.name;
  guild_id = old.guild_id;
  category_id = r.category_id;
}

-- An upsert of a channel and a category below 2 ^ 63, of this channel.
abbrev pub writes : Room → ℕ → Bool
writes r ch =
    (ltb r.discord_channel (2 ^ 63) && ltb r.category_id (2 ^ 63)) && r.discord_channel == ch

-- The same calls on a function from channels to rows.

unfoldable pub room_call : Call → (ℕ → Option Room) → ℕ → Option Room
room_call (upsert r) f ch = if writes r ch then some (kept_guild r (f ch)) else f ch
room_call (drop_room k) f ch = if k == ch then none else f ch
room_call (add token guild) f ch = f ch
room_call (remove id) f ch = f ch
room_call (deactivate_token token) f ch = f ch
room_call (sync_guild guild space now) f ch = f ch

unfoldable pub room_calls : List Call → (ℕ → Option Room) → ℕ → Option Room
room_calls [] f = f
room_calls (c ∷ cs) f = room_calls cs (room_call c f)

get-upsert :
    (r : Room) (ch : ℕ) (rows : List Room)
    → find_row (λ x. x.discord_channel == ch) (upsert_row r rows) ≡ (
        if r.discord_channel == ch
        then some (kept_guild r (find_row (λ x. x.discord_channel == ch) rows))
        else find_row (λ x. x.discord_channel == ch) rows)
unfolding find_row upsert_row
get-upsert r ch [] = refl
get-upsert r ch (old ∷ rows) = ground (
  arith,
  get-upsert r ch rows,
  nat_beq_iff old.discord_channel r.discord_channel,
  nat_beq_iff old.discord_channel ch,
  nat_beq_iff r.discord_channel ch,
)

get-delete :
    (k ch : ℕ) (rows : List Room)
    → find_row (λ x. x.discord_channel == ch) (filter (λ r. not (r.discord_channel == k)) rows)
      ≡ (if k == ch then none else find_row (λ x. x.discord_channel == ch) rows)
unfolding find_row filter
get-delete k ch [] = ground arith
get-delete k ch (old ∷ rows) = ground (
  arith,
  get-delete k ch rows,
  nat_beq_iff old.discord_channel k,
  nat_beq_iff old.discord_channel ch,
  nat_beq_iff k ch,
)

add_bot-rooms :
    (o : Option Bot) (token guild : Bytes) (s : Store)
    → (insert_bot o token guild s).0.rooms ≡ s.rooms
unfolding insert_bot
add_bot-rooms none token guild s = refl
add_bot-rooms (some b) token guild s = refl

pub get_room-upsert_room :
    (r : Room) (ch : ℕ) (s : Store)
    → get_room ch (upsert_room r s)
      ≡ (if writes r ch then some (kept_guild r (get_room ch s)) else get_room ch s)
unfolding get_room upsert_room
get_room-upsert_room r ch s = stored (is_storable r)
  where
    stored :
        (fits : Bool)
        → find_row
            (λ x. x.discord_channel == ch)
            (if fits then record s { rooms = upsert_row r s.rooms } else s).rooms
          ≡ (if fits && r.discord_channel == ch
              then some (kept_guild r (find_row (λ x. x.discord_channel == ch) s.rooms))
              else find_row (λ x. x.discord_channel == ch) s.rooms)
    stored true = get-upsert r ch s.rooms
    stored false = refl

run_call-get :
    (c : Call) (ch : ℕ) (s : Store)
    → get_room ch (run_call c s) ≡ room_call c (λ k. get_room k s) ch
unfolding run_call room_call get_room delete_room add_bot remove_bot deactivate_bot upsert_guild
run_call-get (add token guild) ch s =
    ap (find_row (λ x. x.discord_channel == ch)) (add_bot-rooms (bot_of token s) token guild s)
run_call-get (remove id) ch s = refl
run_call-get (deactivate_token token) ch s = refl
run_call-get (upsert r) ch s = get_room-upsert_room r ch s
run_call-get (drop_room k) ch s = get-delete k ch s.rooms
run_call-get (sync_guild guild space now) ch s = refl

run_calls-get :
    (cs : List Call) (s : Store)
    → (λ ch. get_room ch (run_calls cs s)) ≡ room_calls cs (λ ch. get_room ch s)
unfolding run_calls room_calls
run_calls-get [] s = refl
run_calls-get (c ∷ cs) s =
    run_calls-get cs (run_call c s) ∙ ap (room_calls cs) (fun_ext (λ ch. run_call-get c ch s))

-- From an empty database, after any calls, `GetRoom` reads what the same calls make of the function
-- that has no room: an upsert with a channel and a category below 2^63 replaces all but the guild of
-- the channel's row, an upsert with others writes nothing, a deletion removes the row, and no other
-- call touches it.
pub run_calls_refines :
    (cs : List Call) → (λ ch. get_room ch (run_calls cs empty_store)) ≡ room_calls cs (λ ch. none)
run_calls_refines cs = run_calls-get cs empty_store ∙ ap (room_calls cs) (fun_ext no_room)
  where
    no_room : (ch : ℕ) → get_room ch empty_store ≡ none
    no_room ch = unfold get_room find_row in refl
