-- ===== src/Bridge/Rediscover.antt =====
-- pkg/bridge/manager.go: rooms made by `ensureMatrixRoom` are found again by `DiscoverExistingRooms`
-- and by `RebuildDB`.
use matrix_discord_voice_bri.Base.{
  ℕ, ◌^◌, ◌<◌, ◌≡◌, refl, ap, Bool, lt→ltb, ◌∙◌, true, false, Option, none, some, List, [], ◌∷◌,
  arith, if◌then◌else◌, nat_beq_iff, All, length,
}
use matrix_discord_voice_bri.Base.Eq.{Bytes, nat_eq, bytes_eq}
use matrix_discord_voice_bri.Base.Assoc.{lookup, insert, has, Distinct, lookup-insert}
use matrix_discord_voice_bri.Store
use matrix_discord_voice_bri.Store.{Store, Room}
use matrix_discord_voice_bri.Store.Views.{get_room-upsert_room}
use matrix_discord_voice_bri.Bridge.State.{Manager}
use matrix_discord_voice_bri.Bridge.Discover.{
  Homeserver, Found, learn, save_named, found_room, rebuild_db, rebuild_from, no_database, rebuilt,
  discover_rooms, discover_from, scan_rooms,
}
use matrix_discord_voice_bri.Bridge.Scanned.{Joined, scan-left, no_more, bridged, other}

-- The newest entry of the two: what the homeserver has, or what was known.
abbrev pub room_or : Option Found → Option Bytes → Option Bytes
room_or none known = known
room_or (some f) known = some f.room

learn-lookup :
    (k : ℕ) (found : List (ℕ × Found)) (m : Manager)
    → Distinct found
    → lookup k (learn found m).channel_rooms ≡ room_or (lookup k found) (lookup k m.channel_rooms)
unfolding learn lookup Distinct has
learn-lookup k [] m d = refl
learn-lookup k ((ch, f) ∷ rest) m d = ground (
  arith,
  learn-lookup k rest (record m {
    channel_rooms = insert ch f.room m.channel_rooms;
    room_channels = insert f.room ch m.room_channels;
  }),
  lookup-insert ch k f.room m.channel_rooms,
  nat_beq_iff ch k,
)

-- The row that the database has after the rooms were saved.
abbrev pub row_or : Bytes → ℕ → Option Found → Option Room → Option Room
row_or guild k none old = old
row_or guild k (some f) none = some (record {
  discord_channel = k;
  matrix_room = f.room;
  name = f.name;
  guild_id = guild;
  category_id = 0;
})
row_or guild k (some f) (some old) = some (record {
  discord_channel = k;
  matrix_room = f.room;
  name = f.name;
  guild_id = old.guild_id;
  category_id = 0;
})

-- The channels are numbers that the database takes.
abbrev pub Small : List (ℕ × Found) → Type 0
Small = All (λ p. p.0 < 2 ^ 63)

Joined-Small :
    {guild : Bytes} {hs : Homeserver} {rooms : List Bytes} {left : List (ℕ × Found)}
    → Joined guild hs rooms left
    → Small left
Joined-Small no_more = tt
Joined-Small (bridged small there h) = (small, Joined-Small h)
Joined-Small (other free h) = Joined-Small h

save_named-get :
    (guild : Bytes) (k : ℕ) (found : List (ℕ × Found)) (db : Store)
    → Distinct found
    → Small found
    → Store.get_room k (save_named guild found db)
      ≡ row_or guild k (lookup k found) (Store.get_room k db)
unfolding save_named lookup Distinct has
save_named-get guild k [] db d small = refl
save_named-get guild k ((ch, f) ∷ rest) db d small = ground (
  arith,
  save_named-get guild k rest (Store.upsert_room (found_room guild ch f.room f.name) db),
  get_room-upsert_room (found_room guild ch f.room f.name) k db,
  lt→ltb ch (2 ^ 63) small.0,
  nat_beq_iff ch k,
)

-- What the scan knows: every room as the bridge left it, one for a channel.
pub record Left (guild : Bytes) (hs : Homeserver) (left : List (ℕ × Found)) : Type 0 where
  pub rooms : List Bytes
  pub joined : hs.joined ≡ some rooms
  pub held : Joined guild hs rooms left
  pub distinct : Distinct left

-- An order in which the goroutines may deliver the rooms: it reads the same.
abbrev pub Reorders : (List (ℕ × Found) → List (ℕ × Found)) → Type 0
Reorders arrive =
    (found : List (ℕ × Found))
    → Distinct found
    → Distinct (arrive found) × ((ch : ℕ) → lookup ch (arrive found) ≡ lookup ch found)

rebuild_from-left :
    (guild : Bytes) (hs : Homeserver) (left : List (ℕ × Found)) (m : Manager) (db : Store)
    (rooms : Option (List Bytes)) {known : List Bytes}
    → rooms ≡ some known
    → Joined guild hs known left
    → rebuild_from guild hs rooms m db
      ≡ (learn left m, save_named guild left db, rebuilt (length left))
unfolding rebuild_from
rebuild_from-left guild hs left m db rooms e held =
    ap (λ o. rebuild_from guild hs o m db) e
    ∙ ap (λ found. (learn found m, save_named guild found db, rebuilt (length found)))
        (scan-left guild hs held)

rebuild_db-Left :
    (guild : Bytes) (hs : Homeserver) (left : List (ℕ × Found)) (m : Manager) (db : Store)
    → m.store ≡ true
    → Left guild hs left
    → rebuild_db guild hs m db ≡ (learn left m, save_named guild left db, rebuilt (length left))
unfolding rebuild_db
rebuild_db-Left guild hs left m db stored l =
    ap (λ b. if b then rebuild_from guild hs hs.joined m db else (m, db, no_database)) stored
    ∙ rebuild_from-left guild hs left m db hs.joined l.joined l.held

-- `RebuildDB`, on a homeserver where the bot's rooms are the ones that the bridge left there, one for a
-- channel below 2 ^ 63, and any others without bridge events of the guild: each channel of the rooms
-- left there is mapped to its room, other channels keep theirs,
-- and the row of each such channel has the room and the name that the bridge event carries, no
-- category, whatever the row had, and the guild of the row that was there before, if there was one.
pub rebuild_db-restores :
    (guild : Bytes) (hs : Homeserver) (left : List (ℕ × Found)) (m : Manager) (db : Store)
    → m.store ≡ true
    → Left guild hs left
    → ((rebuild_db guild hs m db).2 ≡ rebuilt (length left))
      × ((ch : ℕ)
          → (lookup ch (rebuild_db guild hs m db).0.channel_rooms
              ≡ room_or (lookup ch left) (lookup ch m.channel_rooms))
            × (Store.get_room ch (rebuild_db guild hs m db).1
                ≡ row_or guild ch (lookup ch left) (Store.get_room ch db)))
rebuild_db-restores guild hs left m db stored l = rw (rebuild_db-Left guild hs left m db stored l) (
  refl,
  λ ch. (
    learn-lookup ch left m l.distinct,
    save_named-get guild ch left db l.distinct (Joined-Small l.held),
  ),
)

scan_rooms-left :
    (arrive : List (ℕ × Found) → List (ℕ × Found)) (guild : Bytes) (hs : Homeserver)
    (left : List (ℕ × Found)) (m : Manager) (db : Store) (rooms : Option (List Bytes))
    {known : List Bytes}
    → rooms ≡ some known
    → Joined guild hs known left
    → (scan_rooms arrive guild hs rooms m db).0 ≡ learn (arrive left) m
unfolding scan_rooms
scan_rooms-left arrive guild hs left m db rooms e held =
    ap (λ o. (scan_rooms arrive guild hs o m db).0) e
    ∙ ap (λ found. learn (arrive found) m) (scan-left guild hs held)

discover_from-fresh :
    (arrive : List (ℕ × Found) → List (ℕ × Found)) (guild : Bytes) (hs : Homeserver) (m : Manager)
    (db : Store) (rows : List Room)
    → rows ≡ []
    → discover_from rows arrive guild hs m db ≡ scan_rooms arrive guild hs hs.joined m db
unfolding discover_from
discover_from-fresh arrive guild hs m db rows e = rw e refl

-- The first `DiscoverExistingRooms` with a database that has no room of the guild, or without a
-- database, on such a homeserver: whatever order the goroutines deliver the rooms in, each channel of
-- the rooms left there is mapped to its room again, and other channels keep theirs.
pub discover_rooms-restores :
    (arrive : List (ℕ × Found) → List (ℕ × Found)) (guild : Bytes) (hs : Homeserver)
    (left : List (ℕ × Found)) (m : Manager) (db : Store)
    → (m.store ≡ true → Store.list_rooms guild db ≡ [])
    → Left guild hs left
    → Reorders arrive
    → (ch : ℕ)
    → lookup ch (discover_rooms arrive guild hs m db).0.channel_rooms
      ≡ room_or (lookup ch left) (lookup ch m.channel_rooms)
unfolding discover_rooms
discover_rooms-restores arrive guild hs left m db empty l reorders ch =
    let (d, same) = reorders left l.distinct in
    ap (λ r. lookup ch r.0.channel_rooms)
      (discover_from-fresh arrive guild hs m db _ (no_rows m.store refl))
    ∙ ap (λ n. lookup ch n.channel_rooms)
        (scan_rooms-left arrive guild hs left m db hs.joined l.joined l.held)
    ∙ learn-lookup ch (arrive left) m d
    ∙ ap (λ o. room_or o (lookup ch m.channel_rooms)) (same ch)
  where
    no_rows : (b : Bool) → m.store ≡ b → (if b then Store.list_rooms guild db else []) ≡ []
    no_rows true on = empty on
    no_rows false off = refl
