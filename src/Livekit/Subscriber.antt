-- ===== src/Livekit/Subscriber.antt =====
-- pkg/livekit/subscriber.go: the tracks of `Subscriber`, which are passed through while there is one
-- and go to the mixer when there are more. The mixer is a library's: what stands here is which of its
-- inputs were made by `NewInput`, numbered in their order, and which were given to `RemoveInput`.
use matrix_discord_voice_bri.Base.{
  ℕ, suc, Bool, true, false, ◌||◌, ◌++◌, Option, none, some, List, [], ◌∷◌, if◌then◌else◌, length,
}
use matrix_discord_voice_bri.Base.Eq.{Bytes, ◌==◌, nat_eq, bytes_eq}
use matrix_discord_voice_bri.Base.Assoc.{lookup, insert, delete}
use matrix_discord_voice_bri.Base.Text.{text, has_prefix}

pub data Mode : Type 0 where
  passthrough mixing : Mode

-- `trackEntry`; the track and its `cancel` channel are LiveKit's and the runtime's.
pub record TrackEntry : Type 0 where
  pub mode : Mode
  pub input : Option ℕ

pub record Subscriber : Type 0 where
  pub tracks : List (Bytes × TrackEntry)
  pub muted : Bool
  pub made : ℕ  -- how many inputs `NewInput` made
  pub removed : List ℕ  -- the inputs given to `RemoveInput`
  pub cancelled : List Bytes  -- the tracks whose `cancel` was closed

abbrev pub new_subscriber : Subscriber
new_subscriber = record { tracks = []; muted = true; made = 0; removed = []; cancelled = [] }

unfoldable pub is_bridge : Bytes → Bool
is_bridge ident =
    has_prefix (text "discord:") ident
    || (has_prefix (text "@discord_") ident || (ident == text "discord-bridge-listener"))

-- `NewInput` for an entry that has none.
unfoldable pub with_input : ℕ → Option ℕ → ℕ × TrackEntry
with_input made none = (suc made, record { mode = mixing; input = some made })
with_input made (some i) = (made, record { mode = mixing; input = some i })

unfoldable pub mix_tracks : ℕ → List (Bytes × TrackEntry) → ℕ × List (Bytes × TrackEntry)
mix_tracks made [] = (made, [])
mix_tracks made ((sid, entry) ∷ rest) =
    let (made', entry') = with_input made entry.input in
    let (made'', rest') = mix_tracks made' rest in (made'', (sid, entry') ∷ rest')

-- `activateMixerLocked`.
unfoldable pub activate_mixer : Subscriber → Subscriber
activate_mixer s =
    let (made, tracks) = mix_tracks s.made s.tracks in
    record s { made = made; tracks = tracks; muted = false }

abbrev pub removal : Option ℕ → List ℕ
removal none = []
removal (some i) = i ∷ []

unfoldable pub pass_tracks : List (Bytes × TrackEntry) → List ℕ × List (Bytes × TrackEntry)
pass_tracks [] = ([], [])
pass_tracks ((sid, entry) ∷ rest) =
    let (gone, rest') = pass_tracks rest in
    (removal entry.input ++ gone, (sid, record { mode = passthrough; input = none }) ∷ rest')

-- `activatePassthroughLocked`.
unfoldable pub activate_passthrough : Subscriber → Subscriber
activate_passthrough s =
    let (gone, tracks) = pass_tracks s.tracks in
    record s { removed = gone ++ s.removed; tracks = tracks; muted = true }

abbrev pub new_entry : TrackEntry
new_entry = record { mode = passthrough; input = none }

unfoldable pub add_track : Bytes → Subscriber → Subscriber
add_track sid s =
    let s' = record s { tracks = insert sid new_entry s.tracks } in
    if length s'.tracks == 1 then record s' { muted = true } else activate_mixer s'

-- `onTrackSubscribed`.
unfoldable pub on_subscribed : Bytes → Bool → Bytes → Subscriber → Subscriber
on_subscribed ident audio sid s =
    if is_bridge ident then s else if audio then add_track sid s else s

unfoldable pub drop_track : Bytes → Option TrackEntry → Subscriber → Subscriber
drop_track sid none s = s
drop_track sid (some entry) s = record s {
  tracks = delete sid s.tracks;
  removed = removal entry.input ++ s.removed;
  cancelled = sid ∷ s.cancelled;
}

unfoldable pub settle : Subscriber → Subscriber
settle s =
    if length s.tracks == 1
    then activate_passthrough s
    else if length s.tracks == 0
    then record s { muted = true }
    else s

-- `onTrackUnsubscribed`.
unfoldable pub on_unsubscribed : Bytes → Subscriber → Subscriber
on_unsubscribed sid s = settle (drop_track sid (lookup sid s.tracks) s)

unfoldable pub close_tracks : List (Bytes × TrackEntry) → List ℕ × List Bytes
close_tracks [] = ([], [])
close_tracks ((sid, entry) ∷ rest) =
    let (gone, sids) = close_tracks rest in (removal entry.input ++ gone, sid ∷ sids)

-- `Close`, before the mixer stops and the room is left.
unfoldable pub close : Subscriber → Subscriber
close s =
    let (gone, sids) = close_tracks s.tracks in
    record s { tracks = []; removed = gone ++ s.removed; cancelled = sids ++ s.cancelled }

-- What `trackLoop` does with a packet.
pub data Packet : Type 0 where
  skipped : Packet
  forwarded : List ℕ → Packet  -- to the handler, as it came
  decoded : ℕ → List ℕ → Packet  -- through the decoder and into an input

unfoldable pub route : Mode → Option ℕ → List ℕ → Packet
route passthrough input payload = forwarded payload
route mixing none payload = skipped
route mixing (some i) payload = decoded i payload

unfoldable pub on_packet : TrackEntry → List ℕ → Packet
on_packet entry [] = skipped
on_packet entry (b ∷ bs) = route entry.mode entry.input (b ∷ bs)
