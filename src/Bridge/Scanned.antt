-- ===== src/Bridge/Scanned.antt =====
-- pkg/bridge/manager.go: what the scans of DiscoverExistingRooms and RebuildDB find on a homeserver.
use matrix_discord_voice_bri.Base.{
  ℕ, ◌^◌, ◌<◌, ◌≡◌, refl, ap, false, some, List, [], ◌∷◌, arith, All,
}
use matrix_discord_voice_bri.Base.Eq.{Bytes, nat_eq, bytes_eq}
use matrix_discord_voice_bri.Base.Text.{decimal}
use matrix_discord_voice_bri.Bridge.Digits.{parse_uint-decimal, has_prefix-append}
use matrix_discord_voice_bri.Base.Text.{has_prefix}
use matrix_discord_voice_bri.Bridge.Discover.{
  Homeserver, Found, created_event, event_channel, content_channel, channel_of, key_prefix,
  room_found, scan, BridgeEvent, events_or_none,
}

-- The event of a created room gives the channel and the name of the room back.
event_channel-created :
    (guild : Bytes) (ch : ℕ) (name : Bytes)
    → ch < 2 ^ 64
    → event_channel guild (created_event guild ch name) ≡ some (ch, name)
unfolding event_channel created_event content_channel channel_of
event_channel-created guild ch name h =
    let prefix = has_prefix-append (key_prefix guild) (decimal ch) in
    rw (prefix, parse_uint-decimal ch h) refl

-- The joined rooms in their order: those that the bridge left there, with the one bridge event that it
-- gave them, and others, which have no bridge event of the guild: messages of an admin, say.
pub data Joined (guild : Bytes) (hs : Homeserver) : List Bytes → List (ℕ × Found) → Type 0 where
  no_more : Joined guild hs [] []
  bridged :
      {ch : ℕ} {f : Found} {rooms : List Bytes} {left : List (ℕ × Found)}
      → ch < 2 ^ 63
      → hs.state f.room ≡ some (created_event guild ch f.name ∷ [])
      → Joined guild hs rooms left
      → Joined guild hs (f.room ∷ rooms) ((ch, f) ∷ left)
  other :
      {room : Bytes} {rooms : List Bytes} {left : List (ℕ × Found)}
      → All
          (λ e. has_prefix (key_prefix guild) e.state_key ≡ false)
          (events_or_none (hs.state room))
      → Joined guild hs rooms left
      → Joined guild hs (room ∷ rooms) left

room_found-nil :
    (guild room : Bytes) (es : List BridgeEvent)
    → All (λ e. has_prefix (key_prefix guild) e.state_key ≡ false) es
    → room_found guild room es ≡ []
unfolding room_found event_channel
room_found-nil guild room [] h = refl
room_found-nil guild room (e ∷ es) h = rw h.0 (room_found-nil guild room es h.1)

room_found-created :
    (guild : Bytes) (ch : ℕ) (f : Found)
    → ch < 2 ^ 64
    → room_found guild f.room (created_event guild ch f.name ∷ []) ≡ (ch, f) ∷ []
unfolding room_found
room_found-created guild ch f h = rw (event_channel-created guild ch f.name h) refl

pub scan-left :
    (guild : Bytes) (hs : Homeserver) {rooms : List Bytes} {left : List (ℕ × Found)}
    → Joined guild hs rooms left
    → scan guild hs rooms ≡ left
unfolding scan
scan-left guild hs no_more = refl
scan-left guild hs (bridged {ch} {f} {rooms} small there h) =
    rw (there, room_found-created guild ch f (omega (arith, small)))
      (ap (◌∷◌ (ch, f)) (scan-left guild hs h))
scan-left guild hs (other {room} free h) =
    rw (room_found-nil guild room (events_or_none (hs.state room)) free) (scan-left guild hs h)
