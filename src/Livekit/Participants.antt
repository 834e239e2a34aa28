-- ===== src/Livekit/Participants.antt =====
-- pkg/livekit/manager.go: the participants of `Manager` and the calls of `ensureParticipant` between
-- its two sections under `m.mu`. A room that LiveKit hands out is a number.
use matrix_discord_voice_bri.Base.{
  ℕ, Bool, true, false, Option, none, some, List, [], ◌∷◌, ◌++◌, if◌then◌else◌, ◌≡◌,
}
use matrix_discord_voice_bri.Base.Eq.{◌==◌, nat_eq, elem}
use matrix_discord_voice_bri.Base.Assoc.{lookup, insert, delete, has, values}

pub record Participants : Type 0 where
  pub participants : List (ℕ × ℕ)  -- the room of each user's participant
  pub connecting : List (ℕ × Bool)

abbrev pub new_manager : Participants
new_manager = record { participants = []; connecting = [] }

-- The first section of `ensureParticipant`, and whether the call goes on.
unfoldable pub begin_ensure : ℕ → Participants → Participants × Bool
begin_ensure user m =
    if has user m.participants
    then (m, false)
    else if has user m.connecting
    then (m, false)
    else (record m { connecting = insert user true m.connecting }, true)

-- `clearConnecting`.
unfoldable pub clear_connecting : ℕ → Participants → Participants
clear_connecting user m = record m { connecting = delete user m.connecting }

-- The second section, once the room is joined and the track published.
unfoldable pub end_ensure : ℕ → ℕ → Participants → Participants
end_ensure user room m = record m {
  participants = insert user room m.participants;
  connecting = delete user m.connecting;
}

abbrev pub is_room : ℕ → Option ℕ → Bool
is_room r none = false
is_room r (some p) = p == r

-- `OnDisconnected` of a user's room.
unfoldable pub on_disconnected : ℕ → ℕ → Participants → Participants
on_disconnected user room m =
    if is_room room (lookup user m.participants)
    then record m { participants = delete user m.participants }
    else m

-- What `WriteOpus` does with a frame.
pub data Write : Type 0 where
  dropped : Write
  dropped_and_connect : Write
  written : (room : ℕ) → Write

abbrev pub write_to : Option ℕ → Bool → Write
write_to (some room) connecting = written room
write_to none connecting = if connecting then dropped else dropped_and_connect

unfoldable pub write_opus : ℕ → Participants → Write
write_opus user m = write_to (lookup user m.participants) (has user m.connecting)

abbrev pub rooms_of : Option ℕ → List ℕ
rooms_of none = []
rooms_of (some room) = room ∷ []

-- `RemoveParticipant`, with the rooms that it leaves.
unfoldable pub remove_participant : ℕ → Participants → Participants × List ℕ
remove_participant user m =
    (record m { participants = delete user m.participants }, rooms_of (lookup user m.participants))

-- `Close`, with the rooms that it leaves.
unfoldable pub close : Participants → Participants × List ℕ
close m = (record m { participants = [] }, values m.participants)

-- How far a call of `ensureParticipant` is between its sections: before `ConnectToRoom` returns, in the
-- room, or out of it again since its track could not be published.
pub data Stage : Type 0 where
  dialing left : Stage
  in_room : (room : ℕ) → Stage

-- The manager with what goes on outside it: the calls of `ensureParticipant` between their sections,
-- the rooms that `RemoveParticipant` and `Close` took from the map and are yet to disconnect, and the
-- rooms that are joined.
pub record World : Type 0 where
  pub manager : Participants
  pub flights : List (ℕ × Stage)
  pub leaving : List ℕ
  pub joined : List ℕ

unfoldable pub without : ℕ → List ℕ → List ℕ
without gone [] = []
without gone (c ∷ cs) = let rest = without gone cs in if c == gone then rest else c ∷ rest

-- One step of the program or of LiveKit; a call of `WriteOpus` changes nothing but may be followed
-- by a `start`.
pub data Step (w : World) : World → Type 0 where
  start :
      (user : ℕ)
      → Step w (record w {
        manager = (begin_ensure user w.manager).0;
        flights =
            if (begin_ensure user w.manager).1 then (user, dialing) ∷ w.flights else w.flights;
      })
  connect :
      (user room : ℕ)
      → lookup user w.flights ≡ some dialing
      → Step w
          (record w { flights = insert user (in_room room) w.flights; joined = room ∷ w.joined })
  -- `NewLocalTrack` or `ConnectToRoom` fails
  fail :
      (user : ℕ)
      → lookup user w.flights ≡ some dialing
      → Step w
          (record w { manager = clear_connecting user w.manager; flights = delete user w.flights })
  -- `PublishTrack` fails: the room is disconnected, and then the user no longer connecting
  unpublished :
      (user room : ℕ)
      → lookup user w.flights ≡ some (in_room room)
      → Step w (record w { flights = insert user left w.flights; joined = without room w.joined })
  give_up :
      (user : ℕ)
      → lookup user w.flights ≡ some left
      → Step w
          (record w { manager = clear_connecting user w.manager; flights = delete user w.flights })
  finish :
      (user room : ℕ)
      → lookup user w.flights ≡ some (in_room room)
      → Step w
          (record w { manager = end_ensure user room w.manager; flights = delete user w.flights })
  disconnect :
      (user room : ℕ)
      → Step w (record w {
        manager = on_disconnected user room w.manager;
        joined = without room w.joined;
      })
  remove :
      (user : ℕ)
      → Step w (record w {
        manager = (remove_participant user w.manager).0;
        leaving = (remove_participant user w.manager).1 ++ w.leaving;
      })
  shut_down :
      Step w
        (record w { manager = (close w.manager).0; leaving = (close w.manager).1 ++ w.leaving })
  -- `room.Disconnect` of `RemoveParticipant` or `Close`
  hang_up :
      (room : ℕ)
      → elem room w.leaving ≡ true
      → Step w (record w { leaving = without room w.leaving; joined = without room w.joined })

abbrev pub empty_world : World
empty_world = record { manager = new_manager; flights = []; leaving = []; joined = [] }

pub data Reachable : World → Type 0 where
  from_start : Reachable empty_world
  next : (v w : World) → Reachable v → Step v w → Reachable w
