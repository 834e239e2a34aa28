-- ===== src/Bridge/InFlight.antt =====
-- pkg/bridge/manager.go: `startBridge` as the other goroutines see it: its two sections under `m.mu`
-- are two steps, and any other calls may come between them.
use matrix_discord_voice_bri.Base.{
  ℕ, ◌≡◌, Bool, true, false, Option, none, some, List, [], ◌∷◌, if◌then◌else◌, All,
}
use matrix_discord_voice_bri.Base.Eq.{Bytes, ◌==◌, nat_eq, bytes_eq, elem}
use matrix_discord_voice_bri.Base.Assoc.{lookup, keys}
use matrix_discord_voice_bri.Base.Text.{has_prefix}
use matrix_discord_voice_bri.Payload.VoiceState.{ChannelInfo}
use matrix_discord_voice_bri.Bridge.State.{Manager, IsChannel}
use matrix_discord_voice_bri.Bridge.Start.{
  Claim, already_bridged, no_free_slot, no_room, claimed, claim, publish,
}
use matrix_discord_voice_bri.Bridge.Stop.{bridge_on, channel_or_zero}
use matrix_discord_voice_bri.Bridge.Call.{
  JoinEnv, track_user, users_of, is_empty, leave_others, ghost_prefix,
}
use matrix_discord_voice_bri.Bridge.Joins.{moved, joined_name}
use matrix_discord_voice_bri.Bridge.Admin.{channel_named, add_slot}
use matrix_discord_voice_bri.Bridge.Machine.{
  Op, message, call_member, timer, spawned_stop, death, remove, ask_join, ask_leave, add, shut_down,
  step, Sane,
}

-- A goroutine between the two sections: the locals that the second one uses.
pub record Flight : Type 0 where
  pub channel : ℕ
  pub index : ℕ  -- `freeSlot.Index`
  pub room : Bytes
  pub info : ChannelInfo

pub record Traffic : Type 0 where
  pub mem : Manager
  pub flights : List Flight

-- What the first section makes of the caller: it goes on to the second section or returns.
unfoldable pub take_off : ℕ → List Flight → Manager × Claim → Traffic
take_off ch fs (m, already_bridged) = record { mem = m; flights = fs }
take_off ch fs (m, no_free_slot) = record { mem = m; flights = fs }
take_off ch fs (m, no_room) = record { mem = m; flights = fs }
take_off ch fs (m, claimed i room info) = record {
  mem = m;
  flights = record { channel = ch; index = i; room = room; info = info } ∷ fs;
}

abbrev pub land_on : Bool → Flight → Manager → Manager
land_on sub_ok f m = publish f.channel f.index f.room f.info sub_ok m

-- `Takes f fs gs`: `gs` is `fs` without one occurrence of `f`.
pub data Takes (f : Flight) : List Flight → List Flight → Type 0 where
  here : {fs : List Flight} → Takes f (f ∷ fs) fs
  there : {g : Flight} {fs gs : List Flight} → Takes f fs gs → Takes f (g ∷ fs) (g ∷ gs)

-- The channels that a member event stops.
abbrev pub join_stops : Option ℕ → Bytes → Bool → Manager → List ℕ
join_stops none user joined m = []
join_stops (some ch) user false m = []
join_stops (some ch) user true m = (leave_others user ch m.matrix_users).1

abbrev pub Spares : List ℕ → List Flight → Type 0
Spares chs = All (λ f. elem f.channel chs ≡ false)

-- What may happen while starts are in flight: which channels may be stopped, which calls come, and
-- of which channels a bridge is started.
pub record Limits : Type 1 where
  pub stops : List ℕ → List Flight → Type 0
  pub calls : Op → Type 0
  pub starts : ℕ → Type 0

-- Nothing is stopped that is being started, and real channels are named.
abbrev pub careful : Limits
careful = record { stops = Spares; calls = Sane; starts = IsChannel }

abbrev pub anything : Limits
anything = record { stops = λ chs fs. Unit {0}; calls = λ op. Unit {0}; starts = λ ch. Unit {0} }

abbrev pub quiet : Manager → Traffic
quiet m = record { mem = m; flights = [] }

module _ (equal_fold : Bytes → Bytes → Bool) where
  -- The channels for which a call runs `stopBridgeForChannel`.
  unfoldable pub stops_of : Op → Manager → List ℕ
  stops_of (message created slot msg) m = []
  stops_of (call_member env room user joined) m =
      if has_prefix ghost_prefix user
      then []
      else join_stops (lookup room m.room_channels) user joined m
  stops_of (timer ch) m = if is_empty (users_of ch m) then ch ∷ [] else []
  stops_of (spawned_stop ch) m = ch ∷ []
  stops_of (death i) m = channel_or_zero (bridge_on i m) ∷ []
  stops_of (remove i) m = channel_or_zero (bridge_on i m) ∷ []
  stops_of (ask_join sub_ok name) m = []
  stops_of (ask_leave name) m =
      if name == [] then keys m.active_bridges else channel_named equal_fold name m ∷ []
  stops_of (add connected token row) m = []
  stops_of shut_down m = keys m.active_bridges

  -- `call` is a call with nothing between its sections, `arrive` the part of a join that comes before
  -- its `startBridge`, `begin` and `finish` the sections of `startBridge`, and `append` the second
  -- section of `AddBot`, with whatever index its first section read.
  pub data Turn (l : Limits) (w : Traffic) : Traffic → Type 0 where
    call :
        (op : Op) {m : Manager}
        → l.calls op
        → l.stops (stops_of op w.mem) w.flights
        → step equal_fold op w.mem ≡ some m
        → Turn l w (record { mem = m; flights = w.flights })
    arrive :
        (env : JoinEnv) (user : Bytes) (ch : ℕ)
        → l.stops (leave_others user ch w.mem.matrix_users).1 w.flights
        → Turn l w (record {
          mem =
              track_user user
                (joined_name env user (moved env user ch w.mem))
                ch
                (moved env user ch w.mem);
          flights = w.flights;
        })
    begin : (ch : ℕ) → l.starts ch → Turn l w (take_off ch w.flights (claim ch w.mem))
    append :
        (i : ℕ) (token : Bytes) (row : ℕ)
        → Turn l w (record { mem = add_slot i token row w.mem; flights = w.flights })
    finish :
        (sub_ok : Bool) (f : Flight) {fs : List Flight}
        → Takes f w.flights fs
        → Turn l w (record { mem = land_on sub_ok f w.mem; flights = fs })

  pub data Reached (l : Limits) (w : Traffic) : Traffic → Type 0 where
    start : Reached l w w
    later : {v v' : Traffic} → Reached l w v → Turn l v v' → Reached l w v'
