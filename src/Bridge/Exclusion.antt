-- ===== src/Bridge/Exclusion.antt =====
-- pkg/bridge/manager.go: any interleaving of calls with the sections of `startBridge`.
use matrix_discord_voice_bri.Base.{ℕ, ◌≡◌, refl, Bool, false, some, List, All, All-both}
use matrix_discord_voice_bri.Base.Eq.{Bytes, nat_eq, bytes_eq, elem}
use matrix_discord_voice_bri.Base.Assoc.{has, delete}
use matrix_discord_voice_bri.Bridge.State.{new_manager, Manager, Slot}
use matrix_discord_voice_bri.Bridge.Start.{already_bridged, claim}
use matrix_discord_voice_bri.Bridge.Call.{JoinEnv, track_user, leave_others, cancel_timers}
use matrix_discord_voice_bri.Bridge.Joins.{moved, joined_name}
use matrix_discord_voice_bri.Bridge.Admin.{add_slot}
use matrix_discord_voice_bri.Bridge.Invariant.{Assigned}
use matrix_discord_voice_bri.Bridge.Keeps.{stop_all-keeps}
use matrix_discord_voice_bri.Bridge.Frame.{stop_all-SameMaps}
use matrix_discord_voice_bri.Bridge.Ready.{Ready, Ready-same}
use matrix_discord_voice_bri.Bridge.Grow.{grow}
use matrix_discord_voice_bri.Bridge.Runs.{AllFree, step-Ready, new_manager-Ready}
use matrix_discord_voice_bri.Bridge.Machine.{Op, Sane, step}
use matrix_discord_voice_bri.Bridge.InFlight.{
  careful, Spares, quiet, stops_of, Flight, Traffic, Takes, Turn, call, arrive, begin, append,
  finish, Reached, start, later,
}
use matrix_discord_voice_bri.Bridge.Bystander.{moved-lookup}
use matrix_discord_voice_bri.Bridge.Undisturbed.{OnSlot-same, step-OnSlot}
use matrix_discord_voice_bri.Bridge.Orderly.{
  Holds, Apart, Orderly, begin-Orderly, Takes-member, finish-Orderly,
}

-- A join after its loop over the other channels.
abbrev cleared : JoinEnv → Bytes → ℕ → Manager → Manager
cleared env user ch m = record m {
  stop_timers = cancel_timers (leave_others user ch m.matrix_users).1 (delete ch m.stop_timers);
  matrix_users = (leave_others user ch m.matrix_users).0;
}

arrive-Orderly :
    (env : JoinEnv) (user : Bytes) (ch : ℕ) (w : Traffic)
    → Orderly w
    → All (λ f. elem f.channel (leave_others user ch w.mem.matrix_users).1 ≡ false) w.flights
    → Orderly (record {
      mem =
          track_user user
            (joined_name env user (moved env user ch w.mem))
            ch
            (moved env user ch w.mem);
      flights = w.flights;
    })
unfolding track_user
arrive-Orderly env user ch w o spared =
    let stops = (leave_others user ch w.mem.matrix_users).1 in
    let same = stop_all-SameMaps stops (cleared env user ch w.mem) in
    record {
      ready =
          Ready-same {m = w.mem} o.ready
            (stop_all-keeps stops (cleared env user ch w.mem) o.ready.inv) same.same_rooms
            same.same_infos;
      held =
          All-both
            (λ f out h.
              OnSlot-same f.channel f.index _ _ (moved-lookup env user ch f.channel w.mem out) h)
            w.flights spared o.held;
      apart = o.apart;
    }

append-Orderly :
    (i : ℕ) (token : Bytes) (row : ℕ) (w : Traffic)
    → Orderly w
    → Orderly (record { mem = add_slot i token row w.mem; flights = w.flights })
unfolding add_slot
append-Orderly i token row w o = record {
  ready =
      Ready-same {m = w.mem} o.ready (grow w.mem.slots w.mem.active_bridges _ o.ready.inv refl) refl
        refl;
  held = o.held;
  apart = o.apart;
}

module _ (equal_fold : Bytes → Bytes → Bool) where
  call-Orderly :
      (op : Op) (w : Traffic) {m : Manager}
      → Orderly w
      → Sane op
      → Spares (stops_of equal_fold op w.mem) w.flights
      → step equal_fold op w.mem ≡ some m
      → Orderly (record { mem = m; flights = w.flights })
  call-Orderly op w {m} o sane spared e = record {
    ready = step-Ready equal_fold op w.mem sane o.ready e;
    held =
        All-both
          (λ f out h.
            step-OnSlot equal_fold f.channel f.index op w.mem o.ready.inv.distinct out h e)
          w.flights spared o.held;
    apart = o.apart;
  }

  Turn-Orderly : {w w' : Traffic} → Orderly w → Turn equal_fold careful w w' → Orderly w'
  Turn-Orderly {w} o (call op sane spared e) = call-Orderly op w o sane spared e
  Turn-Orderly {w} o (arrive env user ch spared) = arrive-Orderly env user ch w o spared
  Turn-Orderly {w} o (begin ch real) = begin-Orderly ch w o real
  Turn-Orderly {w} o (append i token row) = append-Orderly i token row w o
  Turn-Orderly {w} o (finish sub_ok f t) = finish-Orderly sub_ok f w o t

  Reached-Orderly :
      {m : Manager} {w : Traffic} → Ready m → Reached equal_fold careful (quiet m) w → Orderly w
  Reached-Orderly r start = record { ready = r; held = tt; apart = tt }
  Reached-Orderly r (later past s) = Turn-Orderly (Reached-Orderly r past) s

claim_again :
    (f : Flight) (m : Manager) → Holds m.active_bridges f → claim f.channel m ≡ (m, already_bridged)
unfolding claim has
claim_again f m (b, found, on) = rw found refl

-- From free slots, in any interleaving of calls with the two sections of any number of
-- `startBridge` calls, in which messages and starts name real channels and no call stops a channel
-- whose start is in flight: slots and bridges are in one-to-one order at every moment; the starts
-- in flight have different channels and different slots; each finds the bridge of its channel
-- still on the slot that it claimed; and one more start of its channel is refused and changes
-- nothing.
pub interleaved_starts-Apart :
    (equal_fold : Bytes → Bytes → Bool) (slots : List Slot) (signaller store : Bool) (w : Traffic)
    → AllFree slots
    → Reached equal_fold careful (quiet (new_manager slots signaller store)) w
    → Assigned w.mem.slots w.mem.active_bridges
      × Apart w.flights
      × ((f : Flight) (fs : List Flight)
          → Takes f w.flights fs
          → Holds w.mem.active_bridges f × (claim f.channel w.mem ≡ (w.mem, already_bridged)))
interleaved_starts-Apart equal_fold slots signaller store w f past =
    let o = Reached-Orderly equal_fold (new_manager-Ready slots signaller store f) past in
    (
      o.ready.inv,
      o.apart,
      λ g fs t.
          let h = Takes-member (Holds w.mem.active_bridges) g t o.held in
          (h, claim_again g w.mem h),
    )
