-- ===== src/Bridge/Commanded.antt =====
-- pkg/bridge/manager.go under the admin commands of pkg/matrix/commands.go: messages of any senders
-- keep the manager's invariant.
use matrix_discord_voice_bri.Base.{
  ℕ, zero, suc, ◌≡◌, refl, subst, Bool, Option, none, some, List, [], ◌∷◌, if◌then◌else◌,
  on_branches, All, some-eq, Option-cases, inl, inr,
}
use matrix_discord_voice_bri.Base.Eq.{Bytes, ◌==◌, nat_eq, bytes_eq}
use matrix_discord_voice_bri.Base.Assoc.{lookup, lookup-insert}
use matrix_discord_voice_bri.Store.{Store}
use matrix_discord_voice_bri.Bridge.State.{Manager, IsChannel, Slot, new_manager}
use matrix_discord_voice_bri.Bridge.Discover.{
  Homeserver, Found, Rebuilt, rebuild_db, rebuild_from, learn, scan,
}
use matrix_discord_voice_bri.Bridge.Ready.{Ready, remove_bot-Ready}
use matrix_discord_voice_bri.Bridge.Steps.{manual_join-Ready, manual_leave-Ready}
use matrix_discord_voice_bri.Bridge.Grow.{add_bot-Ready}
use matrix_discord_voice_bri.Bridge.Api.{
  World, api_add, api_remove, api_remove_at, api_join, api_leave, api_rebuild, bridge_api,
}
use matrix_discord_voice_bri.Process.Boot.{Level}
use matrix_discord_voice_bri.Bridge.Machine.{Op, Sane, step}
use matrix_discord_voice_bri.Bridge.Runs.{AllFree, new_manager-Ready, step-Ready}
use matrix_discord_voice_bri.Bridge.Invariant.{Assigned}
use matrix_discord_voice_bri.Matrix.Commands.{Signed, plus, minus, on_message}
use matrix_discord_voice_bri.Matrix.Commands.Gate.{Keeps, on_message-keeps}

abbrev pub RealFound : List (ℕ × Found) → Type 0
RealFound = All (λ p. IsChannel p.0)

learn-Ready :
    (found : List (ℕ × Found)) (m : Manager) → RealFound found → Ready m → Ready (learn found m)
unfolding learn
learn-Ready [] m real r = r
learn-Ready ((ch, f) ∷ rest) m real r = learn-Ready rest _ real.1 (record {
  inv = r.inv;
  rooms_real = λ room c e. rooms room c (rw (← lookup-insert f.room room ch m.room_channels) e);
  infos_real = r.infos_real;
  infos_distinct = r.infos_distinct;
})
  where
    rooms :
        (room : Bytes) (c : ℕ)
        → (if f.room == room then some ch else lookup room m.room_channels) ≡ some c
        → IsChannel c
    rooms room c =
        on_branches {A = Option ℕ} (λ o. o ≡ some c → IsChannel c) (f.room == room)
          (λ e h. subst IsChannel (some-eq h) real.0) (λ e h. r.rooms_real room c h)

-- Whatever rooms the homeserver lists, the bridge events for the guild in them name real channels.
abbrev pub RealRooms : Bytes → Homeserver → Type 0
RealRooms guild hs = (rooms : List Bytes) → RealFound (scan guild hs rooms)

abbrev pub ReadyWorld : World → Type 0
ReadyWorld w = Ready w.manager

rebuild_from-Ready :
    (guild : Bytes) (hs : Homeserver) (rooms : Option (List Bytes)) (m : Manager) (db : Store)
    → RealRooms guild hs
    → Ready m
    → Ready (rebuild_from guild hs rooms m db).0
unfolding rebuild_from
rebuild_from-Ready guild hs none m db real r = r
rebuild_from-Ready guild hs (some rooms) m db real r =
    learn-Ready (scan guild hs rooms) m (real rooms) r

api_remove-Ready : (i : Signed) (w : World) → ReadyWorld w → ReadyWorld (api_remove i w).0
unfolding api_remove api_remove_at
api_remove-Ready (plus i) w r = remove_bot-Ready i w.manager r
api_remove-Ready (minus zero) w r = remove_bot-Ready 0 w.manager r
api_remove-Ready (minus (suc n)) w r = r

module _ (equal_fold : Bytes → Bytes → Bool) (sub_ok connected : Bool) (guild : Bytes)
    (hs : Homeserver) where
  bridge_api-Keeps :
      RealRooms guild hs → Keeps (bridge_api equal_fold sub_ok connected guild hs) ReadyWorld
  unfolding bridge_api api_join api_leave api_add api_rebuild rebuild_db
  bridge_api-Keeps real = record {
    joins = λ name w r. manual_join-Ready equal_fold sub_ok name w.manager r;
    leaves = λ name w r. manual_leave-Ready equal_fold name w.manager r;
    adds = λ token w r. add_bot-Ready connected token _ w.manager r;
    removes = api_remove-Ready;
    rebuilds = λ w r.
        on_branches {A = Manager × Store × Rebuilt} (λ x. Ready x.0) w.manager.store
          (λ e. rebuild_from-Ready guild hs hs.joined w.manager w.db real r) (λ e. r);
  }

-- What happens to the bridge: a call of the manager, or a message as `StartSync` hands it on, with what
-- the surroundings answer.
pub data Event : Type 0 where
  call : Op → Event
  incoming :
      (sub_ok connected initial_done : Bool) (hs : Homeserver) (level : Level) (sender : Bytes)
      (body : Option Bytes)
      → Event

abbrev pub Tame : Bytes → Event → Type 0
Tame guild (call op) = Sane op
Tame guild (incoming sub_ok connected initial_done hs level sender body) = RealRooms guild hs

abbrev pub moved : World → Option Manager → Option World
moved w none = none
moved w (some m) = some (record w { manager = m })

module _ (equal_fold : Bytes → Bytes → Bool) (guild : Bytes) (admins : List Bytes) where
  unfoldable pub react : Event → World → Option World
  react (call op) w = moved w (step equal_fold op w.manager)
  react (incoming sub_ok connected initial_done hs level sender body) w =
      some
        (on_message (bridge_api equal_fold sub_ok connected guild hs) initial_done admins sender
          body w level).0

  abbrev pub react_from : List Event → Option World → Option World
  react_from events none = none
  react_from [] (some w) = some w
  react_from (e ∷ events) (some w) = react_from events (react e w)

  moved-Ready :
      (w : World) (o : Option Manager) (w' : World)
      → ((m : Manager) → o ≡ some m → Ready m)
      → moved w o ≡ some w'
      → ReadyWorld w'
  moved-Ready w none w' h e = cc
  moved-Ready w (some m) w' h e = subst ReadyWorld (some-eq e) (h m refl)

  react-Ready :
      (e : Event) (w w' : World) → Tame guild e → ReadyWorld w → react e w ≡ some w' → ReadyWorld w'
  unfolding react
  react-Ready (call op) w w' sane r e =
      moved-Ready w (step equal_fold op w.manager) w'
        (λ m ok. step-Ready equal_fold op w.manager sane r ok) e
  react-Ready (incoming sub_ok connected initial_done hs level sender body) w w' real r e =
      subst ReadyWorld (some-eq e) (
        on_message-keeps (bridge_api equal_fold sub_ok connected guild hs) ReadyWorld
          (bridge_api-Keeps equal_fold sub_ok connected guild hs real) initial_done admins sender
          body w level r)

  fails_after : (events : List Event) {w : World} → react_from events none ≡ some w → ⊥
  fails_after events h = cc

  react_from-Ready :
      (events : List Event) (w : World) {w' : World}
      → All (Tame guild) events
      → ReadyWorld w
      → react_from events (some w) ≡ some w'
      → ReadyWorld w'
  react_from-Ready [] w tame r e = subst ReadyWorld (some-eq e) r
  react_from-Ready (event ∷ events) w {w'} tame r e = elim (Option-cases (react event w)) [
    | inl panic ↦ absurd (fails_after events (subst (λ o. react_from events o ≡ some w') panic e))
    | inr (n, ok) ↦
        react_from-Ready events n tame.1 (react-Ready event w n tame.0 r ok)
          (subst (λ o. react_from events o ≡ some w') ok e)
  ]

-- From free slots, after any calls and any messages to the bot, of admins or not, one at a time in
-- any order, where sidecars and bridge events name real channels: the slots and the bridges are in one-to-one order.
pub react_from-Assigned :
    (equal_fold : Bytes → Bytes → Bool) (guild : Bytes) (admins : List Bytes) (events : List Event)
    (slots : List Slot) (signaller store : Bool) (db : Store) (w : World)
    → AllFree slots
    → All (Tame guild) events
    → react_from equal_fold guild admins events
        (some (record { manager = new_manager slots signaller store; db = db }))
      ≡ some w
    → Assigned w.manager.slots w.manager.active_bridges
react_from-Assigned equal_fold guild admins events slots signaller store db w f tame e =
    (react_from-Ready equal_fold guild admins events _ tame
      (new_manager-Ready slots signaller store f) e).inv
