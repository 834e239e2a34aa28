-- ===== src/Matrix/Renewal.antt =====
-- pkg/matrix/signalling.go: `StartRenewal`, which sends every membership again each three hours.
use matrix_discord_voice_bri.Base.{
  ℕ, zero, suc, ◌+◌, ◌-◌, ◌*◌, ◌/◌, ◌≤◌, ◌≡◌, refl, sym, ap, ◌∙◌, subst, true, ◌&&◌, some, List, [],
  ◌∷◌, ◌++◌, map, if◌then◌else◌, arith, Bool-cases, inl, inr,
}
use matrix_discord_voice_bri.Base.Eq.{Bytes, ◌==◌, nat_eq, bytes_eq, bytes_beq_iff}
use matrix_discord_voice_bri.Base.Assoc.{lookup, values}
use matrix_discord_voice_bri.Matrix.Signaller.{
  MemberInfo, Signaller, CallEnv, Content, membership, no_membership, StateEvent, join_event,
  member_of, livekit_identity, state_key_of,
}

-- Three hours, the ticker's period, and four, for which a membership holds, in milliseconds.
abbrev pub period : ℕ
period = 10800000

abbrev pub membership_expiry : ℕ
membership_expiry = 14400000

unfoldable pub renew_event : (Bytes → Bytes) → Bytes → ℕ → MemberInfo → StateEvent
renew_event alias service now info = record {
  sender = info.mxid;
  room = info.room_id;
  key = info.state_key;
  content =
      membership info.device_id (info.mxid ++ 58 ∷ info.device_id) (now + membership_expiry) service
        (alias info.room_id);
}

-- What a tick at the time `now` sends.
unfoldable pub renew_tick : (Bytes → Bytes) → ℕ → Signaller → List StateEvent
renew_tick alias now s = map (renew_event alias s.lk_jwt_service now) (values s.active)

-- The ticks of the numbers from `first`, of a ticker that was started at `start`; `at` is the signaller
-- at each of them.
unfoldable pub renew_ticks : (Bytes → Bytes) → ℕ → (ℕ → Signaller) → ℕ → ℕ → List StateEvent
renew_ticks alias start at first zero = []
renew_ticks alias start at first (suc n) =
    renew_tick alias (start + first * period) (at first) ++ renew_ticks alias start at (suc first) n

-- The state of a room under a key after the events, all of which the homeserver takes.
unfoldable pub stored : Bytes → Bytes → List StateEvent → Content → Content
stored room key [] c = c
stored room key (e ∷ es) c =
    stored room key es (if (e.room == room) && (e.key == key) then e.content else c)

-- When a membership ends.
abbrev pub expires : Content → ℕ
expires (membership device id ts service alias) = ts
expires no_membership = 0

stored-append :
    (room key : Bytes) (es fs : List StateEvent) (c : Content)
    → stored room key (es ++ fs) c ≡ stored room key fs (stored room key es c)
unfolding stored
stored-append room key [] fs c = refl
stored-append room key (e ∷ es) fs c = stored-append room key es fs _

-- Once a tick's membership is stored, the tick's other memberships end at the same time.
stays_fresh :
    (alias : Bytes → Bytes) (service : Bytes) (now : ℕ) (room key : Bytes) (infos : List MemberInfo)
    (c : Content)
    → expires c ≡ now + membership_expiry
    → expires (stored room key (map (renew_event alias service now) infos) c)
      ≡ now + membership_expiry
unfolding stored renew_event
stays_fresh alias service now room key [] c h = h
stays_fresh alias service now room key (info ∷ infos) c h =
    stays_fresh alias service now room key infos _ (ground arith)

renews :
    (alias : Bytes → Bytes) (service : Bytes) (now user : ℕ) (active : List (ℕ × MemberInfo))
    (info : MemberInfo) (c : Content)
    → lookup user active ≡ some info
    → expires
        (stored info.room_id info.state_key (map (renew_event alias service now) (values active)) c)
      ≡ now + membership_expiry
unfolding stored renew_event lookup
renews alias service now user [] info c h = cc
renews alias service now user ((k, i) ∷ active) info c h = elim (Bool-cases (k == user)) [
  | inl mine ↦
      let same : i ≡ info = ground arith in
      stays_fresh alias service now info.room_id info.state_key (values active) _ (
        ground (
          arith,
          same,
          bytes_beq_iff i.room_id info.room_id,
          bytes_beq_iff i.state_key info.state_key,
        ))
  | inr other ↦ renews alias service now user active info _ (ground arith)
]

stored-own :
    (room key : Bytes) (e : StateEvent) (es : List StateEvent) (c : Content)
    → e.room ≡ room
    → e.key ≡ key
    → stored room key es e.content ≡ stored room key (e ∷ es) c
unfolding stored
stored-own room key e es c h k =
    let mine : ((e.room == room) && (e.key == key)) ≡ true =
      ground (arith, h, k, bytes_beq_iff e.room room, bytes_beq_iff e.key key) in
    ap (λ b. stored room key es (if b then e.content else c)) (sym mine)

-- A renewal is the event that a join of the user would send at that time.
pub renew_event-join_event :
    (env : CallEnv) (user : ℕ) (room : Bytes) (s : Signaller)
    → renew_event env.alias s.lk_jwt_service env.now (member_of s.server_name user room)
      ≡ join_event env s user room
unfolding renew_event livekit_identity
renew_event-join_event env user room s = refl

stored_nil : (room key : Bytes) (c : Content) → stored room key [] c ≡ c
unfolding stored
stored_nil room key c = refl

last_tick :
    (alias : Bytes → Bytes) (start user : ℕ) (at : ℕ → Signaller) (info : MemberInfo) (first n : ℕ)
    (c : Content)
    → ((k : ℕ) → lookup user (at k).active ≡ some info)
    → expires (stored info.room_id info.state_key (renew_ticks alias start at first (suc n)) c)
      ≡ start + (first + n) * period + membership_expiry
unfolding renew_ticks renew_tick
last_tick alias start user at info first zero c h =
    ap expires (
      stored-append info.room_id info.state_key
        (renew_tick alias (start + first * period) (at first)) [] c
      ∙ stored_nil info.room_id info.state_key _)
    ∙ renews alias (at first).lk_jwt_service (start + first * period) user (at first).active info c
        (h first)
    ∙ omega arith
last_tick alias start user at info first (suc n) c h =
    ap expires (
      stored-append info.room_id info.state_key
        (renew_tick alias (start + first * period) (at first))
        (renew_ticks alias start at (suc first) (suc n)) c)
    ∙ last_tick alias start user at info (suc first) n _ h
    ∙ omega arith

-- The number of the last tick up to a time.
abbrev pub tick_at : ℕ → ℕ → ℕ
tick_at start time = (time - start) / period

module _ (env : CallEnv) (start user : ℕ) (room : Bytes) (s : Signaller) (at : ℕ → Signaller) where
  -- What is sent from a join on, up to a time: the join, and the ticks after it.
  unfoldable pub sent_until : ℕ → List StateEvent
  sent_until to =
      join_event env s user room
      ∷ renew_ticks env.alias start at (suc (tick_at start env.now))
          (tick_at start to - tick_at start env.now)

  lasts :
      (to n : ℕ) (c : Content)
      → start ≤ env.now
      → env.now ≤ to
      → ((k : ℕ) → lookup user (at k).active ≡ some (member_of s.server_name user room))
      → tick_at start to - tick_at start env.now ≡ n
      → expires c ≡ env.now + membership_expiry
      → to + 3600000
        ≤ expires (
            stored room
              (state_key_of s.server_name user)
              (renew_ticks env.alias start at (suc (tick_at start env.now)) n)
              c)
  unfolding renew_ticks stored
  lasts to zero c after_start later active e h = omega (arith, after_start, later, e, h)
  lasts to (suc n) c after_start later active e h = omega (
    arith,
    after_start,
    later,
    e,
    last_tick env.alias start user at (member_of s.server_name user room)
        (suc (tick_at start env.now)) n c active,
  )

  -- A user who joined a call after the ticker was started and stays in it, whoever else comes and goes:
  -- when the homeserver takes the requests, the membership that it has at any later time ends at least
  -- an hour after that time, so it never runs out.
  pub membership_lasts :
      (to : ℕ) (c : Content)
      → start ≤ env.now
      → env.now ≤ to
      → ((k : ℕ) → lookup user (at k).active ≡ some (member_of s.server_name user room))
      → to + 3600000 ≤ expires (stored room (state_key_of s.server_name user) (sent_until to) c)
  unfolding sent_until
  membership_lasts to c after_start later active =
      subst (λ d. to + 3600000 ≤ expires d)
        (stored-own room (state_key_of s.server_name user) (join_event env s user room)
          (renew_ticks env.alias start at (suc (tick_at start env.now))
            (tick_at start to - tick_at start env.now))
          c refl refl)
        (lasts to (tick_at start to - tick_at start env.now) (join_event env s user room).content
          after_start later active refl refl)
