-- ===== src/Livekit/Attempts.antt =====
-- pkg/livekit/manager.go: the steps of `ensureParticipant` leave no joined room without an owner.
use matrix_discord_voice_bri.Base.{
  ℕ, ◌≡◌, ◌≢◌, ap, ◌∙◌, sym, true, false, none, some, ◌∷◌, arith, if◌then◌else◌, Bool-cases, inl,
  inr, nat_beq_iff,
}
use matrix_discord_voice_bri.Base.Eq.{◌==◌, nat_eq, elem}
use matrix_discord_voice_bri.Base.Assoc.{
  lookup, insert, delete, has, lookup-insert_ne, lookup-insert_self, lookup-delete_ne,
}
use matrix_discord_voice_bri.Livekit.Participants.{
  World, Stage, dialing, left, in_room, begin_ensure, end_ensure, clear_connecting, without,
}
use matrix_discord_voice_bri.Livekit.Flights.{
  Owner, participant, caller, leaver, Tracked, elem-without, has-delete, has-insert, has-some,
  has-none, in_room-eq, dialing-in_room,
}

pub start-Tracked :
    (user : ℕ) (w : World)
    → Tracked w
    → Tracked (record w {
      manager = (begin_ensure user w.manager).0;
      flights = if (begin_ensure user w.manager).1 then (user, dialing) ∷ w.flights else w.flights;
    })
unfolding begin_ensure
start-Tracked user w v = elim (Bool-cases (has user w.manager.participants)) [
  | inl there ↦ rw there v
  | inr absent ↦ rw absent (elim (Bool-cases (has user w.manager.connecting)) [
    | inl flying ↦ rw flying v
    | inr idle ↦ rw idle (record {
      marked =
          λ u. ground (arith, v.marked u, has-cons u, has-insert user u true w.manager.connecting);
      new = λ u h.
          ground (arith, v.new u, has-insert user u true w.manager.connecting, nat_beq_iff user u);
      owned = λ r h. kept idle r (v.owned r h);
    })
  ])
]
  where
    has-cons :
        (u : ℕ)
        → has u ((user, dialing) ∷ w.flights) ≡ (if user == u then true else has u w.flights)
    has-cons u = unfold has lookup in ground arith

    kept :
        has user w.manager.connecting ≡ false
        → (r : ℕ) → Owner w r
        → Owner
            (record w {
              manager = record w.manager { connecting = insert user true w.manager.connecting };
              flights = (user, dialing) ∷ w.flights;
            })
            r
    kept idle r (participant u at) = participant u at
    kept idle r (caller u at) = caller u (
        unfold lookup in
        ground
          (arith, at, nat_beq_iff user u, has-some u (in_room r) w.flights at, v.marked u, idle))
    kept idle r (leaver at) = leaver at

pub connect-Tracked :
    (user room : ℕ) (w : World)
    → Tracked w
    → lookup user w.flights ≡ some dialing
    → Tracked
        (record w { flights = insert user (in_room room) w.flights; joined = room ∷ w.joined })
connect-Tracked user room w v there = record {
  marked = λ u. ground (
    arith,
    v.marked u,
    has-insert user u (in_room room) w.flights,
    has-some user dialing w.flights there,
    nat_beq_iff user u,
  );
  new = v.new;
  owned = λ r h. elim (Bool-cases (room == r)) [
    | inl this ↦ caller user (
        lookup-insert_self user (in_room room) w.flights
        ∙ ap (λ x. some (in_room x)) (ground (arith, nat_beq_iff room r)))
    | inr other ↦ kept r (v.owned r (older r other h))
  ];
}
  where
    older : (r : ℕ) → (room == r) ≡ false → elem r (room ∷ w.joined) ≡ true → elem r w.joined ≡ true
    older r other h = unfold elem in ground arith

    kept :
        (r : ℕ)
        → Owner w r
        → Owner
            (record w { flights = insert user (in_room room) w.flights; joined = room ∷ w.joined })
            r
    kept r (participant u at) = participant u at
    kept r (caller u at) = caller u (
        lookup-insert_ne user u (in_room room) w.flights
          (λ e. dialing-in_room (sym there ∙ ap (λ k. lookup k w.flights) e ∙ at))
        ∙ at)
    kept r (leaver at) = leaver at

-- The end of a call that joined no room.
pub cleared-Tracked :
    (user : ℕ) (stage : Stage) (w : World)
    → Tracked w
    → lookup user w.flights ≡ some stage
    → ((r : ℕ) → some stage ≢ some (in_room r))
    → Tracked
        (record w { manager = clear_connecting user w.manager; flights = delete user w.flights })
unfolding clear_connecting
cleared-Tracked user stage w v there outside = record {
  marked = λ u.
      ground
        (arith, v.marked u, has-delete user u w.flights, has-delete user u w.manager.connecting);
  new = λ u h. ground (arith, v.new u, has-delete user u w.manager.connecting);
  owned = λ r h. kept r (v.owned r h);
}
  where
    kept :
        (r : ℕ)
        → Owner w r
        → Owner
            (record w {
              manager = record w.manager { connecting = delete user w.manager.connecting };
              flights = delete user w.flights;
            })
            r
    kept r (participant u at) = participant u at
    kept r (caller u at) = caller u (
        lookup-delete_ne user u w.flights
          (λ e. outside r (sym there ∙ ap (λ k. lookup k w.flights) e ∙ at))
        ∙ at)
    kept r (leaver at) = leaver at

pub unpublished-Tracked :
    (user room : ℕ) (w : World)
    → Tracked w
    → lookup user w.flights ≡ some (in_room room)
    → Tracked (record w { flights = insert user left w.flights; joined = without room w.joined })
unpublished-Tracked user room w v there = record {
  marked = λ u. ground (
    arith,
    v.marked u,
    has-insert user u left w.flights,
    has-some user (in_room room) w.flights there,
    nat_beq_iff user u,
  );
  new = v.new;
  owned = λ r h.
      kept r (ground (arith, elem-without room w.joined r, nat_beq_iff r room))
        (v.owned r (ground (arith, elem-without room w.joined r)));
}
  where
    kept :
        (r : ℕ)
        → r ≢ room
        → Owner w r
        → Owner
            (record w { flights = insert user left w.flights; joined = without room w.joined })
            r
    kept r other (participant u at) = participant u at
    kept r other (caller u at) = caller u (
        lookup-insert_ne user u left w.flights
          (λ e. other (in_room-eq (sym at ∙ ap (λ k. lookup k w.flights) (sym e) ∙ there)))
        ∙ at)
    kept r other (leaver at) = leaver at

pub finish-Tracked :
    (user room : ℕ) (w : World)
    → Tracked w
    → lookup user w.flights ≡ some (in_room room)
    → Tracked
        (record w { manager = end_ensure user room w.manager; flights = delete user w.flights })
unfolding end_ensure
finish-Tracked user room w v there = record {
  marked = λ u.
      ground
        (arith, v.marked u, has-delete user u w.flights, has-delete user u w.manager.connecting);
  new = λ u h. ground (
    arith,
    v.new u,
    has-delete user u w.manager.connecting,
    has-insert user u room w.manager.participants,
    nat_beq_iff user u,
  );
  owned = λ r h. kept r (v.owned r h);
}
  where
    absent : lookup user w.manager.participants ≡ none
    absent =
        has-none user w.manager.participants
          (v.new user (sym (v.marked user) ∙ has-some user (in_room room) w.flights there))

    kept :
        (r : ℕ)
        → Owner w r
        → Owner
            (record w {
              manager = record w.manager {
                participants = insert user room w.manager.participants;
                connecting = delete user w.manager.connecting;
              };
              flights = delete user w.flights;
            })
            r
    kept r (participant u at) = participant u (
        lookup-insert_ne user u room w.manager.participants (λ e. ground (arith, absent, at, e))
        ∙ at)
    kept r (caller u at) = elim (Bool-cases (user == u)) [
      | inl this ↦
          let same : user ≡ u = ground (arith, nat_beq_iff user u) in
          participant user (
            lookup-insert_self user room w.manager.participants
            ∙ ap some (in_room-eq (sym there ∙ ap (λ k. lookup k w.flights) same ∙ at)))
      | inr other ↦
          caller u (lookup-delete_ne user u w.flights (ground (arith, nat_beq_iff user u)) ∙ at)
    ]
    kept r (leaver at) = leaver at
