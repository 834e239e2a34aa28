-- ===== src/Livekit/Rooms.antt =====
-- pkg/livekit/manager.go: the joined LiveKit rooms over every interleaving of the calls.
use matrix_discord_voice_bri.Base.{
  ℕ, ◌≡◌, refl, ap, ◌∙◌, sym, Bool, true, false, Option, none, some, List, [], ◌∷◌, ◌++◌, arith,
  if◌then◌else◌, Bool-cases, inl, inr, nat_beq_iff, some-eq,
}
use matrix_discord_voice_bri.Base.Eq.{◌==◌, nat_eq, elem, elem-append}
use matrix_discord_voice_bri.Base.Assoc.{lookup, delete, has, values, lookup-delete_ne}
use matrix_discord_voice_bri.Livekit.Participants.{
  World, Step, dialing, left, start, connect, fail, unpublished, give_up, finish, disconnect,
  remove, shut_down, hang_up, Reachable, from_start, next, on_disconnected, remove_participant,
  close, without, is_room, rooms_of,
}
use matrix_discord_voice_bri.Livekit.Flights.{
  Owner, participant, caller, leaver, Tracked, elem-without, elem-values, has-delete, has-none,
  dialing-in_room, left-in_room,
}
use matrix_discord_voice_bri.Livekit.Attempts.{
  start-Tracked, connect-Tracked, cleared-Tracked, unpublished-Tracked, finish-Tracked,
}

-- A room is left, and with it goes at most the participant whose room it is.
disconnect-Tracked :
    (user room : ℕ) (w : World)
    → Tracked w
    → Tracked
        (record w { manager = on_disconnected user room w.manager; joined = without room w.joined })
unfolding on_disconnected
disconnect-Tracked user room w v = go (is_room room (lookup user w.manager.participants)) refl
  where
    its_room : (o : Option ℕ) → is_room room o ≡ true → o ≡ some room
    its_room none h = ground arith
    its_room (some p) h = ap some (ground (arith, nat_beq_iff p room))

    go :
        (b : Bool)
        → is_room room (lookup user w.manager.participants) ≡ b
        → Tracked (record w {
          manager =
              if b
              then record w.manager { participants = delete user w.manager.participants }
              else w.manager;
          joined = without room w.joined;
        })
    go false e = record {
      marked = v.marked;
      new = v.new;
      owned = λ r h. elim (v.owned r (ground (arith, elem-without room w.joined r))) [
        | participant u at ↦ participant u at
        | caller u at ↦ caller u at
        | leaver at ↦ leaver at
      ];
    }
    go true e = record {
      marked = v.marked;
      new = λ u h. ground (arith, v.new u, has-delete user u w.manager.participants);
      owned = λ r h. elim (v.owned r (ground (arith, elem-without room w.joined r))) [
        | participant u at ↦ participant u (
            lookup-delete_ne user u w.manager.participants (λ same. ground (
              arith,
              elem-without room w.joined r,
              nat_beq_iff r room,
              some-eq (
                  sym at
                  ∙ ap (λ k. lookup k w.manager.participants) (sym same)
                  ∙ its_room (lookup user w.manager.participants) e),
            ))
            ∙ at)
        | caller u at ↦ caller u at
        | leaver at ↦ leaver at
      ];
    }

elem-append_left : (r : ℕ) (xs ys : List ℕ) → elem r xs ≡ true → elem r (xs ++ ys) ≡ true
elem-append_left r xs ys h = ground (arith, elem-append r xs ys)

elem-append_right : (r : ℕ) (xs ys : List ℕ) → elem r ys ≡ true → elem r (xs ++ ys) ≡ true
elem-append_right r xs ys h = ground (arith, elem-append r xs ys)

remove-Tracked :
    (user : ℕ) (w : World)
    → Tracked w
    → Tracked (record w {
      manager = (remove_participant user w.manager).0;
      leaving = (remove_participant user w.manager).1 ++ w.leaving;
    })
unfolding remove_participant
remove-Tracked user w v = record {
  marked = v.marked;
  new = λ u h. ground (arith, v.new u, has-delete user u w.manager.participants);
  owned = λ r h. elim (v.owned r h) [
    | participant u at ↦ elim (Bool-cases (user == u)) [
      | inl this ↦
          let same : user ≡ u = ground (arith, nat_beq_iff user u) in
          leaver (
            elem-append_left r (rooms_of (lookup user w.manager.participants)) w.leaving (
              ap (λ k. elem r (rooms_of (lookup k w.manager.participants))) same
              ∙ ap (λ o. elem r (rooms_of o)) at
              ∙ itself r))
      | inr other ↦
          participant u (
            lookup-delete_ne user u w.manager.participants (ground (arith, nat_beq_iff user u))
            ∙ at)
    ]
    | caller u at ↦ caller u at
    | leaver at ↦
        leaver (elem-append_right r (rooms_of (lookup user w.manager.participants)) w.leaving at)
  ];
}
  where
    itself : (r : ℕ) → elem r (r ∷ []) ≡ true
    itself r = unfold elem in ground (arith, nat_beq_iff r r)

close-Tracked :
    (w : World)
    → Tracked w
    → Tracked
        (record w { manager = (close w.manager).0; leaving = (close w.manager).1 ++ w.leaving })
unfolding close
close-Tracked w v = record {
  marked = v.marked;
  new = λ u h. unfold has lookup in refl;
  owned = λ r h. elim (v.owned r h) [
    | participant u at ↦ leaver (
        elem-append_left r (values w.manager.participants) w.leaving
          (elem-values u r w.manager.participants at))
    | caller u at ↦ caller u at
    | leaver at ↦ leaver (elem-append_right r (values w.manager.participants) w.leaving at)
  ];
}

hang_up-Tracked :
    (room : ℕ) (w : World)
    → Tracked w
    → Tracked (record w { leaving = without room w.leaving; joined = without room w.joined })
hang_up-Tracked room w v = record {
  marked = v.marked;
  new = v.new;
  owned = λ r h. elim (v.owned r (ground (arith, elem-without room w.joined r))) [
    | participant u at ↦ participant u at
    | caller u at ↦ caller u at
    | leaver at ↦
        leaver (ground (arith, elem-without room w.leaving r, elem-without room w.joined r))
  ];
}

Step-Tracked : {w w' : World} → Tracked w → Step w w' → Tracked w'
Step-Tracked {w} v (start user) = start-Tracked user w v
Step-Tracked {w} v (connect user room at) = connect-Tracked user room w v at
Step-Tracked {w} v (fail user at) = cleared-Tracked user dialing w v at (λ r. dialing-in_room)
Step-Tracked {w} v (unpublished user room at) = unpublished-Tracked user room w v at
Step-Tracked {w} v (give_up user at) = cleared-Tracked user left w v at (λ r. left-in_room)
Step-Tracked {w} v (finish user room at) = finish-Tracked user room w v at
Step-Tracked {w} v (disconnect user room) = disconnect-Tracked user room w v
Step-Tracked {w} v (remove user) = remove-Tracked user w v
Step-Tracked {w} v shut_down = close-Tracked w v
Step-Tracked {w} v (hang_up room at) = hang_up-Tracked room w v

Reachable-Tracked : {w : World} → Reachable w → Tracked w
Reachable-Tracked from_start = record {
  marked = λ u. unfold has lookup in refl;
  new = λ u h. unfold has lookup in refl;
  owned = λ r h. absurd (unfold elem in cc);
}
Reachable-Tracked (next v w before s) = Step-Tracked (Reachable-Tracked before) s

-- In every state that can be reached, however the steps of the calls interleave: for every joined
-- room there is a participant whose room it is, or a call of `ensureParticipant` that is in it, or a
-- call of `RemoveParticipant` or `Close` that is about to disconnect it; and a user with a call of
-- `ensureParticipant` in flight has no participant, so that its second section writes over none.
pub no_room_leaks :
    (w : World)
    → Reachable w
    → ((r : ℕ) → elem r w.joined ≡ true → Owner w r)
      × ((u : ℕ) → has u w.flights ≡ true → lookup u w.manager.participants ≡ none)
no_room_leaks w reached =
    let v = Reachable-Tracked reached in
    (v.owned, λ u flying. has-none u w.manager.participants (v.new u (sym (v.marked u) ∙ flying)))
