-- ===== src/Matrix/Presence.antt =====
-- pkg/matrix/signalling.go: joins, leaves and profiles over several calls, and the ghosts' names as
-- the bridge sees them.
use matrix_discord_voice_bri.Base.{
  ℕ, zero, suc, ◌≤◌, ◌<◌, ◌≡◌, refl, sym, ap, ◌∙◌, Bool, true, false, Option, none, some, List, [],
  ◌∷◌, arith, if◌then◌else◌, Bool-cases, inl, inr, nat_beq_iff,
}
use matrix_discord_voice_bri.Base.Eq.{Bytes, ◌==◌, nat_eq, elem}
use matrix_discord_voice_bri.Base.Assoc.{
  lookup, has, keys, lookup-insert_self, lookup-delete_self, lookup-delete,
}
use matrix_discord_voice_bri.Base.Text.{has_prefix}
use matrix_discord_voice_bri.Bridge.State.{Manager}
use matrix_discord_voice_bri.Bridge.Call.{JoinEnv, on_call_member}
use matrix_discord_voice_bri.Matrix.Signaller.{
  Signaller, MemberInfo, Answer, accepted, failed, cancelled, retry, after, send_state_retry,
  CallEnv, done, no_membership, member_of, join_event, joined_call, join_call, leave_event,
  leave_member, leave_call, leave_each, leave_all, ensure_profile, discord_mxid,
}

joined-done :
    (a : Answer) (user : ℕ) (room : Bytes) (s : Signaller)
    → (joined_call a user room s).1 ≡ done
    → lookup user (joined_call a user room s).0.active ≡ some (member_of s.server_name user room)
unfolding joined_call
joined-done accepted user room s h =
    lookup-insert_self user (member_of s.server_name user room) s.active
joined-done failed user room s h = absurd (ground arith)
joined-done cancelled user room s h = absurd (ground arith)

leave-forgets :
    (o : Option MemberInfo) (answers : ℕ → Answer) (user k : ℕ) (s : Signaller)
    → lookup user s.active ≡ o
    → lookup k (leave_member o answers user s).0.active
      ≡ (if user == k then none else lookup k s.active)
unfolding leave_member
leave-forgets none answers user k s e = ground (arith, nat_beq_iff user k)
leave-forgets (some info) answers user k s e = lookup-delete user k s.active

leave-known :
    (answers : ℕ → Answer) (user : ℕ) (info : MemberInfo) (s : Signaller)
    → lookup user s.active ≡ some info
    → ((leave_call answers user s).1 ≡ leave_event info ∷ [])
      × (lookup user (leave_call answers user s).0.active ≡ none)
unfolding leave_call leave_member
leave-known answers user info s e = rw e (refl, lookup-delete_self user s.active)

-- After a join that reports success, a leave ends the membership that the join sent: it empties the
-- same state event, as the same ghost in the same room, and forgets the membership, even when the
-- homeserver refuses it.
pub leave_undoes_join :
    (env : CallEnv) (user : ℕ) (room : Bytes) (s : Signaller) (answers : ℕ → Answer)
    → (join_call env user room s).2 ≡ done
    → let s' = (join_call env user room s).0 in
      ((join_call env user room s).1 ≡ join_event env s user room ∷ [])
      × ((leave_call answers user s').1
          ≡ record (join_event env s user room) { content = no_membership } ∷ [])
      × (lookup user (leave_call answers user s').0.active ≡ none)
unfolding join_call
leave_undoes_join env user room s answers h = elim (Bool-cases env.in_room) [
  | inl ready ↦
      let a = (send_state_retry env.answers).0 in
      let known = joined-done a user room s (ground (arith, h, ready)) in
      let left =
        leave-known answers user (member_of s.server_name user room) (joined_call a user room s).0
          known in
      rw ready (refl, left.0, left.1)
  | inr out ↦ absurd (ground (arith, h, out))
]

elem-keys : (k : ℕ) (l : List (ℕ × MemberInfo)) → elem k (keys l) ≡ false → lookup k l ≡ none
unfolding elem lookup
elem-keys k [] h = refl
elem-keys k ((j, v) ∷ l) h = ground (arith, elem-keys k l)

leave_each-lookup :
    (answers : ℕ → ℕ → Answer) (users : List ℕ) (k : ℕ) (s : Signaller)
    → lookup k (leave_each answers users s).0.active
      ≡ (if elem k users then none else lookup k s.active)
unfolding leave_each leave_call elem
leave_each-lookup answers [] k s = refl
leave_each-lookup answers (user ∷ users) k s =
    let s' = (leave_member (lookup user s.active) (answers user) user s).0 in
    ground (
      arith,
      leave_each-lookup answers users k s',
      leave-forgets (lookup user s.active) (answers user) user k s refl,
    )

-- No membership is left after `LeaveAll`, whatever the homeserver answers.
pub leave_all_clears :
    (answers : ℕ → ℕ → Answer) (user : ℕ) (s : Signaller)
    → lookup user (leave_all answers s).0.active ≡ none
unfolding leave_all
leave_all_clears answers user s =
    ground (arith, leave_each-lookup answers (keys s.active) user s, elem-keys user s.active)

-- A second `EnsureProfile` for a user asks for nothing and changes nothing.
pub profile_once :
    (p q : Option Bytes) (user : ℕ) (name hash name' hash' : Bytes) (s : Signaller)
    → let s' = (ensure_profile p user name hash s).0 in
      ensure_profile q user name' hash' s' ≡ (s', [])
unfolding ensure_profile has
profile_once p q user name hash name' hash' s =
    ground (arith, lookup-insert_self user true s.profile_checked)

-- The call events of the bridge's own ghosts do nothing to the bridge.
pub ghosts_ignored :
    (server : Bytes) (user : ℕ) (env : JoinEnv) (room : Bytes) (joined : Bool) (m : Manager)
    → on_call_member env room (discord_mxid server user) joined m ≡ (m, [])
unfolding on_call_member discord_mxid has_prefix
ghosts_ignored server user env room joined m = refl

Stops : (ℕ → Answer) → Answer × ℕ → Type 0
Stops answers r =
    (1 ≤ r.1) × (r.1 ≤ 3) × (r.0 ≡ answers r.1) × ((k : ℕ) → 1 ≤ k → k < r.1 → answers k ≡ failed)

early :
    (answers : ℕ → Answer)
    → answers 1 ≡ failed
    → answers 2 ≡ failed
    → (k : ℕ) → 1 ≤ k
    → k < 3
    → answers k ≡ failed
early answers e f zero l h = absurd (omega (arith, l))
early answers e f (suc zero) l h = e
early answers e f (suc (suc zero)) l h = f
early answers e f (suc (suc (suc k))) l h = absurd (omega (arith, h))

three-Stops :
    (answers : ℕ → Answer) (a b c : Answer)
    → answers 1 ≡ a
    → answers 2 ≡ b
    → answers 3 ≡ c
    → Stops answers (after a (after b (after c (failed, 0))))
unfolding Stops
three-Stops answers accepted b c e f g =
    (omega arith, omega arith, sym e, λ k l h. absurd (omega (arith, l, h)))
three-Stops answers cancelled b c e f g =
    (omega arith, omega arith, sym e, λ k l h. absurd (omega (arith, l, h)))
three-Stops answers failed accepted c e f g =
    (omega arith, omega arith, sym f, λ k l h. ap answers (omega (arith, l, h)) ∙ e)
three-Stops answers failed cancelled c e f g =
    (omega arith, omega arith, sym f, λ k l h. ap answers (omega (arith, l, h)) ∙ e)
three-Stops answers failed failed accepted e f g =
    (omega arith, omega arith, sym g, λ k l h. early answers e f k l h)
three-Stops answers failed failed failed e f g =
    (omega arith, omega arith, sym g, λ k l h. early answers e f k l h)
three-Stops answers failed failed cancelled e f g =
    (omega arith, omega arith, sym g, λ k l h. early answers e f k l h)

-- `sendStateRetry` makes between one and three requests, every request but the last is one that
-- failed, and it ends with the answer to the last one.
pub send_state_retry_stops :
    (answers : ℕ → Answer)
    → (1 ≤ (send_state_retry answers).1)
      × ((send_state_retry answers).1 ≤ 3)
      × ((send_state_retry answers).0 ≡ answers (send_state_retry answers).1)
      × ((k : ℕ) → 1 ≤ k → k < (send_state_retry answers).1 → answers k ≡ failed)
unfolding send_state_retry retry Stops
send_state_retry_stops answers =
    three-Stops answers (answers 1) (answers 2) (answers 3) refl refl refl
