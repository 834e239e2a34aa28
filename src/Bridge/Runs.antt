-- ===== src/Bridge/Runs.antt =====
-- The manager of pkg/bridge/manager.go after any sequence of calls.
use matrix_discord_voice_bri.Base.{
  ℕ, zero, suc, ◌≡◌, refl, subst, Bool, none, some, List, [], ◌∷◌, arith, All, Option-cases, inl,
  inr, some-eq,
}
use matrix_discord_voice_bri.Base.Eq.{Bytes, nat_eq, bytes_eq}
use matrix_discord_voice_bri.Base.Assoc.{lookup, Distinct}
use matrix_discord_voice_bri.Bridge.State.{Manager, ChannelBridge, Slot, free, new_manager}
use matrix_discord_voice_bri.Bridge.Slots.{slot_channel, busy_slots, is_busy-free}
use matrix_discord_voice_bri.Bridge.Admin.{stats}
use matrix_discord_voice_bri.Bridge.Invariant.{Assigned}
use matrix_discord_voice_bri.Bridge.Ready.{
  Ready, on_call_member-Ready, stop_bridge-Ready, timer_fired-Ready, slot_death-Ready,
  remove_bot-Ready, close-Ready,
}
use matrix_discord_voice_bri.Bridge.Steps.{
  message-After, state_of-After, manual_join-Ready, manual_leave-Ready,
}
use matrix_discord_voice_bri.Bridge.Grow.{add_bot-Ready}
use matrix_discord_voice_bri.Bridge.Messages.{handle_message}
use matrix_discord_voice_bri.Bridge.Machine.{
  Op, message, call_member, timer, spawned_stop, death, remove, ask_join, ask_leave, add, shut_down,
  step, run, run_from, Sane,
}

-- The slots with which the program starts are free.
abbrev pub AllFree : List Slot → Type 0
AllFree = All (λ s. s.channel_id ≡ free)

free_slots : (i c : ℕ) (ss : List Slot) → AllFree ss → slot_channel i ss ≡ some c → c ≡ free
unfolding slot_channel
free_slots i c [] f e = cc
free_slots zero c (s ∷ ss) f e = ground (arith, f.0)
free_slots (suc i) c (s ∷ ss) f e = free_slots i c ss f.1 e

busy_slots_none : (ss : List Slot) → AllFree ss → busy_slots ss ≡ 0
unfolding busy_slots
busy_slots_none [] f = refl
busy_slots_none (s ∷ ss) f = ground (arith, is_busy-free, busy_slots_none ss f.1, f.0)

pub new_manager-Ready :
    (slots : List Slot) (signaller store : Bool)
    → AllFree slots
    → Ready (new_manager slots signaller store)
unfolding new_manager lookup Distinct
new_manager-Ready slots signaller store f = record {
  inv = record {
    distinct = tt;
    owned = λ ch b e. absurd (ground arith);
    served = λ i c e real. absurd (real.0 (free_slots i c slots f e));
    counted = busy_slots_none slots f;
  };
  rooms_real = λ room ch e. absurd (ground arith);
  infos_real = λ ch i e. absurd (ground arith);
  infos_distinct = tt;
}

module _ (equal_fold : Bytes → Bytes → Bool) where
  pub step-Ready :
      (op : Op) (m : Manager) {m' : Manager}
      → Sane op
      → Ready m
      → step equal_fold op m ≡ some m'
      → Ready m'
  unfolding step
  step-Ready (message created slot msg) m sane r e =
      state_of-After (handle_message created slot msg m) (message-After created slot msg m r sane) e
  step-Ready (call_member env room user joined) m sane r e =
      subst Ready (some-eq e) (on_call_member-Ready env room user joined m r)
  step-Ready (timer ch) m sane r e = subst Ready (some-eq e) (timer_fired-Ready ch m r)
  step-Ready (spawned_stop ch) m sane r e = subst Ready (some-eq e) (stop_bridge-Ready ch m r)
  step-Ready (death i) m sane r e = subst Ready (some-eq e) (slot_death-Ready i m r)
  step-Ready (remove i) m sane r e = subst Ready (some-eq e) (remove_bot-Ready i m r)
  step-Ready (ask_join sub_ok name) m sane r e =
      subst Ready (some-eq e) (manual_join-Ready equal_fold sub_ok name m r)
  step-Ready (ask_leave name) m sane r e =
      subst Ready (some-eq e) (manual_leave-Ready equal_fold name m r)
  step-Ready (add connected token row) m sane r e =
      subst Ready (some-eq e) (add_bot-Ready connected token row m r)
  step-Ready shut_down m sane r e = subst Ready (some-eq e) (close-Ready m r)

  pub fails : (ops : List Op) {n : Manager} → run_from equal_fold ops none ≡ some n → ⊥
  fails ops h = cc

  pub run_from-Ready :
      (ops : List Op) (m : Manager) {m' : Manager}
      → All Sane ops
      → Ready m
      → run_from equal_fold ops (some m) ≡ some m'
      → Ready m'
  run_from-Ready [] m sane r e = subst Ready (some-eq e) r
  run_from-Ready (op ∷ ops) m {m'} sane r e = elim (Option-cases (step equal_fold op m)) [
    | inl panic ↦ absurd (fails ops (subst (λ o. run_from equal_fold ops o ≡ some m') panic e))
    | inr (n, ok) ↦
        run_from-Ready ops n sane.1 (step-Ready op m sane.0 r ok)
          (subst (λ o. run_from equal_fold ops o ≡ some m') ok e)
  ]

-- A manager that starts with free slots and runs any calls, whose messages name real channels,
-- keeps its slots and bridges in one-to-one order: the bridge of a channel stands on a slot that is
-- set to that channel, every slot that is set to a channel serves the bridge of it, and as many
-- slots are busy as there are bridges.
pub run-Assigned :
    (equal_fold : Bytes → Bytes → Bool) (ops : List Op) (slots : List Slot) (signaller store : Bool)
    (m : Manager)
    → AllFree slots
    → All Sane ops
    → run equal_fold ops (new_manager slots signaller store) ≡ some m
    → Assigned m.slots m.active_bridges
unfolding run
run-Assigned equal_fold ops slots signaller store m f sane e =
    (run_from-Ready equal_fold ops (new_manager slots signaller store) sane
      (new_manager-Ready slots signaller store f) e).inv

-- After any calls from free slots, one at a time, whose messages name real channels, no two channels
-- are bridged over one slot, and `Stats` counts as many busy slots as active bridges.
pub run_exclusive :
    (equal_fold : Bytes → Bytes → Bool) (ops : List Op) (slots : List Slot) (signaller store : Bool)
    (m : Manager)
    → AllFree slots
    → All Sane ops
    → run equal_fold ops (new_manager slots signaller store) ≡ some m
    → ((c d : ℕ) (x y : ChannelBridge)
        → lookup c m.active_bridges ≡ some x
        → lookup d m.active_bridges ≡ some y
        → x.slot_index ≡ y.slot_index
        → c ≡ d)
      × ((stats m).busy ≡ (stats m).active_bridges)
unfolding stats
run_exclusive equal_fold ops slots signaller store m f sane e =
    let v = run-Assigned equal_fold ops slots signaller store m f sane e in
    (
      λ c d x y there here same.
          ground (arith, (v.owned c x there).on_slot, (v.owned d y here).on_slot),
      v.counted,
    )
