-- ===== src/Process/Survival.antt =====
-- cmd/bridge/main.go, pkg/ipc and pkg/bridge together: what a sidecar's bytes can do to the reader of
-- its slot.
use matrix_discord_voice_bri.Base.{
  ℕ, zero, suc, ◌<◌, ◌≡◌, ◌≢◌, refl, subst, Bool, true, false, Option, none, some, [], ◌∷◌, ◌++◌,
  arith, if◌then◌else◌, All, ◌∙◌, length, Bool-cases, inl, inr,
}
use matrix_discord_voice_bri.Base.Eq.{Bytes, ◌==◌, nat_eq}
use matrix_discord_voice_bri.Base.Assoc.{is_some, lookup}
use matrix_discord_voice_bri.Ipc.LittleEndian.{IsByte}
use matrix_discord_voice_bri.Ipc.Frame.{
  Message, ReadResult, received, failed, read_message, msg_ready, msg_shutdown, frame,
}
use matrix_discord_voice_bri.Ipc.Inverse.{received-shorter, received-frame}
use matrix_discord_voice_bri.Payload.VoiceState.{ChannelInfo, parse_voice_state, parse_channel_list}
use matrix_discord_voice_bri.Payload.UserInfo.{parse_user_info}
use matrix_discord_voice_bri.Payload.Safety.{no_parser_panics}
use matrix_discord_voice_bri.Bridge.State.{Manager, ChannelBridge}
use matrix_discord_voice_bri.Bridge.Slots.{slot_channel}
use matrix_discord_voice_bri.Bridge.Stop.{slot_death, bridge_on}
use matrix_discord_voice_bri.Bridge.Messages.{
  Handled, Kind, voice_state, channel_list, user_join, user_info, leave_channel, audio_from_discord,
  unknown, kind_of, dispatch, handle_message, handle_voice_state, handle_channel_list,
  handle_user_join, handle_user_info, handle_leave, handle_audio, ensure_room, cached_or_new,
  room_ensured, set_info,
}
use matrix_discord_voice_bri.Bridge.Death.{IsDead, slot_death-kills}
use matrix_discord_voice_bri.Bridge.DeadForever.{SameSlots, dispatch-SameSlots}
use matrix_discord_voice_bri.Process.Reader.{
  Reader, Ended, cancelled, shut_down, died, Round, again, over, panics, read_failed, handled,
  on_read, read_round, ended, read_loop,
}

-- With a signaller, a room is found or made without a panic.
room_total :
    (cached created : Option Bytes) (ch : ℕ) (info : ChannelInfo) (m : Manager)
    → m.signaller ≡ true
    → room_ensured (cached_or_new cached created ch info m) ≢ none
unfolding cached_or_new
room_total (some room) created ch info m on = λ e. ground (arith, e)
room_total none created ch info m on = rw on (λ e. ground (arith, e))

-- With a signaller, a message whose payload every parser reads makes no handler panic.
dispatch_total :
    (k : Kind) (created : Option Bytes) (slot : ℕ) (msg : Message) (m : Manager)
    → m.signaller ≡ true
    → parse_voice_state msg.payload ≢ none
    → parse_channel_list msg.payload ≢ none
    → parse_user_info msg.payload ≢ none
    → dispatch k created slot msg m ≢ none
unfolding dispatch
dispatch_total voice_state created slot msg m on v c u = go (parse_voice_state msg.payload) v
  where
    go : (p : Option (ℕ × ChannelInfo)) → p ≢ none → handle_voice_state msg.user_id p m ≢ none
    go none h = absurd (h refl)
    go (some (ch, info)) h = unfold handle_voice_state in λ e. ground (arith, e)
dispatch_total channel_list created slot msg m on v c u = go (parse_channel_list msg.payload) c
  where
    go : (p : Option (Option (ℕ × ChannelInfo))) → p ≢ none → handle_channel_list created p m ≢ none
    go none h = absurd (h refl)
    go (some none) h = unfold handle_channel_list in λ e. ground (arith, e)
    go (some (some (ch, info))) h =
        unfold handle_channel_list ensure_room in
        room_total (lookup ch m.channel_rooms) created ch info (set_info ch info m) on
dispatch_total user_join created slot msg m on v c u = go (bridge_on slot m)
  where
    go : (b : Option (ℕ × ChannelBridge)) → handle_user_join msg.user_id b m ≢ none
    go none = unfold handle_user_join in λ e. ground (arith, e)
    go (some b) = unfold handle_user_join in λ e. ground (arith, e)
dispatch_total user_info created slot msg m there v c u =
    go (parse_user_info msg.payload) m.signaller u
  where
    go :
        (p : Option (Option (Bytes × Bytes))) (on : Bool)
        → p ≢ none
        → (if on then handle_user_info msg.user_id p m else some (m, [], true)) ≢ none
    go p false h = λ e. ground (arith, e)
    go none true h = absurd (h refl)
    go (some none) true h = unfold handle_user_info in λ e. ground (arith, e)
    go (some (some x)) true h = unfold handle_user_info in λ e. ground (arith, e)
dispatch_total leave_channel created slot msg m on v c u = go (bridge_on slot m)
  where
    go : (b : Option (ℕ × ChannelBridge)) → handle_leave b m ≢ none
    go none = unfold handle_leave in λ e. ground (arith, e)
    go (some b) = unfold handle_leave in λ e. ground (arith, e)
dispatch_total audio_from_discord created slot msg m on v c u = go (bridge_on slot m)
  where
    go : (b : Option (ℕ × ChannelBridge)) → handle_audio msg.user_id msg.payload b m ≢ none
    go none = unfold handle_audio in λ e. ground (arith, e)
    go (some b) = unfold handle_audio in λ e. ground (arith, e)
dispatch_total unknown created slot msg m on v c u = λ e. ground (arith, e)

-- The slot of the reader exists.
abbrev pub HasSlot : ℕ → Manager → Type 0
HasSlot i m = is_some (slot_channel i m.slots) ≡ true

-- The slot exists, and the manager has a signaller.
abbrev pub Serves : ℕ → Manager → Type 0
Serves i m = HasSlot i m × (m.signaller ≡ true)

-- How the loop may end: cancelled only when the context is done; dead and reported if reading failed.
abbrev pub EndsWell : Reader → Manager → Ended → Type 0
EndsWell r m cancelled = r.done ≡ true
EndsWell r m shut_down = HasSlot r.slot m
EndsWell r m (died reported) = IsDead r.slot m × (reported ≡ r.primary)

-- What a round may lead to.
abbrev RoundIsFine : Reader → Bytes → Round → Type 0
RoundIsFine r s (again rest m) = (length rest < length s) × All IsByte rest × Serves r.slot m
RoundIsFine r s (over m e) = EndsWell r m e
RoundIsFine r s panics = ⊥

All-rest : (xs ys : Bytes) → All IsByte (xs ++ ys) → All IsByte ys
All-rest [] ys h = h
All-rest (x ∷ xs) ys h = All-rest xs ys h.1

pub slot_death-IsDead : (i : ℕ) (m : Manager) → HasSlot i m → IsDead i (slot_death i m).0
slot_death-IsDead i m h = go (slot_channel i m.slots) refl h
  where
    go :
        (o : Option ℕ) → slot_channel i m.slots ≡ o → is_some o ≡ true → IsDead i (slot_death i m).0
    go none e k = absurd (ground arith)
    go (some c) e k = slot_death-kills i m e

handled-IsFine :
    (r : Reader) (s rest : Bytes) (m : Manager) (h : Handled)
    → h ≢ none
    → SameSlots m h
    → length rest < length s
    → All IsByte rest
    → Serves r.slot m
    → RoundIsFine r s (handled rest h)
unfolding handled
handled-IsFine r s rest m none t same l b i = absurd (t refl)
handled-IsFine r s rest m (some (n, sent, known)) t same l b i =
    (l, b, (rw same.0 i.0, same.1 ∙ i.1))

module _ (r : Reader)
    (stays : (n : ℕ) (m : Manager) → Serves r.slot m → Serves r.slot (r.between n m)) where
  on_read-IsFine :
      (n : ℕ) (s : Bytes) (m : Manager) (x : ReadResult)
      → All IsByte s
      → Serves r.slot m
      → read_message s ≡ x
      → RoundIsFine r s (on_read r n m x)
  unfolding on_read read_failed handle_message
  on_read-IsFine n s m (failed e) bytes i x = go r.done refl
    where
      go :
          (d : Bool)
          → r.done ≡ d
          → RoundIsFine r s (
              if d
              then over (r.between n m) cancelled
              else over (slot_death r.slot (r.between n m)).0 (died r.primary))
      go true done = done
      go false live = (slot_death-IsDead r.slot (r.between n m) (stays n m i).0, refl)
  on_read-IsFine n s m (received msg rest) bytes i x =
      let shorter : length rest < length s = omega (arith, received-shorter s x) in
      let clean : All IsByte rest =
        All-rest (frame msg) rest (subst (All IsByte) (received-frame s msg rest bytes x) bytes) in
      let safe = no_parser_panics s rest msg bytes x in
      let n' = r.between n m in
      elim (Bool-cases (msg.msg_type == msg_ready)) [
        | inl ready ↦ rw ready (shorter, clean, i)
        | inr other ↦ rw other (elim (Bool-cases (msg.msg_type == msg_shutdown)) [
          | inl bye ↦ rw bye i.0
          | inr payload ↦ rw payload (
              handled-IsFine r s rest n'
                (dispatch (kind_of msg.msg_type) (r.created n) r.slot msg n')
                (dispatch_total (kind_of msg.msg_type) (r.created n) r.slot msg n' (stays n m i).1
                  safe.0 safe.1 safe.2)
                (dispatch-SameSlots (kind_of msg.msg_type) (r.created n) r.slot msg n') shorter
                clean (stays n m i))
        ])
      ]

  read_round-IsFine :
      (n : ℕ) (s : Bytes) (m : Manager)
      → All IsByte s
      → Serves r.slot m
      → RoundIsFine r s (read_round r n s m)
  unfolding read_round
  read_round-IsFine n s m bytes i = on_read-IsFine n s m (read_message s) bytes i refl

  -- Whatever bytes a sidecar sends to a slot that exists, in a manager with a signaller, and whatever
  -- the other goroutines do meanwhile, as long as they leave slot and signaller there, the slot's reader never panics and ends when the
  -- bytes do: because the context is done, with SHUTDOWN, or with the slot dead and, for the primary
  -- slot only, an error reported.
  pub read_loop_ends :
      (fuel n : ℕ) (s : Bytes) (m : Manager)
      → All IsByte s
      → Serves r.slot m
      → length s < fuel
      → (m' : Manager) × (e : Ended) × (read_loop fuel r n s m ≡ ended m' e) × EndsWell r m' e
  unfolding read_loop
  read_loop_ends zero n s m bytes i enough = absurd (omega (arith, enough))
  read_loop_ends (suc fuel) n s m bytes i enough =
      go (read_round r n s m) refl (read_round-IsFine n s m bytes i)
        (λ rest m' b j l. read_loop_ends fuel (suc n) rest m' b j (omega (arith, l, enough)))
    where
      go :
          (x : Round)
          → read_round r n s m ≡ x
          → RoundIsFine r s x
          → ((rest : Bytes) (m' : Manager)
              → All IsByte rest
              → Serves r.slot m'
              → length rest < length s
              → (m'' : Manager) × (e : Ended) × (read_loop fuel r (suc n) rest m' ≡ ended m'' e)
                × EndsWell r m'' e)
          → (m' : Manager) × (e : Ended) × (read_loop (suc fuel) r n s m ≡ ended m' e)
            × EndsWell r m' e
      go (again rest m') e f later =
          let (m'', x, same, well) = later rest m' f.1 f.2 f.0 in
          (m'', x, rw (e, read_loop) same, well)
      go (over m' x) e f later = (m', x, rw (e, read_loop) refl, f)
      go panics e f later = absurd f
