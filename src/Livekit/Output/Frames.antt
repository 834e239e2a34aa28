-- ===== src/Livekit/Output/Frames.antt =====
-- pkg/livekit/subscriber.go: the frames of `WriteSample`.
use matrix_discord_voice_bri.Base.{
  suc, ◌-◌, ◌≤◌, ◌<◌, ◌≡◌, refl, sym, ap, ◌∙◌, subst, Bool, true, false, Option, none, some, List,
  [], ◌∷◌, ◌++◌, arith, if◌then◌else◌, leb, length, Bool-cases, inl, inr, append-nil, length-append,
  on_branches,
}
use matrix_discord_voice_bri.Base.Eq.{Bytes}
use matrix_discord_voice_bri.Livekit.SoftLimit.{ℤ}
use matrix_discord_voice_bri.Livekit.Output.{
  samples_per_frame, OpusOutput, stereo, and_then, extend, deliver, flush, write_loop, write_sample,
  push, push_all, write_each,
}
use matrix_discord_voice_bri.Livekit.Output.Rounds.{
  after_flush, write_loop_nil, round, write_loop-push_all,
}

module _ (encode : List (List ℤ) → Option Bytes) (handler : List Bytes → Bool) where
  abbrev pub Bounded : OpusOutput × Bool → Type 0
  Bounded r = length r.0.mono ≤ samples_per_frame

  flush-Bounded :
      (o : OpusOutput) → length o.mono ≤ samples_per_frame → Bounded (flush encode handler o)
  unfolding flush deliver
  flush-Bounded o h = answered (encode (stereo o.mono ∷ o.encoded)) _ h
    where
      answered :
          (answer : Option Bytes) (p : OpusOutput)
          → length p.mono ≤ samples_per_frame
          → Bounded (deliver encode handler answer p)
      answered none p b = omega arith
      answered (some packet) p b =
          on_branches {A = OpusOutput × Bool} Bounded (handler (packet ∷ p.delivered))
            (λ e. omega arith) (λ e. b)

  flush-and_then :
      (f : OpusOutput → OpusOutput × Bool) (o : OpusOutput)
      → length o.mono ≤ samples_per_frame
      → ((p : OpusOutput) → p.mono ≡ [] → Bounded (f p))
      → Bounded (and_then f (flush encode handler o))
  unfolding flush deliver
  flush-and_then f o h next = answered (encode (stereo o.mono ∷ o.encoded)) _ h
    where
      answered :
          (answer : Option Bytes) (p : OpusOutput)
          → length p.mono ≤ samples_per_frame
          → Bounded (and_then f (deliver encode handler answer p))
      answered none p b = next _ refl
      answered (some packet) p b =
          on_branches {A = OpusOutput × Bool} (λ r. Bounded (and_then f r))
            (handler (packet ∷ p.delivered)) (λ e. next _ refl) (λ e. b)

  push_all-Bounded :
      (sample : List ℤ) (o : OpusOutput)
      → length o.mono < samples_per_frame
      → Bounded (push_all encode handler sample o)
  unfolding push_all push
  push_all-Bounded [] o room = omega (arith, room)
  push_all-Bounded (s ∷ ss) o room =
      on_branches {A = OpusOutput × Bool} (λ r. Bounded (and_then (push_all encode handler ss) r))
        (leb samples_per_frame (length (o.mono ++ s ∷ [])))
        (λ full.
          flush-and_then (push_all encode handler ss) (extend (s ∷ []) o)
            (omega (arith, room, length-append o.mono (s ∷ [])))
            (λ p none. push_all-Bounded ss p (ground (arith, none))))
        (λ short. push_all-Bounded ss (extend (s ∷ []) o) (ground (arith, short)))

  write_each-Bounded :
      (sample : List ℤ) (o : OpusOutput)
      → length o.mono ≤ samples_per_frame
      → Bounded (write_each encode handler sample o)
  unfolding write_each
  write_each-Bounded [] o h = h
  write_each-Bounded (s ∷ ss) o h =
      on_branches {A = OpusOutput × Bool} Bounded (leb samples_per_frame (length o.mono))
        (λ full.
          flush-and_then (push_all encode handler (s ∷ ss)) o h
            (λ p none. push_all-Bounded (s ∷ ss) p (ground (arith, none))))
        (λ room. push_all-Bounded (s ∷ ss) o (ground (arith, room)))

  loop-full :
      (s : ℤ) (ss : List ℤ) (o : OpusOutput)
      → length o.mono ≡ samples_per_frame
      → write_loop encode handler (suc (suc (length ss))) (s ∷ ss) o
        ≡ and_then (push_all encode handler (s ∷ ss)) (flush encode handler o)
  unfolding write_loop
  loop-full s ss o full =
      ap (λ n. round encode handler (suc (length ss)) n (s ∷ ss) o) no_room
      ∙ ap
          (λ m.
            if leb samples_per_frame (length m)
            then and_then rest (flush encode handler (record o { mono = m }))
            else rest (record o { mono = m }))
          (append-nil o.mono)
      ∙ ap (λ b. if b then and_then rest (flush encode handler o) else rest o) is_full
      ∙ after_flush encode handler rest (push_all encode handler (s ∷ ss)) o (λ p none.
        write_loop-push_all encode handler (suc (length ss)) (s ∷ ss) p (ground (arith, none))
          (omega arith))
    where
      rest : OpusOutput → OpusOutput × Bool
      rest = write_loop encode handler (suc (length ss)) (s ∷ ss)

      no_room : samples_per_frame - length o.mono ≡ 0
      no_room = omega (arith, full)

      is_full : leb samples_per_frame (length o.mono) ≡ true
      is_full = ground (arith, full)

  loop-each :
      (sample : List ℤ) (o : OpusOutput)
      → length o.mono ≤ samples_per_frame
      → write_loop encode handler (suc (length sample)) sample o
        ≡ write_each encode handler sample o
  unfolding write_each
  loop-each [] o h = write_loop_nil encode handler 1 o
  loop-each (s ∷ ss) o h = elim (Bool-cases (leb samples_per_frame (length o.mono))) [
    | inl full ↦ rw full (loop-full s ss o (ground arith))
    | inr room ↦ rw room (
        write_loop-push_all encode handler (suc (suc (length ss))) (s ∷ ss) o (ground arith)
          (omega arith))
  ]

  -- Whatever the encoder and the handler answer, `WriteSample` of an output that is not muted does what
  -- it would do with one sample at a time: each 960th sample completes a frame, which is limited,
  -- doubled, encoded and delivered, a frame that the encoder fails on is dropped, and the handler's
  -- error ends the call with the frame kept, which the next call with a sample tries again first. The
  -- buffer never holds more than a frame.
  pub write_sample-write_each :
      (sample : List ℤ) (o : OpusOutput)
      → o.muted ≡ false
      → length o.mono ≤ samples_per_frame
      → (write_sample encode handler sample o ≡ write_each encode handler sample o)
        × Bounded (write_sample encode handler sample o)
  unfolding write_sample
  write_sample-write_each sample o loud h =
      let same =
        ap (λ b. if b then (o, true) else write_loop encode handler (suc (length sample)) sample o)
          loud
        ∙ loop-each sample o h in
      (same, subst Bounded (sym same) (write_each-Bounded sample o h))
