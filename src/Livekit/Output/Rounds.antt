-- ===== src/Livekit/Output/Rounds.antt =====
-- pkg/livekit/subscriber.go: the rounds of `WriteSample` against one sample at a time.
use matrix_discord_voice_bri.Base.{
  ℕ, zero, suc, ◌+◌, ◌-◌, ◌≤◌, ◌<◌, ◌≡◌, refl, sym, ap, ◌∙◌, Bool, true, false, Option, none, some,
  List, [], ◌∷◌, ◌++◌, arith, if◌then◌else◌, leb, length, take, drop, take-short, drop-short,
  length-take, length-drop, take-append-drop, Bool-cases, inl, inr, append_assoc, append-nil,
  length-append, on_branches,
}
use matrix_discord_voice_bri.Base.Eq.{Bytes}
use matrix_discord_voice_bri.Livekit.SoftLimit.{ℤ}
use matrix_discord_voice_bri.Livekit.Output.{
  samples_per_frame, OpusOutput, stereo, and_then, extend, deliver, flush, write_loop, push,
  push_all,
}

module _ (encode : List (List ℤ) → Option Bytes) (handler : List Bytes → Bool) where
  extend-extend :
      (s : ℤ) (xs : List ℤ) (o : OpusOutput) → extend xs (extend (s ∷ []) o) ≡ extend (s ∷ xs) o
  extend-extend s xs o = ap (λ m. record o { mono = m }) (append_assoc o.mono (s ∷ []) xs)

  push-short :
      (s : ℤ) (o : OpusOutput)
      → length o.mono + 1 < samples_per_frame
      → push encode handler s o ≡ (extend (s ∷ []) o, true)
  unfolding push
  push-short s o room =
      ap (λ b. if b then flush encode handler (extend (s ∷ []) o) else (extend (s ∷ []) o, true))
        not_full
    where
      not_full : leb samples_per_frame (length (o.mono ++ s ∷ [])) ≡ false
      not_full = ground (arith, length-append o.mono (s ∷ []))

  push-full :
      (s : ℤ) (o : OpusOutput)
      → length o.mono + 1 ≡ samples_per_frame
      → push encode handler s o ≡ flush encode handler (extend (s ∷ []) o)
  unfolding push
  push-full s o room =
      ap (λ b. if b then flush encode handler (extend (s ∷ []) o) else (extend (s ∷ []) o, true))
        full
    where
      full : leb samples_per_frame (length (o.mono ++ s ∷ [])) ≡ true
      full = ground (arith, length-append o.mono (s ∷ []))

  push_all-short :
      (sample : List ℤ) (o : OpusOutput)
      → length o.mono + length sample < samples_per_frame
      → push_all encode handler sample o ≡ (extend sample o, true)
  unfolding push_all
  push_all-short [] o room = ap (λ m. (record o { mono = m }, true)) (sym (append-nil o.mono))
  push_all-short (s ∷ ss) o room =
      ap (and_then (push_all encode handler ss)) (push-short s o (omega (arith, room)))
      ∙ push_all-short ss (extend (s ∷ []) o) (omega (arith, room, length-append o.mono (s ∷ [])))
      ∙ ap (λ x. (x, true)) (extend-extend s ss o)

  push_all-full :
      (s : ℤ) (xs ys : List ℤ) (o : OpusOutput)
      → length o.mono + suc (length xs) ≡ samples_per_frame
      → push_all encode handler ((s ∷ xs) ++ ys) o
        ≡ and_then (push_all encode handler ys) (flush encode handler (extend (s ∷ xs) o))
  unfolding push_all
  push_all-full s [] ys o room =
      ap (and_then (push_all encode handler ys)) (push-full s o (omega (arith, room)))
  push_all-full s (x ∷ xs) ys o room =
      ap (and_then (push_all encode handler (x ∷ xs ++ ys))) (push-short s o (omega (arith, room)))
      ∙ push_all-full x xs ys (extend (s ∷ []) o)
          (omega (arith, room, length-append o.mono (s ∷ [])))
      ∙ ap (λ p. and_then (push_all encode handler ys) (flush encode handler p))
          (extend-extend s (x ∷ xs) o)

  -- After a flush without the handler's error the buffer is empty.
  pub after_flush :
      (f g : OpusOutput → OpusOutput × Bool) (o : OpusOutput)
      → ((p : OpusOutput) → p.mono ≡ [] → f p ≡ g p)
      → and_then f (flush encode handler o) ≡ and_then g (flush encode handler o)
  unfolding flush deliver
  after_flush f g o same = answered (encode (stereo o.mono ∷ o.encoded)) _
    where
      answered :
          (answer : Option Bytes) (p : OpusOutput)
          → and_then f (deliver encode handler answer p)
            ≡ and_then g (deliver encode handler answer p)
      answered none p = same _ refl
      answered (some packet) p =
          on_branches {A = OpusOutput × Bool} (λ r. and_then f r ≡ and_then g r)
            (handler (packet ∷ p.delivered)) (λ e. same _ refl) (λ e. refl)

  pub write_loop_nil : (fuel : ℕ) (o : OpusOutput) → write_loop encode handler fuel [] o ≡ (o, true)
  unfolding write_loop
  write_loop_nil zero o = refl
  write_loop_nil (suc fuel) o = refl

  -- A round that copies `n` samples at most.
  abbrev pub round : ℕ → ℕ → List ℤ → OpusOutput → OpusOutput × Bool
  round fuel n sample o =
      let copied = extend (take n sample) o in
      let rest = write_loop encode handler fuel (drop n sample) in
      if leb samples_per_frame (length copied.mono)
      then and_then rest (flush encode handler copied)
      else rest copied

  round-full :
      (fuel k : ℕ) (s : ℤ) (ss : List ℤ) (o : OpusOutput)
      → length o.mono + suc k ≡ samples_per_frame
      → k ≤ length ss
      → ((p : OpusOutput)
          → p.mono ≡ []
          → write_loop encode handler fuel (drop k ss) p ≡ push_all encode handler (drop k ss) p)
      → round fuel (suc k) (s ∷ ss) o ≡ push_all encode handler (s ∷ ss) o
  round-full fuel k s ss o room long later =
      ap
        (λ b.
          if b
          then and_then (write_loop encode handler fuel (drop k ss)) (flush encode handler copied)
          else write_loop encode handler fuel (drop k ss) copied)
        full
      ∙ after_flush (write_loop encode handler fuel (drop k ss))
          (push_all encode handler (drop k ss)) copied later
      ∙ sym (push_all-full s (take k ss) (drop k ss) o (omega (arith, room, length-take k ss long)))
      ∙ ap (λ xs. push_all encode handler (s ∷ xs) o) (take-append-drop k ss)
    where
      copied : OpusOutput
      copied = extend (s ∷ take k ss) o

      full : leb samples_per_frame (length (o.mono ++ s ∷ take k ss)) ≡ true
      full = ground (arith, room, length-append o.mono (s ∷ take k ss), length-take k ss long)

  round-short :
      (fuel k : ℕ) (s : ℤ) (ss : List ℤ) (o : OpusOutput)
      → length o.mono + suc k ≡ samples_per_frame
      → length ss < k
      → round fuel (suc k) (s ∷ ss) o ≡ push_all encode handler (s ∷ ss) o
  round-short fuel k s ss o room short =
      rw (take-short k ss (omega (arith, short)), drop-short k ss (omega (arith, short)))
        (ap
            (λ b.
              if b
              then and_then (write_loop encode handler fuel []) (flush encode handler copied)
              else write_loop encode handler fuel [] copied)
            not_full
          ∙ write_loop_nil fuel copied
          ∙ sym (push_all-short (s ∷ ss) o (omega (arith, room, short))))
    where
      copied : OpusOutput
      copied = extend (s ∷ ss) o

      not_full : leb samples_per_frame (length (o.mono ++ s ∷ ss)) ≡ false
      not_full = ground (arith, room, short, length-append o.mono (s ∷ ss))

  pub write_loop-push_all :
      (fuel : ℕ) (sample : List ℤ) (o : OpusOutput)
      → length o.mono < samples_per_frame
      → length sample ≤ fuel
      → write_loop encode handler fuel sample o ≡ push_all encode handler sample o
  unfolding write_loop
  write_loop-push_all zero [] o room enough = unfold push_all in refl
  write_loop-push_all zero (s ∷ ss) o room enough = absurd (omega (arith, enough))
  write_loop-push_all (suc fuel) [] o room enough = unfold push_all in refl
  write_loop-push_all (suc fuel) (s ∷ ss) o room enough =
      ap (λ n. round fuel n (s ∷ ss) o) fits ∙ elim (Bool-cases (leb k (length ss))) [
        | inl long ↦ round-full fuel k s ss o (omega (arith, room)) (ground arith) (λ p none.
            write_loop-push_all fuel (drop k ss) p (ground (arith, none))
              (omega (arith, enough, length-drop k ss)))
        | inr short ↦ round-short fuel k s ss o (omega (arith, room)) (ground arith)
      ]
    where
      k : ℕ
      k = samples_per_frame - 1 - length o.mono

      fits : samples_per_frame - length o.mono ≡ suc k
      fits = omega (arith, room)
