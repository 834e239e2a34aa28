-- ===== src/Livekit/Output.antt =====
-- pkg/livekit/subscriber.go: `opusOutput`, which cuts the mixer's sound into frames of 20 ms.
pub mod Rounds
pub mod Frames
use matrix_discord_voice_bri.Base.{
  ℕ, zero, suc, ◌+◌, ◌-◌, ◌≤◌, ◌<◌, ◌≡◌, refl, sym, ap, ◌∙◌, subst, Bool, true, false, Option, none,
  some, List, [], ◌∷◌, ◌++◌, arith, if◌then◌else◌, leb, ltb, length, take, drop, take-short,
  drop-short, length-take, length-drop, take-append-drop, Bool-cases, inl, inr, append_assoc,
  append-nil, length-append, on_branches,
}
use matrix_discord_voice_bri.Base.Eq.{Bytes}
use matrix_discord_voice_bri.Livekit.SoftLimit.{ℤ, soft_limit}

abbrev pub samples_per_frame : ℕ
samples_per_frame = 960

-- The output; `mono` is the part of its buffer below `pos`. `encoded` are the frames that the encoder
-- was given and `delivered` those that the handler was given, the newest first.
pub record OpusOutput : Type 0 where
  pub muted : Bool
  pub mono : List ℤ
  pub encoded : List (List ℤ)
  pub delivered : List Bytes

-- `newOpusOutput`.
abbrev pub new_opus_output : OpusOutput
new_opus_output = record { muted = false; mono = []; encoded = []; delivered = [] }

-- Each sample softly limited, on both channels.
unfoldable pub stereo : List ℤ → List ℤ
stereo [] = []
stereo (s ∷ ss) = soft_limit s ∷ soft_limit s ∷ stereo ss

abbrev pub and_then : (OpusOutput → OpusOutput × Bool) → OpusOutput × Bool → OpusOutput × Bool
and_then next (o, true) = next o
and_then next (o, false) = (o, false)

abbrev pub extend : List ℤ → OpusOutput → OpusOutput
extend xs o = record o { mono = o.mono ++ xs }

-- The encoder's answer to the newest of the frames it was given, `none` for an error, and whether the
-- handler takes the newest of the packets.
module _ (encode : List (List ℤ) → Option Bytes) (handler : List Bytes → Bool) where
  unfoldable pub deliver : Option Bytes → OpusOutput → OpusOutput × Bool
  deliver none o = (record o { mono = [] }, true)
  deliver (some packet) o =
      let delivered = packet ∷ o.delivered in
      if handler delivered
      then (record o { mono = []; delivered = delivered }, true)
      else (record o { delivered = delivered }, false)

  -- What happens to a full buffer; false is the handler's error.
  unfoldable pub flush : OpusOutput → OpusOutput × Bool
  flush o =
      let encoded = stereo o.mono ∷ o.encoded in
      deliver (encode encoded) (record o { encoded = encoded })

  -- The loop of `WriteSample`: a round copies what fits and flushes a full buffer.
  unfoldable pub write_loop : ℕ → List ℤ → OpusOutput → OpusOutput × Bool
  write_loop zero sample o = (o, true)
  write_loop (suc fuel) [] o = (o, true)
  write_loop (suc fuel) (s ∷ ss) o =
      let n = samples_per_frame - length o.mono in
      let copied = record o { mono = o.mono ++ take n (s ∷ ss) } in
      let rest = write_loop fuel (drop n (s ∷ ss)) in
      if leb samples_per_frame (length copied.mono)
      then and_then rest (flush copied)
      else rest copied

  -- `WriteSample`. A round takes a sample at least, but for the first, which may find a full buffer.
  unfoldable pub write_sample : List ℤ → OpusOutput → OpusOutput × Bool
  write_sample sample o = if o.muted then (o, true) else write_loop (suc (length sample)) sample o

  -- The same one sample at a time.
  unfoldable pub push : ℤ → OpusOutput → OpusOutput × Bool
  push s o =
      let longer = record o { mono = o.mono ++ s ∷ [] } in
      if leb samples_per_frame (length longer.mono) then flush longer else (longer, true)

  unfoldable pub push_all : List ℤ → OpusOutput → OpusOutput × Bool
  push_all [] o = (o, true)
  push_all (s ∷ ss) o = and_then (push_all ss) (push s o)

  -- One sample at a time, after a try again of a frame that the handler refused.
  unfoldable pub write_each : List ℤ → OpusOutput → OpusOutput × Bool
  write_each [] o = (o, true)
  write_each (s ∷ ss) o =
      if leb samples_per_frame (length o.mono)
      then and_then (push_all (s ∷ ss)) (flush o)
      else push_all (s ∷ ss) o
