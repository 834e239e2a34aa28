-- ===== src/Livekit/Downmix.antt =====
-- pkg/livekit/subscriber.go: the downmix of `trackLoop`, from two channels to one. The product with the
-- floating-point gain is an argument.
use matrix_discord_voice_bri.Base.{
  ℕ, zero, suc, ◌+◌, ◌-◌, ◌/◌, ◌<◌, ◌≤◌, ◌≡◌, List, [], ◌∷◌, arith, if◌then◌else◌, ltb, length, All,
  on_branches, ◌*◌,
}
use matrix_discord_voice_bri.Livekit.SoftLimit.{ℤ, pos, negsuc, size, with_size, IsSample}

-- A sum of int32 values that are far from their bounds.
infixl 60 ◌+ℤ◌
unfoldable pub ◌+ℤ◌ : ℤ → ℤ → ℤ
pos a +ℤ pos b = pos (a + b)
pos a +ℤ negsuc b = if ltb b a then pos (a - suc b) else negsuc (b - a)
negsuc a +ℤ pos b = if ltb a b then pos (b - suc a) else negsuc (a - b)
negsuc a +ℤ negsuc b = negsuc (suc (a + b))

-- Division by two, which Go rounds towards zero.
unfoldable pub half : ℤ → ℤ
half s = with_size s (size s / 2)

-- The mean of the two channels, with the gain.
unfoldable pub mono_sample : (ℤ → ℤ) → ℤ → ℤ → ℤ
mono_sample gain left right = gain (half (left +ℤ right))

-- The loop over the decoded samples.
unfoldable pub downmix : (ℤ → ℤ) → List ℤ → List ℤ
downmix gain [] = []
downmix gain (left ∷ []) = []
downmix gain (left ∷ right ∷ rest) = mono_sample gain left right ∷ downmix gain rest

positive-IsSample : (n k : ℕ) → k < 32768 → IsSample (with_size (pos n) k)
unfolding IsSample with_size
positive-IsSample n k h = h

negative-IsSample : (n k : ℕ) → k ≤ 32768 → IsSample (with_size (negsuc n) k)
unfolding IsSample with_size
negative-IsSample n zero h = omega arith
negative-IsSample n (suc k) h = omega (arith, h)

-- The mean of two samples is a sample.
half-IsSample : (a b : ℤ) → IsSample a → IsSample b → IsSample (half (a +ℤ b))
unfolding ◌+ℤ◌ half IsSample with_size size
half-IsSample (pos a) (pos b) h k = omega (arith, h, k)
half-IsSample (pos a) (negsuc b) h k =
    on_branches {A = ℤ} (λ s. IsSample (with_size s (size s / 2))) (ltb b a)
      (λ e. positive-IsSample (a - suc b) ((a - suc b) / 2) (omega (arith, h, k)))
      (λ e. negative-IsSample (b - a) (suc (b - a) / 2) (omega (arith, h, k)))
half-IsSample (negsuc a) (pos b) h k =
    on_branches {A = ℤ} (λ s. IsSample (with_size s (size s / 2))) (ltb a b)
      (λ e. positive-IsSample (b - suc a) ((b - suc a) / 2) (omega (arith, h, k)))
      (λ e. negative-IsSample (a - b) (suc (a - b) / 2) (omega (arith, h, k)))
half-IsSample (negsuc a) (negsuc b) h k =
    negative-IsSample (suc (a + b)) (suc (suc (a + b)) / 2) (omega (arith, h, k))

-- A buffer of frames of two samples, all of which are in the range of int16.
abbrev pub AllSamples : List ℤ → Type 0
AllSamples = All IsSample

-- Half as many samples come out, and all of them are in the range when the gain keeps the range.
pub downmix-AllSamples :
    (gain : ℤ → ℤ) (n : ℕ) (samples : List ℤ)
    → ((s : ℤ) → IsSample s → IsSample (gain s))
    → length samples ≡ 2 * n
    → AllSamples samples
    → (length (downmix gain samples) ≡ n) × AllSamples (downmix gain samples)
unfolding downmix mono_sample
downmix-AllSamples gain zero [] keeps even all = (omega arith, tt)
downmix-AllSamples gain (suc n) [] keeps even all = absurd (omega (arith, even))
downmix-AllSamples gain n (a ∷ []) keeps even all = absurd (omega (arith, even))
downmix-AllSamples gain zero (a ∷ b ∷ rest) keeps even all = absurd (omega (arith, even))
downmix-AllSamples gain (suc n) (a ∷ b ∷ rest) keeps even all =
    let (count, small) = downmix-AllSamples gain n rest keeps (omega (arith, even)) all.1.1 in
    (omega (arith, count), (keeps (half (a +ℤ b)) (half-IsSample a b all.0 all.1.0), small))
