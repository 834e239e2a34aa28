-- ===== src/Livekit/SoftLimit.antt =====
-- pkg/livekit/subscriber.go: `softLimit`. A sample is an integer by its sign and its size, so that
-- the arithmetic is the native one; -32768 is a sample, and its size 32768 is no int16.
use matrix_discord_voice_bri.Base.{
  ℕ, zero, suc, ◌+◌, ◌-◌, ◌/◌, ◌<◌, ◌≤◌, ◌≡◌, refl, ap, Bool, true, false, arith, if◌then◌else◌,
  leb, ltb,
}

pub data ℤ : Type 0 where
  pos negsuc : ℕ → ℤ

unfoldable pub size : ℤ → ℕ
size (pos n) = n
size (negsuc n) = suc n

-- An integer of the sign of the first argument and of the given size.
unfoldable pub with_size : ℤ → ℕ → ℤ
with_size (pos n) k = pos k
with_size (negsuc n) zero = pos zero
with_size (negsuc n) (suc k) = negsuc k

infix 60 -ℤ◌
unfoldable pub -ℤ◌ : ℤ → ℤ
-ℤ (pos zero) = pos zero
-ℤ (pos (suc n)) = negsuc n
-ℤ (negsuc n) = pos (suc n)

unfoldable pub leb_int : ℤ → ℤ → Bool
leb_int (pos m) (pos n) = leb m n
leb_int (pos m) (negsuc n) = false
leb_int (negsuc m) (pos n) = true
leb_int (negsuc m) (negsuc n) = leb n m

abbrev pub threshold : ℕ
threshold = 8192

abbrev pub ratio : ℕ
ratio = 10

abbrev pub max_sample : ℕ
max_sample = 32767

-- The size of what comes out for a sample above the threshold.
unfoldable pub compressed : ℕ → ℕ
compressed a =
    let c = threshold + (a - threshold) / ratio in if ltb max_sample c then max_sample else c

-- `softLimit`.
unfoldable pub soft_limit : ℤ → ℤ
soft_limit s = if leb (size s) threshold then s else with_size s (compressed (size s))

-- The range of int16.
unfoldable pub IsSample : ℤ → Type 0
IsSample (pos n) = n < 32768
IsSample (negsuc n) = n < 32768

-- The sizes alone.
abbrev limit : ℕ → ℕ
limit a = if leb a threshold then a else compressed a

limit_mono : (a b : ℕ) → a ≤ b → limit a ≤ limit b
unfolding compressed
limit_mono a b h = ground arith

limit_bound : (a : ℕ) → a ≤ 32768 → limit a ≤ 10649
unfolding compressed
limit_bound a h = ground arith

limit_pos : (n : ℕ) → zero < limit (suc n)
unfolding compressed
limit_pos n = ground arith

size-with_size : (s : ℤ) (k : ℕ) → size (with_size s k) ≡ k
unfolding size with_size
size-with_size (pos n) k = refl
size-with_size (negsuc n) zero = refl
size-with_size (negsuc n) (suc k) = refl

size-soft_limit : (s : ℤ) → size (soft_limit s) ≡ limit (size s)
unfolding soft_limit
size-soft_limit s = ground (arith, size-with_size s (compressed (size s)))

-- Of an int16 sample the limiter makes one of size at most 10649, and it leaves a sample of size
-- at most 8192 as it is.
pub soft_limit_range :
    (s : ℤ) → IsSample s → (size (soft_limit s) ≤ 10649) × (size s ≤ 8192 → soft_limit s ≡ s)
unfolding IsSample
soft_limit_range s h = (
  ground (arith, size-soft_limit s, limit_bound (size s), small s h),
  λ low. unfold soft_limit in ground arith,
)
  where
    small : (t : ℤ) → IsSample t → size t ≤ 32768
    small (pos n) k = unfold size in ground arith
    small (negsuc n) k = unfold size in ground arith

soft_limit-pos : (n : ℕ) → soft_limit (pos n) ≡ pos (limit n)
unfolding soft_limit size with_size
soft_limit-pos n = ground arith

negative : (n k : ℕ) → zero < k → with_size (negsuc n) k ≡ negsuc (k - 1)
unfolding with_size
negative n zero h = absurd (omega (arith, h))
negative n (suc k) h = ap negsuc (omega arith)

soft_limit-negsuc : (n : ℕ) → soft_limit (negsuc n) ≡ negsuc (limit (suc n) - 1)
unfolding soft_limit size compressed
soft_limit-negsuc n =
    ground (arith, negative n (compressed (suc n)) (unfold compressed in ground arith))

-- The limiter turns the negative of a sample into the negative of what it makes of the sample.
pub soft_limit_odd : (s : ℤ) → soft_limit (-ℤ s) ≡ -ℤ (soft_limit s)
unfolding -ℤ◌
soft_limit_odd (pos zero) = rw (soft_limit-pos zero) refl
soft_limit_odd (pos (suc n)) =
    rw (soft_limit-negsuc n, soft_limit-pos (suc n)) (opposite (limit (suc n)) (limit_pos n))
  where
    opposite : (k : ℕ) → zero < k → negsuc (k - 1) ≡ -ℤ (pos k)
    opposite zero h = absurd (omega (arith, h))
    opposite (suc k) h = ap negsuc (omega arith)
soft_limit_odd (negsuc n) =
    rw (soft_limit-negsuc n, soft_limit-pos (suc n)) (ap pos (omega (arith, limit_pos n)))

-- A larger sample never comes out below a smaller one.
pub soft_limit_mono : (s t : ℤ) → leb_int s t ≡ true → leb_int (soft_limit s) (soft_limit t) ≡ true
unfolding leb_int
soft_limit_mono (pos m) (pos n) h =
    rw (soft_limit-pos m, soft_limit-pos n) (ground (arith, limit_mono m n))
soft_limit_mono (pos m) (negsuc n) h = absurd (ground arith)
soft_limit_mono (negsuc m) (pos n) h = rw (soft_limit-negsuc m, soft_limit-pos n) refl
soft_limit_mono (negsuc m) (negsuc n) h =
    rw (soft_limit-negsuc m, soft_limit-negsuc n)
      (ground (arith, limit_mono (suc n) (suc m), limit_pos n, limit_pos m))
