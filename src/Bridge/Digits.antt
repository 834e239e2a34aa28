-- ===== src/Bridge/Digits.antt =====
-- `strconv.FormatUint` and `strconv.ParseUint` as pkg/bridge/manager.go uses them on channels.
use matrix_discord_voice_bri.Base.{
  ℕ, zero, suc, ◌+◌, ◌/◌, ◌%◌, ◌^◌, ◌<◌, ◌≡◌, refl, ap, ◌∙◌, true, some, [], ◌∷◌, ◌++◌, arith, ltb,
  Bool-cases, inl, inr,
}
use matrix_discord_voice_bri.Base.Eq.{Bytes}
use matrix_discord_voice_bri.Base.Text.{decimal, decimal_from, has_prefix}
use matrix_discord_voice_bri.Bridge.Discover.{digits_value, in_range, parse_uint}

-- The digits of a number read back as the number, before what comes after them.
digits_value-decimal_from :
    (f n : ℕ) (acc : Bytes)
    → n < 10 ^ suc f
    → digits_value 0 (decimal_from (suc f) n acc) ≡ digits_value n acc
unfolding digits_value decimal_from
digits_value-decimal_from zero n acc h = ground arith
digits_value-decimal_from (suc f) n acc h = elim (Bool-cases (ltb n 10)) [
  | inl last ↦ ground arith
  | inr more ↦
      let half : n / 10 < 10 ^ suc f = omega (arith, h) in
      rw more (digits_value-decimal_from f (n / 10) ((48 + n % 10) ∷ acc) half ∙ ground arith)
]

pub decimal_from-cons :
    (f n : ℕ) (acc : Bytes) → (c : ℕ) × (cs : Bytes) × (decimal_from (suc f) n acc ≡ c ∷ cs)
unfolding decimal_from
decimal_from-cons zero n acc = (48 + n % 10, acc, ground arith)
decimal_from-cons (suc f) n acc = elim (Bool-cases (ltb n 10)) [
  | inl last ↦ (48 + n % 10, acc, ground arith)
  | inr more ↦ rw more (decimal_from-cons f (n / 10) ((48 + n % 10) ∷ acc))
]

parse_uint-range : (c : ℕ) (cs s : Bytes) → s ≡ c ∷ cs → parse_uint s ≡ in_range (digits_value 0 s)
unfolding parse_uint
parse_uint-range c cs s e = rw e refl

-- A 64-bit number is read back from its digits.
pub parse_uint-decimal : (n : ℕ) → n < 2 ^ 64 → parse_uint (decimal n) ≡ some n
unfolding decimal digits_value
parse_uint-decimal n h =
    let (c, cs, e) = decimal_from-cons 19 n [] in
    let all : n < 10 ^ 20 = omega (arith, h) in
    parse_uint-range c cs (decimal_from 20 n []) e
    ∙ ap in_range (digits_value-decimal_from 19 n [] all)
    ∙ ground arith

pub has_prefix-append : (p s : Bytes) → has_prefix p (p ++ s) ≡ true
unfolding has_prefix
has_prefix-append [] s = refl
has_prefix-append (c ∷ p) s = ground (arith, has_prefix-append p s)
