-- ===== src/Base/Text.antt =====
-- Go strings as bytes: literals, prefixes, decimal numbers.
use Prim.Native.Nat.{ℕ, zero, suc, ◌+◌, ◌%◌, ◌/◌}
use Prim.Native.Char.{code}
use Prim.Native.String.{String}
use mathlib.Core.Bool.{Bool, true, false, ◌&&◌}
use mathlib.Core.List.{[], ◌∷◌}
use matrix_discord_voice_bri.Base.Tests.{nat_beq, ltb, if◌then◌else◌}
use matrix_discord_voice_bri.Base.Eq.{Bytes}

-- The bytes of a literal in ASCII.
abbrev pub text : String → Bytes
text (String.◌∷◌ letter rest) = code letter ∷ text rest
text String.[] = []

-- `strings.HasPrefix(s, p)`, the prefix first.
unfoldable pub has_prefix : Bytes → Bytes → Bool
has_prefix [] s = true
has_prefix (a ∷ p) [] = false
has_prefix (a ∷ p) (b ∷ s) = nat_beq a b && has_prefix p s

-- `%d` of a number below `10 ^ fuel`; the digits of what is left go in front.
unfoldable pub decimal_from : ℕ → ℕ → Bytes → Bytes
decimal_from zero n acc = acc
decimal_from (suc fuel) n acc =
    let digits = (b'0' + n % 10) ∷ acc in
    let more = decimal_from fuel (n / 10) digits in if ltb n 10 then digits else more

-- `%d` of a uint64, which has at most 20 digits.
unfoldable pub decimal : ℕ → Bytes
decimal n = decimal_from 20 n []
