-- ===== src/Matrix/Words.antt =====
-- pkg/matrix/commands.go: what it uses of Go's strings. White space is Unicode's. Lower case is that of
-- ASCII letters and of the two other letters whose lower case is ASCII; the others, which a reply may
-- quote, stay as they are.
use matrix_discord_voice_bri.Base.{
  ℕ, zero, suc, Bool, true, false, ◌&&◌, ◌||◌, List, [], ◌∷◌, if◌then◌else◌, leb, ◌+◌, ◌-◌,
}
use matrix_discord_voice_bri.Base.Eq.{Bytes, ◌==◌, nat_eq}
use matrix_discord_voice_bri.Base.Text.{has_prefix}

unfoldable pub is_white : ℕ → Bool
is_white c = (leb 9 c && leb c 13) || (c == 32)

abbrev pub ends_word : Bytes → Bool
ends_word [] = true
ends_word (c ∷ cs) = is_white c

abbrev pub extend_word : ℕ → List Bytes → List Bytes
extend_word c [] = (c ∷ []) ∷ []
extend_word c (word ∷ words) = (c ∷ word) ∷ words

-- The words of a text whose white space is ASCII.
unfoldable pub ascii_fields : Bytes → List Bytes
ascii_fields [] = []
ascii_fields (c ∷ cs) =
    let rest = ascii_fields cs in
    if is_white c then rest else if ends_word cs then (c ∷ []) ∷ rest else extend_word c rest

-- U+2000 to U+200A, U+2028, U+2029 and U+202F at the head of a text.
abbrev pub starts_general_space : Bytes → Bool
starts_general_space [] = false
starts_general_space (a ∷ []) = false
starts_general_space (a ∷ b ∷ []) = false
starts_general_space (a ∷ b ∷ c ∷ s) =
    (a == 226 && b == 128)
    && ((leb 128 c && leb c 138) || ((c == 168) || ((c == 169) || (c == 175))))

-- How many bytes the white space beyond ASCII takes at the head of a text: U+0085 and U+00A0, or
-- U+1680, those above, U+205F and U+3000.
abbrev pub space_width : Bytes → ℕ
space_width s =
    if has_prefix (194 ∷ 133 ∷ []) s || has_prefix (194 ∷ 160 ∷ []) s
    then 2
    else if starts_general_space s
        || (has_prefix (225 ∷ 154 ∷ 128 ∷ []) s
            || (has_prefix (226 ∷ 129 ∷ 159 ∷ []) s || has_prefix (227 ∷ 128 ∷ 128 ∷ []) s))
    then 3
    else 0

-- A text with a blank for every white space beyond ASCII; so many bytes are passed over first.
unfoldable pub spaced : ℕ → Bytes → Bytes
spaced skip [] = []
spaced (suc skip) (c ∷ cs) = spaced skip cs
spaced zero (c ∷ cs) =
    let width = space_width (c ∷ cs) in
    let rest = spaced (width - 1) cs in (if width == 0 then c else 32) ∷ rest

-- `strings.Fields`.
unfoldable pub fields : Bytes → List Bytes
fields s = ascii_fields (spaced 0 s)

-- The lower case of a text's first letter, and the further bytes that the letter takes: U+0130 has the
-- lower case i, U+212A the lower case k.
abbrev pub lower_head : ℕ → Bytes → ℕ × ℕ
lower_head c cs =
    if has_prefix (196 ∷ 176 ∷ []) (c ∷ cs)
    then (105, 1)
    else if has_prefix (226 ∷ 132 ∷ 170 ∷ []) (c ∷ cs)
    then (107, 2)
    else (if leb 65 c && leb c 90 then c + 32 else c, 0)

-- So many bytes are passed over first.
unfoldable pub lowered : ℕ → Bytes → Bytes
lowered skip [] = []
lowered (suc skip) (c ∷ cs) = lowered skip cs
lowered zero (c ∷ cs) =
    let (lower, more) = lower_head c cs in let rest = lowered more cs in lower ∷ rest

-- `strings.ToLower`.
unfoldable pub to_lower : Bytes → Bytes
to_lower s = lowered 0 s
