-- ===== src/Payload/MatrixUsers.antt =====
-- MATRIX_USERS: `pushMatrixUsers` of pkg/bridge/manager.go writes the display names, and
-- `updateBotNickname` of sidecar/index.mjs reads them.
use matrix_discord_voice_bri.Base.{
  ℕ, zero, suc, ◌+◌, ◌%◌, ◌/◌, ◌^◌, ◌≤◌, ◌<◌, ◌≡◌, refl, ◌∙◌, Option, none, some, List, [], ◌∷◌,
  ◌++◌, arith, if◌then◌else◌, leb, le→leb, length, take, drop, length-append, take-append, take-all,
  drop-append, drop-all,
}
use matrix_discord_voice_bri.Base.Eq.{Bytes}
use matrix_discord_voice_bri.Ipc.LittleEndian.{le_bytes, le_value, length-le_bytes}
use matrix_discord_voice_bri.Ipc.Frame.{max_payload}

unfoldable pub name_entries : List Bytes → Bytes
name_entries [] = []
name_entries (n ∷ ns) = le_bytes 2 (length n % 2 ^ 16) ++ (n ++ name_entries ns)

-- The buffer of `pushMatrixUsers`: `count(2) + [nameLen(2) + name(utf8)]*`.
unfoldable pub names_payload : List Bytes → Bytes
names_payload names = le_bytes 2 (length names % 2 ^ 16) ++ name_entries names

abbrev cons_some : Bytes → Option (List Bytes) → Option (List Bytes)
cons_some n none = none
cons_some n (some ns) = some (n ∷ ns)

-- One round of the sidecar's loop for each of `count`; `rest` is the payload from `offset` on, and
-- `none` is the RangeError of `readUInt16LE` past the end. A name that is cut short is skipped.
unfoldable pub read_names : ℕ → Bytes → Option (List Bytes)
read_names zero rest = some []
read_names (suc count) [] = some []
read_names (suc count) (a ∷ []) = none
read_names (suc count) (a ∷ b ∷ rest) =
    let n = le_value (a ∷ b ∷ []) in
    let others = read_names count (drop n rest) in
    if leb n (length rest) then cons_some (take n rest) others else others

some_names : Option (List Bytes) → Option (Option (List Bytes))
some_names none = none
some_names (some ns) = some (some ns)

-- The names of a payload; the inner `none` is a payload that is too short, and ignored.
unfoldable pub read_matrix_users : Bytes → Option (Option (List Bytes))
unfolding some_names
read_matrix_users [] = some none
read_matrix_users (a ∷ []) = some none
read_matrix_users (a ∷ b ∷ rest) = some_names (read_names (le_value (a ∷ b ∷ [])) rest)

two_bytes : (v : ℕ) → v < 2 ^ 16 → le_value ((v % 2 ^ 16 % 256) ∷ (v % 2 ^ 16 / 256 % 256) ∷ []) ≡ v
unfolding le_value
two_bytes v h = omega arith

read_names-step :
    (count : ℕ) (n rest : Bytes)
    → length n < 2 ^ 16
    → read_names (suc count) (le_bytes 2 (length n % 2 ^ 16) ++ (n ++ rest))
      ≡ cons_some n (read_names count rest)
unfolding read_names le_bytes
read_names-step count n rest h = rw (
  two_bytes (length n) h,
  le→leb (length n) (length (n ++ rest)) (omega (arith, length-append n rest)),
  take-append (length n) n rest (omega arith),
  take-all (length n) n refl,
  drop-append (length n) n rest (omega arith),
  drop-all (length n) n refl,
)

length-entry :
    (n : Bytes) (ns : List Bytes)
    → length (name_entries (n ∷ ns)) ≡ 2 + length n + length (name_entries ns)
unfolding name_entries
length-entry n ns = omega (
  arith,
  length-append (le_bytes 2 (length n % 2 ^ 16)) (n ++ name_entries ns),
  length-append n (name_entries ns),
  length-le_bytes 2 (length n % 2 ^ 16),
)

length-le-entries : (ns : List Bytes) → length ns ≤ length (name_entries ns)
unfolding name_entries
length-le-entries [] = omega arith
length-le-entries (n ∷ ns) = omega (arith, length-entry n ns, length-le-entries ns)

read_names-entries :
    (ns : List Bytes)
    → length (name_entries ns) ≤ max_payload
    → read_names (length ns) (name_entries ns) ≡ some ns
unfolding name_entries read_names
read_names-entries [] h = refl
read_names-entries (n ∷ ns) h =
    read_names-step (length ns) n (name_entries ns) (omega (arith, length-entry n ns))
    ∙ rw (read_names-entries ns (omega (arith, length-entry n ns)))

-- As long as the payload fits a frame, the sidecar gets exactly the display names that the bridge
-- pushed, in their order.
pub matrix_users_round_trip :
    (names : List Bytes)
    → length (names_payload names) ≤ max_payload
    → read_matrix_users (names_payload names) ≡ some (some names)
unfolding names_payload read_matrix_users le_bytes
matrix_users_round_trip names h =
    let small : length (name_entries names) ≤ max_payload = omega arith in
    rw (
      two_bytes (length names) (omega (arith, length-le-entries names)),
      read_names-entries names small,
    )
