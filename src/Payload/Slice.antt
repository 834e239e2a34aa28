-- ===== src/Payload/Slice.antt =====
-- Go slice expressions over a payload whose capacity is its length.
use matrix_discord_voice_bri.Base.{
  ℕ, ◌-◌, ◌≤◌, ◌≡◌, ap, ◌∙◌, ◌&&◌, Option, none, some, ◌++◌, arith, if◌then◌else◌, leb, le→leb,
  length, take, drop, drop-append, drop-all, take-append, take-all,
}
use matrix_discord_voice_bri.Base.Eq.{Bytes}
use matrix_discord_voice_bri.Ipc.LittleEndian.{le_value, le_bytes, length-le_bytes}

-- `bs[lo:hi]`; `none` is the runtime panic for bounds out of range.
unfoldable pub slice : ℕ → ℕ → Bytes → Option Bytes
slice lo hi bs =
    if leb lo hi && leb hi (length bs) then some (take (hi - lo) (drop lo bs)) else none

pub slice_ok :
    (lo hi : ℕ) (bs : Bytes)
    → lo ≤ hi
    → hi ≤ length bs
    → slice lo hi bs ≡ some (take (hi - lo) (drop lo bs))
unfolding slice
slice_ok lo hi bs h k = rw (le→leb lo hi h, le→leb hi (length bs) k)

-- The integer of `w` bytes at an offset.
abbrev pub uint_at : ℕ → ℕ → Bytes → ℕ
uint_at w off bs = le_value (take w (drop off bs))

-- A field between what stands before and after it.
pub take-drop_middle :
    (xs ys zs : Bytes) (n k : ℕ)
    → length xs ≡ n
    → length ys ≡ k
    → take k (drop n (xs ++ (ys ++ zs))) ≡ ys
take-drop_middle xs ys zs n k h g = rw (
  drop-append n xs (ys ++ zs) (omega arith),
  drop-all n xs h,
  take-append k ys zs (omega arith),
  take-all k ys g,
)

pub uint_at-le_bytes :
    (xs zs : Bytes) (n w v : ℕ)
    → length xs ≡ n
    → le_value (le_bytes w v) ≡ v
    → uint_at w n (xs ++ (le_bytes w v ++ zs)) ≡ v
uint_at-le_bytes xs zs n w v h g =
    ap le_value (take-drop_middle xs (le_bytes w v) zs n w h (length-le_bytes w v)) ∙ g
