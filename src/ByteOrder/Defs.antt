-- ===== src/ByteOrder/Defs.antt =====
-- The swaps of byteorder.h on numbers below 2 ^ 16, 2 ^ 32 and 2 ^ 64. A mask of one byte is its
-- place times a remainder, `<<` loses what passes the width, and `|` of disjoint bytes is a sum.
use my_git_hub.Common.{ℕ, ◌+◌, ◌*◌, ◌/◌, ◌%◌, ◌^◌, Bool, ◌==◌, if◌then◌else◌}

unfoldable pub swab16 : ℕ → ℕ
swab16 val = (val / 2 ^ 8 + val * 2 ^ 8) % 2 ^ 16

-- `x & 0xff00` and its kin: the byte of `x` that is worth `place`.
abbrev pub byte_at : ℕ → ℕ → ℕ
byte_at place x = x / place % 2 ^ 8 * place

unfoldable pub swab32 : ℕ → ℕ
swab32 val =
    val / 2 ^ 24
    + byte_at (2 ^ 8) (val / 2 ^ 8)
    + byte_at (2 ^ 16) (val * 2 ^ 8 % 2 ^ 32)
    + val * 2 ^ 24 % 2 ^ 32

unfoldable pub swab64 : ℕ → ℕ
swab64 val =
    val / 2 ^ 56
    + byte_at (2 ^ 8) (val / 2 ^ 40)
    + byte_at (2 ^ 16) (val / 2 ^ 24)
    + byte_at (2 ^ 24) (val / 2 ^ 8)
    + byte_at (2 ^ 32) (val * 2 ^ 8 % 2 ^ 64)
    + byte_at (2 ^ 40) (val * 2 ^ 24 % 2 ^ 64)
    + byte_at (2 ^ 48) (val * 2 ^ 40 % 2 ^ 64)
    + val * 2 ^ 56 % 2 ^ 64

-- `mswab64` and its kin; the flag is whether `BIG_ENDIAN` is defined.
abbrev pub mswab : Bool → (ℕ → ℕ) → ℕ → ℕ
mswab big_endian swab a = if big_endian then swab a else a

-- A value of `le16`, `le32` or `le64`.
pub record Le : Type 0 where
  pub v : ℕ

-- `operator=` and the conversion back, of the type with the swap `swab`
unfoldable pub assign : Bool → (ℕ → ℕ) → ℕ → Le
assign big_endian swab nv = record { v = mswab big_endian swab nv }

unfoldable pub convert : Bool → (ℕ → ℕ) → Le → ℕ
convert big_endian swab le = mswab big_endian swab le.v

unfoldable pub equal : Le → Le → Bool
equal a b = a.v == b.v
