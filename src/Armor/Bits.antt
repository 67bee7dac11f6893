-- ===== src/Armor/Bits.antt =====
-- The 64 characters of the key.
use my_git_hub.Common.{
  ℕ, ◌<◌, ◌≡◌, refl, Bool, true, false, ◌&&◌, not, Option, none, some, arith, ◌==◌, holds_up_to,
  holds_up_to_lem,
}
use my_git_hub.Armor.Defs.{encode_bits, decode_bits}

abbrev decodes_to : ℕ → Option ℕ → Bool
decodes_to i none = false
decodes_to i (some j) = i == j

abbrev is_sound : ℕ → Bool
is_sound i =
    decodes_to i (decode_bits (encode_bits i))
    && (not (encode_bits i == 10) && not (encode_bits i == b'='))

key_table : holds_up_to is_sound 64 ≡ true
unfolding holds_up_to encode_bits decode_bits
key_table = refl

key_sound : (i : ℕ) → i < 64 → is_sound i ≡ true
key_sound i h = holds_up_to_lem is_sound 64 i h key_table

-- Each of the 64 values is read back from its character, which is no line break and no padding.
pub bits_round_trip :
    (i : ℕ)
    → i < 64
    → (decode_bits (encode_bits i) ≡ some i)
      × ((encode_bits i == 10) ≡ false)
      × ((encode_bits i == b'=') ≡ false)
bits_round_trip i h = ground (arith, key_sound i h)

pub padding : decode_bits b'=' ≡ some 0
unfolding decode_bits
padding = refl
