-- ===== src/Crc/Rounds.antt =====
-- A round of a table-driven loop takes its bytes through the register.
use my_git_hub.Common.{ℕ, ◌+◌, ◌*◌, ◌/◌, ◌%◌, ◌^◌, ◌<◌, ◌≡◌, sym, ap, ap₂, ◌∙◌, arith}
use my_git_hub.Common.Xor.{bit_xor_assoc, bit_xor_comm, bit_xor_byte, bit_xor_below8, bit_xor_low}
use my_git_hub.Crc.Bitwise.{byte_step, byte_step-bit_xor, byte_step-shift}
use my_git_hub.Crc.Tables
use my_git_hub.Crc.Tables.{word_step}
use my_git_hub.Crc.Defs.{byte_round, base_round, far_terms}
use Prim.Native.Nat.{bit_xor}

-- A register with the lowest byte set apart.
byte_step-low : (y : ℕ) → byte_step y ≡ bit_xor (byte_step (y % 256)) (y / 256)
byte_step-low y =
    let parts : y ≡ bit_xor (y % 256) (256 * (y / 256)) =
      omega (arith, bit_xor_byte (y % 256) (y / 256) (omega arith)) in
    ap byte_step parts
    ∙ byte_step-bit_xor (y % 256) (256 * (y / 256))
    ∙ ap (bit_xor (byte_step (y % 256))) (byte_step-shift (y / 256))

high_kept : (crc x : ℕ) → x < 256 → bit_xor crc x / 256 ≡ crc / 256
high_kept crc x h = omega (arith, bit_xor_low crc x h, bit_xor_below8 (crc % 256) x (omega arith) h)

low_mixed : (crc x : ℕ) → x < 256 → bit_xor crc x % 256 ≡ bit_xor (crc % 256) x
low_mixed crc x h = omega (arith, bit_xor_low crc x h, bit_xor_below8 (crc % 256) x (omega arith) h)

pub byte_round_lem : (crc x : ℕ) → x < 256 → byte_round crc x ≡ byte_step (bit_xor crc x)
unfolding byte_round
byte_round_lem crc x h =
    ap₂ bit_xor (Tables.at-o32 (bit_xor crc x % 256) (omega arith)) (sym (high_kept crc x h))
    ∙ sym (byte_step-low (bit_xor crc x))

pub base_round_lem : (crc x : ℕ) → x < 256 → base_round crc x ≡ byte_step (bit_xor crc x)
unfolding base_round
base_round_lem crc x h =
    ap₂ bit_xor (sym (high_kept crc x h)) (
      Tables.at-base (bit_xor (crc % 256) x) (bit_xor_below8 (crc % 256) x (omega arith) h)
      ∙ ap byte_step (sym (low_mixed crc x h)))
    ∙ bit_xor_comm (bit_xor crc x / 256) (byte_step (bit_xor crc x % 256))
    ∙ sym (byte_step-low (bit_xor crc x))

-- Four bytes as a word, the lowest first.
abbrev word : ℕ → ℕ → ℕ → ℕ → ℕ
word a b c d = a + 256 * (b + 256 * (c + 256 * d))

pub word_step-word :
    (a b c d : ℕ)
    → a < 256
    → b < 256
    → c < 256
    → word_step (word a b c d)
      ≡ bit_xor (byte_step (byte_step (byte_step (byte_step a)))) (
          bit_xor
            (byte_step (byte_step (byte_step b)))
            (bit_xor (byte_step (byte_step c)) (byte_step d)))
word_step-word a b c d p q r =
    let digits : word a b c d ≡ bit_xor a (256 * bit_xor b (256 * bit_xor c (256 * d))) = sym (
      ap (λ z. bit_xor a (256 * bit_xor b (256 * z))) (bit_xor_byte c d r)
      ∙ ap (λ z. bit_xor a (256 * z)) (bit_xor_byte b (c + 256 * d) q)
      ∙ bit_xor_byte a (b + 256 * (c + 256 * d)) p) in
    ap word_step digits ∙ simp (byte_step-bit_xor, byte_step-shift)

pub word_step-bit_xor : (a b : ℕ) → word_step (bit_xor a b) ≡ bit_xor (word_step a) (word_step b)
word_step-bit_xor a b = simp byte_step-bit_xor

bytes_of :
    (c : ℕ)
    → c < 2 ^ 32
    → c ≡ word (c % 256) (c / 256 % 256) (c / 65536 % 256) (c / 65536 / 256 % 256)
bytes_of c h = omega arith

-- The first word of a round goes on by eight bytes.
pub far_terms_lem : (c : ℕ) → c < 2 ^ 32 → far_terms c ≡ word_step (word_step c)
unfolding far_terms
far_terms_lem c h =
    rw
      (
        Tables.at-o88 (c % 256) (omega arith),
        Tables.at-o80 (c / 256 % 256) (omega arith),
        Tables.at-o72 (c / 65536 % 256) (omega arith),
        Tables.at-o64 (c / 65536 / 256 % 256) (omega arith),
      )
      (simp bit_xor_assoc (
        sym (
          ap (λ z. word_step (word_step z)) (bytes_of c h)
          ∙ ap word_step (
              word_step-word (c % 256) (c / 256 % 256) (c / 65536 % 256) (c / 65536 / 256 % 256)
                (omega arith) (omega arith) (omega arith))
          ∙ simp word_step-bit_xor)))
