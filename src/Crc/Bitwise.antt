-- ===== src/Crc/Bitwise.antt =====
-- CRC-32C bit by bit, as the polynomial defines it, and the laws of its steps.
use my_git_hub.Common.{
  ℕ, zero, suc, ◌+◌, ◌*◌, ◌/◌, ◌%◌, ◌^◌, ◌<◌, ◌≡◌, refl, sym, ap, ◌∙◌, arith, ◌==◌, if◌then◌else◌,
  Bool-cases, inl, inr,
}
use my_git_hub.Common.Xor.{
  bit_xor_half, bit_xor_parity, bit_xor_assoc, bit_xor_left_comm, bit_xor-zero, bit_xor_below32,
}
use Prim.Native.Nat.{bit_xor}

-- The polynomial of CRC-32C, its lowest digit the highest power.
abbrev pub polynomial : ℕ
polynomial = 0x82F63B78

-- One digit of the message goes through the register.
unfoldable pub bit_step : ℕ → ℕ
bit_step c = if c % 2 == 1 then bit_xor (c / 2) polynomial else c / 2

unfoldable pub byte_step : ℕ → ℕ
byte_step c =
    bit_step (bit_step (bit_step (bit_step (bit_step (bit_step (bit_step (bit_step c)))))))

module _ (mem : ℕ → ℕ) where
  -- The register `crc` after the `n` bytes at `p`.
  unfoldable pub crc32c : ℕ → ℕ → ℕ → ℕ
  crc32c zero crc p = crc
  crc32c (suc n) crc p = crc32c n (byte_step (bit_xor crc (mem p))) (p + 1)

  pub crc32c-add : (n m crc p : ℕ) → crc32c (n + m) crc p ≡ crc32c m (crc32c n crc p) (p + n)
  unfolding crc32c
  crc32c-add zero m crc p =
      let all : 0 + m ≡ m = omega arith in
      let start : p + 0 ≡ p = omega arith in rw (all, start) refl
  crc32c-add (suc n) m crc p =
      let all : suc n + m ≡ suc (n + m) = omega arith in
      let start : p + suc n ≡ p + 1 + n = omega arith in
      rw (all, start) (crc32c-add n m (byte_step (bit_xor crc (mem p))) (p + 1))

-- what `bit_step` adds to the half
abbrev feedback : ℕ → ℕ
feedback c = if c % 2 == 1 then polynomial else 0

bit_step_lem : (c : ℕ) → bit_step c ≡ bit_xor (c / 2) (feedback c)
unfolding bit_step
bit_step_lem c = elim (Bool-cases (c % 2 == 1)) [
  | inl y ↦ rw y refl
  | inr n ↦ rw n (sym (bit_xor-zero (c / 2)))
]

feedback-bit_xor : (a b : ℕ) → feedback (bit_xor a b) ≡ bit_xor (feedback a) (feedback b)
feedback-bit_xor a b = elim (Bool-cases (a % 2 == 1)) [
  | inl y ↦ elim (Bool-cases (b % 2 == 1)) [
    | inl z ↦ rw (bit_xor_parity a b, y, z) (ground arith)
    | inr z ↦ rw (bit_xor_parity a b, y, z) (ground arith)
  ]
  | inr y ↦ elim (Bool-cases (b % 2 == 1)) [
    | inl z ↦ rw (bit_xor_parity a b, y, z) (ground arith)
    | inr z ↦ rw (bit_xor_parity a b, y, z) (ground arith)
  ]
]

pub bit_xor_medial :
    (a b c d : ℕ) → bit_xor (bit_xor a b) (bit_xor c d) ≡ bit_xor (bit_xor a c) (bit_xor b d)
bit_xor_medial a b c d =
    bit_xor_assoc a b (bit_xor c d)
    ∙ ap (bit_xor a) (bit_xor_left_comm b c d)
    ∙ sym (bit_xor_assoc a c (bit_xor b d))

pub bit_step-bit_xor : (a b : ℕ) → bit_step (bit_xor a b) ≡ bit_xor (bit_step a) (bit_step b)
bit_step-bit_xor a b =
    rw
      (
        bit_step_lem (bit_xor a b),
        bit_step_lem a,
        bit_step_lem b,
        bit_xor_half a b,
        feedback-bit_xor a b,
      )
      (bit_xor_medial (a / 2) (b / 2) (feedback a) (feedback b))

pub byte_step-bit_xor : (a b : ℕ) → byte_step (bit_xor a b) ≡ bit_xor (byte_step a) (byte_step b)
unfolding byte_step
byte_step-bit_xor a b = simp bit_step-bit_xor

bit_step-double : (m : ℕ) → bit_step (2 * m) ≡ m
unfolding bit_step
bit_step-double m = ground arith

pub byte_step-shift : (m : ℕ) → byte_step (256 * m) ≡ m
unfolding byte_step
byte_step-shift m =
    let twice : 256 * m ≡ 2 * (2 * (2 * (2 * (2 * (2 * (2 * (2 * m))))))) = omega arith in
    rw twice (simp bit_step-double)

bit_step-below : (c : ℕ) → c < 2 ^ 32 → bit_step c < 2 ^ 32
unfolding bit_step
bit_step-below c h = elim (Bool-cases (c % 2 == 1)) [
  | inl y ↦ rw y (bit_xor_below32 (c / 2) polynomial (omega arith) (omega arith))
  | inr n ↦ rw n (omega arith)
]

pub byte_step-below : (c : ℕ) → c < 2 ^ 32 → byte_step c < 2 ^ 32
unfolding byte_step
byte_step-below c h =
    let step = bit_step-below in
    step _ (step _ (step _ (step _ (step _ (step _ (step _ (step c h)))))))
