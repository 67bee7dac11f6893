-- ===== src/Crc/Checksum.antt =====
-- Every implementation computes the checksum that the polynomial defines.
use my_git_hub.Common.{
  ℕ, zero, suc, ◌+◌, ◌-◌, ◌*◌, ◌/◌, ◌%◌, ◌^◌, ◌<◌, ◌≡◌, refl, sym, ap, ◌∙◌, arith, Bool, true,
  false, ◌==◌, if◌then◌else◌, Bool-cases, inl, inr,
}
use my_git_hub.Common.Xor.{bit_xor-zero}
use my_git_hub.Crc.Bitwise.{byte_step, crc32c}
use my_git_hub.Crc.Rounds.{base_round_lem}
use my_git_hub.Crc.Slicing.{first_word_lem, sctp_crc32c_sb8_64_bit_lem}
use my_git_hub.Crc.Defs.{
  far_terms, first_word, second_word, word_round, byte_round, byte_loop, word_loop, byte_round_zero,
  second_word_zero, byte_loop_zero, word_loop_zero, sctp_crc32c_sb8_64_bit,
  sctp_crc32c_sb8_64_bit_zero, update_crc32, crc32c_sctp, base_loop, base_round, base_loop_zero,
  base_round_zero, crc32c_intel_baseline, head_bytes,
}
use Prim.Native.Nat.{bit_xor}

-- What a call reads: a null pointer stands for zeros.
abbrev pub zeros : ℕ → ℕ
zeros a = 0

abbrev pub seen : (ℕ → ℕ) → ℕ → ℕ → ℕ
seen mem p = if p == 0 then zeros else mem

byte_loop_zero_lem : (n crc p : ℕ) → byte_loop_zero n crc ≡ byte_loop zeros n crc p
unfolding byte_loop_zero byte_loop byte_round byte_round_zero
byte_loop_zero_lem zero crc p = refl
byte_loop_zero_lem (suc n) crc p = rw (bit_xor-zero crc) (byte_loop_zero_lem n _ (p + 1))

second_word_zero_lem :
    (form : Bool) (crc p : ℕ) → second_word_zero form crc ≡ second_word zeros form crc p
unfolding second_word_zero second_word
second_word_zero_lem true crc p = refl
second_word_zero_lem false crc p = refl

zeros-below : (a : ℕ) → zeros a < 256
zeros-below a = omega arith

word_loop_zero_lem :
    (form : Bool) (n crc p : ℕ) → word_loop_zero form n crc ≡ word_loop zeros form n crc p
unfolding word_loop_zero word_loop word_round
word_loop_zero_lem form zero crc p = refl
word_loop_zero_lem form (suc n) crc p =
    let first : first_word zeros form crc p ≡ crc =
      first_word_lem zeros zeros-below form crc p ∙ bit_xor-zero crc in
    ap (word_loop_zero form n) (
      second_word_zero_lem form (far_terms crc) (p + 4)
      ∙ ap (λ c. second_word zeros form (far_terms c) (p + 4)) (sym first))
    ∙ word_loop_zero_lem form n _ (p + 8)

sctp_crc32c_sb8_64_bit_zero_lem :
    (form : Bool) (crc p length offset : ℕ)
    → sctp_crc32c_sb8_64_bit_zero form crc length offset
      ≡ sctp_crc32c_sb8_64_bit zeros form crc p length offset
unfolding sctp_crc32c_sb8_64_bit_zero sctp_crc32c_sb8_64_bit
sctp_crc32c_sb8_64_bit_zero_lem form crc p length offset =
    let a = head_bytes length offset in
    let n = (length - a) / 8 in
    let z = length - a - n * 8 in
    ap (λ c. byte_loop_zero z (word_loop_zero form n c)) (byte_loop_zero_lem a crc p)
    ∙ ap (byte_loop_zero z) (word_loop_zero_lem form n _ (p + a))
    ∙ byte_loop_zero_lem z _ (p + a + n * 8)

module _ (mem : ℕ → ℕ) (bytes : (a : ℕ) → mem a < 256) where
  -- `crc32c_sctp`, by tables and eight bytes at a time, computes the CRC-32C of its bytes, of any
  -- alignment and length, in both forms of its reads; a null pointer stands for zeros.
  pub crc32c_sctp_lem :
      (form : Bool) (crc p length : ℕ)
      → crc < 2 ^ 32
      → crc32c_sctp mem form crc p length ≡ crc32c (seen mem p) length crc p
  unfolding crc32c_sctp update_crc32 crc32c
  crc32c_sctp_lem form crc p length h = go length refl
    where
      split :
          (n : ℕ)
          → (if p == 0
              then sctp_crc32c_sb8_64_bit_zero form crc n (p % 4)
              else sctp_crc32c_sb8_64_bit mem form crc p n (p % 4))
            ≡ crc32c (seen mem p) n crc p
      split n = elim (Bool-cases (p == 0)) [
        | inl y ↦ rw y (
            sctp_crc32c_sb8_64_bit_zero_lem form crc p n (p % 4)
            ∙ sctp_crc32c_sb8_64_bit_lem zeros zeros-below form crc p n (p % 4) h)
        | inr k ↦ rw k (sctp_crc32c_sb8_64_bit_lem mem bytes form crc p n (p % 4) h)
      ]

      go : (n : ℕ) → length ≡ n → update_crc32 mem form crc p n ≡ crc32c (seen mem p) n crc p
      go zero e = refl
      go (suc n) e =
          let some_bytes : (suc n == 0) ≡ false = ground arith in rw some_bytes (split (suc n))

  base_loop_lem : (n crc p : ℕ) → base_loop mem n crc p ≡ crc32c mem n crc p
  unfolding base_loop crc32c
  base_loop_lem zero crc p = refl
  base_loop_lem (suc n) crc p =
      ap (λ r. base_loop mem n r (p + 1)) (base_round_lem crc (mem p) (bytes p))
      ∙ base_loop_lem n (byte_step (bit_xor crc (mem p))) (p + 1)

base_loop_zero_lem : (n crc p : ℕ) → base_loop_zero n crc ≡ base_loop zeros n crc p
unfolding base_loop_zero base_loop base_round base_round_zero
base_loop_zero_lem zero crc p = refl
base_loop_zero_lem (suc n) crc p = rw (bit_xor-zero (crc % 256)) (base_loop_zero_lem n _ (p + 1))

module _ (mem : ℕ → ℕ) (bytes : (a : ℕ) → mem a < 256) where
  -- So does `crc32c_intel_baseline`, byte by byte.
  pub crc32c_intel_baseline_lem :
      (crc p len : ℕ) → crc32c_intel_baseline mem crc p len ≡ crc32c (seen mem p) len crc p
  unfolding crc32c_intel_baseline
  crc32c_intel_baseline_lem crc p len = elim (Bool-cases (p == 0)) [
    | inl y ↦ rw y (base_loop_zero_lem len crc p ∙ base_loop_lem zeros zeros-below len crc p)
    | inr n ↦ rw n (base_loop_lem mem bytes len crc p)
  ]
