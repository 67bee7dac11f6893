-- ===== src/Crc/Slicing.antt =====
-- The loops of eight bytes compute what single bytes do, for both forms of the reads.
use my_git_hub.Common.{
  ℕ, zero, suc, ◌+◌, ◌-◌, ◌*◌, ◌/◌, ◌%◌, ◌^◌, ◌≤◌, ◌<◌, ◌≡◌, refl, sym, ap, ◌∙◌, arith, Bool, true,
  false,
}
use my_git_hub.Common.Xor.{
  bit_xor_assoc, bit_xor_byte, bit_xor_word, bit_xor_triple, bit_xor_below32,
}
use my_git_hub.Crc.Bitwise.{byte_step, byte_step-bit_xor, byte_step-below, crc32c, crc32c-add}
use my_git_hub.Crc.Tables
use my_git_hub.Crc.Tables.{word_step}
use my_git_hub.Crc.Rounds.{byte_round_lem, far_terms_lem, word_step-word, word_step-bit_xor}
use my_git_hub.Crc.Defs.{
  load32, first_word, second_word, word_round, byte_loop, word_loop, head_bytes,
  sctp_crc32c_sb8_64_bit,
}
use Prim.Native.Nat.{bit_xor}

module _ (mem : ℕ → ℕ) (bytes : (a : ℕ) → mem a < 256) where
  pub load32-below : (p : ℕ) → load32 mem p < 2 ^ 32
  load32-below p = omega (arith, bytes p, bytes (p + 1), bytes (p + 2), bytes (p + 3))

  pub first_word_lem :
      (form : Bool) (crc p : ℕ) → first_word mem form crc p ≡ bit_xor crc (load32 mem p)
  unfolding first_word
  first_word_lem true crc p =
      let two = bit_xor_byte (mem p) (mem (p + 1)) (bytes p) in
      let a = bytes p in
      let b = bytes (p + 1) in
      let c = bytes (p + 2) in
      let swap : mem (p + 1) * 256 ≡ 256 * mem (p + 1) = omega arith in
      let three = bit_xor_word (mem p + 256 * mem (p + 1)) (mem (p + 2)) (omega arith) in
      let four =
        bit_xor_triple (mem p + 256 * mem (p + 1) + mem (p + 2) * 65536) (mem (p + 3))
          (omega arith) in
      let sum : mem p + 256 * mem (p + 1) + mem (p + 2) * 65536 + mem (p + 3) * 16777216
          ≡ load32 mem p =
        omega arith in
      rw (bit_xor_assoc crc (mem p) (mem (p + 1) * 256), swap, two)
        (rw (bit_xor_assoc crc (mem p + 256 * mem (p + 1)) (mem (p + 2) * 65536), three)
          (rw
            (
              bit_xor_assoc crc (mem p + 256 * mem (p + 1) + mem (p + 2) * 65536)
                  (mem (p + 3) * 16777216),
              four,
            )
            (ap (bit_xor crc) sum)))
  first_word_lem false crc p = refl

  second_word_lem :
      (form : Bool) (crc p : ℕ)
      → second_word mem form crc p ≡ bit_xor crc (word_step (load32 mem p))
  unfolding second_word
  second_word_lem true crc p =
      rw
        (
          Tables.at-o56 (mem p) (bytes p),
          Tables.at-o48 (mem (p + 1)) (bytes (p + 1)),
          Tables.at-o40 (mem (p + 2)) (bytes (p + 2)),
          Tables.at-o32 (mem (p + 3)) (bytes (p + 3)),
          word_step-word (mem p) (mem (p + 1)) (mem (p + 2)) (mem (p + 3)) (bytes p) (bytes (p + 1))
              (bytes (p + 2)),
        )
        (simp bit_xor_assoc)
  second_word_lem false crc p =
      let a = bytes p in
      let b = bytes (p + 1) in
      let c = bytes (p + 2) in
      let d = bytes (p + 3) in
      let b₀ : load32 mem p % 256 ≡ mem p = omega arith in
      let b₁ : load32 mem p / 256 % 256 ≡ mem (p + 1) = omega arith in
      let b₂ : load32 mem p / 65536 % 256 ≡ mem (p + 2) = omega arith in
      let b₃ : load32 mem p / 65536 / 256 % 256 ≡ mem (p + 3) = omega arith in
      rw
        (
          b₀,
          b₁,
          b₂,
          b₃,
          Tables.at-o56 (mem p) (bytes p),
          Tables.at-o48 (mem (p + 1)) (bytes (p + 1)),
          Tables.at-o40 (mem (p + 2)) (bytes (p + 2)),
          Tables.at-o32 (mem (p + 3)) (bytes (p + 3)),
          word_step-word (mem p) (mem (p + 1)) (mem (p + 2)) (mem (p + 3)) (bytes p) (bytes (p + 1))
              (bytes (p + 2)),
        )
        (simp bit_xor_assoc)

  -- four single bytes are one word
  pub crc32c-word : (crc p : ℕ) → crc32c mem 4 crc p ≡ word_step (bit_xor crc (load32 mem p))
  unfolding crc32c
  crc32c-word crc p =
      let q₁ : p + 1 + 1 ≡ p + 2 = omega arith in
      let q₂ : p + 2 + 1 ≡ p + 3 = omega arith in
      rw (q₁, q₂)
        (sym (
          word_step-bit_xor crc (load32 mem p)
          ∙ ap (bit_xor (word_step crc)) (
              word_step-word (mem p) (mem (p + 1)) (mem (p + 2)) (mem (p + 3)) (bytes p)
                (bytes (p + 1)) (bytes (p + 2)))
          ∙ simp (byte_step-bit_xor, bit_xor_assoc)))

  word_round_lem :
      (form : Bool) (crc p : ℕ) → crc < 2 ^ 32 → word_round mem form crc p ≡ crc32c mem 8 crc p
  unfolding word_round
  word_round_lem form crc p h = rw (first_word_lem form crc p) (
      rw
        (far_terms_lem (bit_xor crc (load32 mem p))
          (bit_xor_below32 crc (load32 mem p) h (load32-below p)))
        (second_word_lem form _ (p + 4)
          ∙ sym (word_step-bit_xor (word_step (bit_xor crc (load32 mem p))) (load32 mem (p + 4)))
          ∙ sym (crc32c-word (word_step (bit_xor crc (load32 mem p))) (p + 4))
          ∙ ap (λ r. crc32c mem 4 r (p + 4)) (sym (crc32c-word crc p))
          ∙ sym (crc32c-add mem 4 4 crc p)))

  crc32c-below : (n crc p : ℕ) → crc < 2 ^ 32 → crc32c mem n crc p < 2 ^ 32
  unfolding crc32c
  crc32c-below zero crc p h = h
  crc32c-below (suc n) crc p h = crc32c-below n (byte_step (bit_xor crc (mem p))) (p + 1) (
      byte_step-below (bit_xor crc (mem p))
        (bit_xor_below32 crc (mem p) h (omega (arith, bytes p))))

  byte_loop_lem : (n crc p : ℕ) → byte_loop mem n crc p ≡ crc32c mem n crc p
  unfolding byte_loop crc32c
  byte_loop_lem zero crc p = refl
  byte_loop_lem (suc n) crc p =
      ap (λ r. byte_loop mem n r (p + 1)) (byte_round_lem crc (mem p) (bytes p))
      ∙ byte_loop_lem n (byte_step (bit_xor crc (mem p))) (p + 1)

  word_loop_lem :
      (form : Bool) (n crc p : ℕ)
      → crc < 2 ^ 32
      → word_loop mem form n crc p ≡ crc32c mem (n * 8) crc p
  unfolding word_loop crc32c
  word_loop_lem form zero crc p h = refl
  word_loop_lem form (suc n) crc p h =
      let all : suc n * 8 ≡ 8 + n * 8 = omega arith in
      rw (all, word_round_lem form crc p h)
        (word_loop_lem form n (crc32c mem 8 crc p) (p + 8) (crc32c-below 8 crc p h)
          ∙ sym (crc32c-add mem 8 (n * 8) crc p))

  -- Three parts in a row are the whole.
  three_parts :
      (a b c n crc p : ℕ)
      → a + b + c ≡ n
      → crc32c mem c (crc32c mem b (crc32c mem a crc p) (p + a)) (p + a + b) ≡ crc32c mem n crc p
  three_parts a b c n crc p e =
      ap (λ r. crc32c mem c r (p + a + b)) (sym (crc32c-add mem a b crc p))
      ∙ ap (crc32c mem c (crc32c mem (a + b) crc p)) (omega arith)
      ∙ sym (crc32c-add mem (a + b) c crc p)
      ∙ ap (λ k. crc32c mem k crc p) e

  head_bytes-most : (length offset : ℕ) → head_bytes length offset ≤ length
  head_bytes-most length offset = ground arith

  pub sctp_crc32c_sb8_64_bit_lem :
      (form : Bool) (crc p length offset : ℕ)
      → crc < 2 ^ 32
      → sctp_crc32c_sb8_64_bit mem form crc p length offset ≡ crc32c mem length crc p
  unfolding sctp_crc32c_sb8_64_bit
  sctp_crc32c_sb8_64_bit_lem form crc p length offset h =
      let a = head_bytes length offset in
      let n = (length - a) / 8 in
      byte_loop_lem _ _ _
      ∙ ap (λ r. crc32c mem (length - a - n * 8) r (p + a + n * 8))
          (ap (λ r. word_loop mem form n r (p + a)) (byte_loop_lem a crc p)
            ∙ word_loop_lem form n (crc32c mem a crc p) (p + a) (crc32c-below a crc p h))
      ∙ three_parts a (n * 8) (length - a - n * 8) length crc p
          (omega (arith, head_bytes-most length offset))
