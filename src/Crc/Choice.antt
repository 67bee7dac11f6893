-- ===== src/Crc/Choice.antt =====
-- The implementations that use a processor's instructions, and the choice between all.
use my_git_hub.Common.{
  ℕ, zero, suc, ◌+◌, ◌-◌, ◌*◌, ◌/◌, ◌%◌, ◌^◌, ◌≤◌, ◌<◌, ◌≡◌, refl, sym, ap, ap₂, ◌∙◌, arith, ◌&&◌,
  true, false, ltb, ◌==◌, if◌then◌else◌, Bool-cases, inl, inr,
}
use my_git_hub.Crc.Bitwise.{crc32c, crc32c-add}
use my_git_hub.Crc.Defs.{load32, crc32c_intel_baseline}
use my_git_hub.Crc.Checksum.{zeros, seen, crc32c_sctp_lem, crc32c_intel_baseline_lem}
use my_git_hub.Crc.Machine.{
  Machine, load16, load64, instruction_loop, behind, instruction_sum, crc32c_aarch64,
  crc32c_intel_fast, Host, choose_crc32, crc32c_func,
}

abbrev pub AllBytes : (ℕ → ℕ) → Type 0
AllBytes mem = (a : ℕ) → mem a < 256

-- What the manuals say of the instructions and of the assembly: each takes its bytes through the
-- register, the lowest first.
pub record Documented (machine : Machine) : Type 0 where
  pub eight :
      (mem : ℕ → ℕ)
      → AllBytes mem
      → (crc p : ℕ) → machine.crc32cx crc (load64 mem p) ≡ crc32c mem 8 crc p
  pub four :
      (mem : ℕ → ℕ)
      → AllBytes mem
      → (crc p : ℕ) → machine.crc32cw crc (load32 mem p) ≡ crc32c mem 4 crc p
  pub two :
      (mem : ℕ → ℕ)
      → AllBytes mem
      → (crc p : ℕ) → machine.crc32ch crc (load16 mem p) ≡ crc32c mem 2 crc p
  pub one :
      (mem : ℕ → ℕ) → AllBytes mem → (crc p : ℕ) → machine.crc32cb crc (mem p) ≡ crc32c mem 1 crc p
  pub assembly :
      (mem : ℕ → ℕ)
      → AllBytes mem
      → (buffer len crc : ℕ) → machine.crc32_iscsi_00 mem buffer len crc ≡ crc32c mem len crc buffer
  pub assembly_zero :
      (buffer len crc : ℕ)
      → machine.crc32_iscsi_zero_00 buffer len crc ≡ crc32c zeros len crc buffer

module _ {machine : Machine} (doc : Documented machine) (mem : ℕ → ℕ) (bytes : AllBytes mem) where
  instruction_loop_lem :
      (n crc p : ℕ) → instruction_loop mem machine n crc p ≡ crc32c mem (n * 8) crc p
  unfolding instruction_loop crc32c
  instruction_loop_lem zero crc p = refl
  instruction_loop_lem (suc n) crc p =
      let all : suc n * 8 ≡ 8 + n * 8 = omega arith in
      rw (all, doc.eight mem bytes crc p)
        (instruction_loop_lem n (crc32c mem 8 crc p) (p + 8) ∙ sym (crc32c-add mem 8 (n * 8) crc p))

  -- A test of one digit `b`: `width` bytes more, or none.
  digit :
      (b width crc p next : ℕ)
      → b < 2
      → next ≡ crc32c mem width crc p
      → (if b == 1 then next else crc) ≡ crc32c mem (b * width) crc p
  unfolding crc32c
  digit zero width crc p next h e = let none : 0 * width ≡ 0 = omega arith in rw none refl
  digit (suc zero) width crc p next h e = let whole : 1 * width ≡ width = omega arith in rw whole e
  digit (suc (suc b)) width crc p next h e = absurd (omega arith)

  -- The bytes behind the `n` that are done.
  go_on : (n m crc p : ℕ) → crc32c mem m (crc32c mem n crc p) (p + n) ≡ crc32c mem (n + m) crc p
  go_on n m crc p = sym (crc32c-add mem n m crc p)

  instruction_sum_lem :
      (length crc p : ℕ) → instruction_sum mem machine length crc p ≡ crc32c mem length crc p
  unfolding instruction_sum
  instruction_sum_lem length crc p =
      let a = length / 8 * 8 in
      let b = length / 4 % 2 in
      let c = length / 2 % 2 in
      let d = length % 2 in
      let p₂ = behind 4 length (p + a) in
      let p₃ = behind 2 length p₂ in
      let e₂ : p₂ ≡ p + (a + b * 4) = ground arith in
      let e₃ : p₃ ≡ p + (a + b * 4 + c * 2) = ground arith in
      let s₁ = instruction_loop_lem (length / 8) crc p in
      let s₂ =
        digit b 4 _ (p + a) _ (omega arith) (doc.four mem bytes _ (p + a))
        ∙ ap (λ r. crc32c mem (b * 4) r (p + a)) s₁
        ∙ go_on a (b * 4) crc p in
      let s₃ =
        digit c 2 _ p₂ _ (omega arith) (doc.two mem bytes _ p₂)
        ∙ ap₂ (crc32c mem (c * 2)) s₂ e₂
        ∙ go_on (a + b * 4) (c * 2) crc p in
      digit d 1 _ p₃ _ (omega arith) (doc.one mem bytes _ p₃)
      ∙ ap₂ (crc32c mem (d * 1)) s₃ e₃
      ∙ go_on (a + b * 4 + c * 2) (d * 1) crc p
      ∙ ap (λ k. crc32c mem k crc p) (omega arith)

zeros-AllBytes : AllBytes zeros
zeros-AllBytes a = omega arith

module _ {machine : Machine} (doc : Documented machine) (mem : ℕ → ℕ) (bytes : AllBytes mem) where
  crc32c_aarch64_lem :
      (crc p len : ℕ) → crc32c_aarch64 machine true mem crc p len ≡ crc32c (seen mem p) len crc p
  unfolding crc32c_aarch64
  crc32c_aarch64_lem crc p len = elim (Bool-cases (p == 0)) [
    | inl y ↦ rw y (instruction_sum_lem doc zeros zeros-AllBytes len crc p)
    | inr n ↦ rw n (instruction_sum_lem doc mem bytes len crc p)
  ]

  -- The assembly takes the bytes up to a multiple of eight, the byte loop those that are left.
  two_parts :
      (crc p len left : ℕ)
      → (p == 0) ≡ false
      → left ≤ len
      → (if left == 0
          then crc32c mem (len - left) crc p
          else crc32c_intel_baseline mem (crc32c mem (len - left) crc p) (p + (len - left)) left)
        ≡ crc32c mem len crc p
  unfolding crc32c
  two_parts crc p len left n h =
      let later : (p + (len - left) == 0) ≡ false = ground arith in
      let total : len - left + left ≡ len = omega arith in
      let rest : crc32c mem left (crc32c mem (len - left) crc p) (p + (len - left))
          ≡ crc32c mem len crc p =
        go_on doc mem bytes (len - left) left crc p ∙ ap (λ k. crc32c mem k crc p) total in
      elim (Bool-cases (left == 0)) [
        | inl y ↦ let all : len - left ≡ len = ground arith in rw (y, all) refl
        | inr z ↦
            rw z (crc32c_intel_baseline_lem mem bytes _ (p + (len - left)) left ∙ rw later rest)
      ]

  crc32c_intel_fast_lem :
      (crc p len : ℕ) → crc32c_intel_fast machine true mem crc p len ≡ crc32c (seen mem p) len crc p
  unfolding crc32c_intel_fast
  crc32c_intel_fast_lem crc p len = elim (Bool-cases (p == 0)) [
    | inl y ↦ rw y (doc.assembly_zero p len crc)
    | inr n ↦ elim (Bool-cases (ltb len 16)) [
      | inl s ↦ rw (n, s) (crc32c_intel_baseline_lem mem bytes crc p len ∙ rw n refl)
      | inr l ↦
          rw (n, l, doc.assembly mem bytes p (len - (p + len) % 8) crc)
            (two_parts crc p len ((p + len) % 8) n (ground arith))
    ]
  ]

  -- Whatever the probes found, the function that `choose_crc32` returns computes the CRC-32C of its
  -- bytes, if the instructions do what their manuals say and a processor with the ARMv8 checksum
  -- instructions runs a build that uses them.
  pub choose_crc32-crc32c :
      (host : Host) (crc p length : ℕ)
      → crc < 2 ^ 32
      → (host.arch_aarch64_crc32 ≡ true → host.armv8 ≡ true)
      → crc32c_func machine host (choose_crc32 host) mem crc p length
        ≡ crc32c (seen mem p) length crc p
  unfolding crc32c_func choose_crc32
  choose_crc32-crc32c host crc p length h built =
      elim (Bool-cases (host.arch_intel_sse42 && host.yasm)) [
        | inl y ↦
            let yasm : host.yasm ≡ true = ground arith in
            rw (y, yasm) (crc32c_intel_fast_lem crc p length)
        | inr n ↦ elim (Bool-cases host.arch_aarch64_crc32) [
          | inl a ↦ rw (n, a, built a) (crc32c_aarch64_lem crc p length)
          | inr b ↦ rw (n, b) (crc32c_sctp_lem mem bytes host.big_endian crc p length h)
        ]
      ]
