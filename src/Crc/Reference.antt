-- ===== src/Crc/Reference.antt =====
-- A machine that does what the manuals say, and a host that uses it.
use my_git_hub.Common.{ℕ, ◌+◌, ◌/◌, ◌%◌, ◌^◌, ◌≡◌, refl, sym, ap, ◌∙◌, arith, true, false}
use my_git_hub.Common.Xor.{bit_xor_byte, bit_xor_assoc}
use my_git_hub.Crc.Bitwise.{crc32c, crc32c-add, byte_step, byte_step-bit_xor, byte_step-shift}
use my_git_hub.Crc.Tables.{word_step}
use my_git_hub.Crc.Slicing.{crc32c-word, load32-below}
use my_git_hub.Crc.Defs.{load32}
use my_git_hub.Crc.Checksum.{zeros}
use my_git_hub.Crc.Machine.{Machine, load16, load64, Host}
use my_git_hub.Crc.Choice.{AllBytes, Documented}
use Prim.Native.Nat.{bit_xor}

-- A machine whose instructions are computed.
abbrev pub reference : Machine
reference = record {
  crc32_iscsi_00 = λ mem buffer len crc. crc32c mem len crc buffer;
  crc32_iscsi_zero_00 = λ buffer len crc. crc32c zeros len crc buffer;
  crc32cx =
      λ crc value. word_step (bit_xor (word_step (bit_xor crc (value % 2 ^ 32))) (value / 2 ^ 32));
  crc32cw = λ crc value. word_step (bit_xor crc value);
  crc32ch = λ crc value. byte_step (byte_step (bit_xor crc value));
  crc32cb = λ crc value. byte_step (bit_xor crc value);
}

module _ (mem : ℕ → ℕ) (bytes : AllBytes mem) (crc p : ℕ) where
  two_bytes : byte_step (byte_step (bit_xor crc (load16 mem p))) ≡ crc32c mem 2 crc p
  unfolding crc32c
  two_bytes =
      ap (λ z. byte_step (byte_step (bit_xor crc z)))
        (sym (bit_xor_byte (mem p) (mem (p + 1)) (bytes p)))
      ∙ simp (byte_step-bit_xor, byte_step-shift, bit_xor_assoc)

  eight_bytes :
      word_step (bit_xor (word_step (bit_xor crc (load64 mem p % 2 ^ 32))) (load64 mem p / 2 ^ 32))
      ≡ crc32c mem 8 crc p
  eight_bytes =
      let below = load32-below mem bytes p in
      let low : load64 mem p % 2 ^ 32 ≡ load32 mem p = omega arith in
      let high : load64 mem p / 2 ^ 32 ≡ load32 mem (p + 4) = omega arith in
      rw (low, high)
        (sym (crc32c-word mem bytes (word_step (bit_xor crc (load32 mem p))) (p + 4))
          ∙ ap (λ r. crc32c mem 4 r (p + 4)) (sym (crc32c-word mem bytes crc p))
          ∙ sym (crc32c-add mem 4 4 crc p))

pub reference-Documented : Documented reference
unfolding crc32c
reference-Documented = record {
  eight = eight_bytes;
  four = λ mem bytes crc p. sym (crc32c-word mem bytes crc p);
  two = two_bytes;
  one = λ mem bytes crc p. refl;
  assembly = λ mem bytes buffer len crc. refl;
  assembly_zero = λ buffer len crc. refl;
}

abbrev pub intel_host : Host
intel_host = record {
  arch_intel_sse42 = true;
  arch_aarch64_crc32 = false;
  yasm = true;
  armv8 = false;
  big_endian = true;
}
