-- ===== src/Crc/Defs.antt =====
-- The functions of trunk/src/common/crc32_sctp.c and crc32_intel_baseline.c.
-- `mem` is the byte at each address and a pointer is an address; `>> 8` is a quotient and
-- `& 0x000000FF` a remainder.
use my_git_hub.Common.{
  ℕ, zero, suc, ◌+◌, ◌-◌, ◌*◌, ◌/◌, ◌%◌, ◌^◌, Bool, true, false, List, ltb, ◌==◌, if◌then◌else◌,
  get_elem?, get_or,
}
use my_git_hub.Crc.FarTables.{
  sctp_crc_tableil8_o88, sctp_crc_tableil8_o80, sctp_crc_tableil8_o72, sctp_crc_tableil8_o64,
}
use my_git_hub.Crc.NearTables.{
  sctp_crc_tableil8_o56, sctp_crc_tableil8_o48, sctp_crc_tableil8_o40, sctp_crc_tableil8_o32,
}
use my_git_hub.Crc.ByteTables.{crc32_table_iscsi_base}
use Prim.Native.Nat.{bit_xor}

-- A read of a table; the index is always below 256.
abbrev pub at : List ℕ → ℕ → ℕ
at table i = get_or (get_elem? table i) 0

-- `crc = table[(crc ^ *p_buf++) & 0x000000FF] ^ (crc >> 8)`
unfoldable pub byte_round : ℕ → ℕ → ℕ
byte_round crc x = bit_xor (at sctp_crc_tableil8_o32 (bit_xor crc x % 256)) (crc / 256)

-- The same statement as it stands in `crc32c_intel_baseline`.
unfoldable pub base_round : ℕ → ℕ → ℕ
base_round crc x = bit_xor (crc / 256) (at crc32_table_iscsi_base (bit_xor (crc % 256) x))

-- The part of a round of eight bytes that the first word goes through; it is in the register.
unfoldable pub far_terms : ℕ → ℕ
far_terms crc =
    let term1 =
      bit_xor (at sctp_crc_tableil8_o88 (crc % 256)) (at sctp_crc_tableil8_o80 (crc / 256 % 256)) in
    let term2 = crc / 65536 in
    bit_xor (bit_xor term1 (at sctp_crc_tableil8_o72 (term2 % 256)))
      (at sctp_crc_tableil8_o64 (term2 / 256 % 256))

module _ (mem : ℕ → ℕ) where
  -- `*(uint32_t *) p` where the lowest byte stands first
  abbrev pub load32 : ℕ → ℕ
  load32 p = mem p + 256 * (mem (p + 1) + 256 * (mem (p + 2) + 256 * mem (p + 3)))

  -- The two forms of reading the first word of a round, under `#ifdef BIG_ENDIAN` and `#else`.
  unfoldable pub first_word : Bool → ℕ → ℕ → ℕ
  first_word true crc p =
      bit_xor (bit_xor (bit_xor (bit_xor crc (mem p)) (mem (p + 1) * 256)) (mem (p + 2) * 65536))
        (mem (p + 3) * 16777216)
  first_word false crc p = bit_xor crc (load32 p)

  -- The two forms of taking in the second word.
  unfoldable pub second_word : Bool → ℕ → ℕ → ℕ
  second_word true crc p =
      bit_xor
        (bit_xor
          (bit_xor (bit_xor crc (at sctp_crc_tableil8_o56 (mem p)))
            (at sctp_crc_tableil8_o48 (mem (p + 1))))
          (at sctp_crc_tableil8_o40 (mem (p + 2))))
        (at sctp_crc_tableil8_o32 (mem (p + 3)))
  second_word false crc p =
      let word = load32 p in
      let term1 =
        bit_xor (at sctp_crc_tableil8_o56 (word % 256))
          (at sctp_crc_tableil8_o48 (word / 256 % 256)) in
      let term2 = word / 65536 in
      bit_xor (bit_xor (bit_xor crc term1) (at sctp_crc_tableil8_o40 (term2 % 256)))
        (at sctp_crc_tableil8_o32 (term2 / 256 % 256))

  -- The body of the loop over eight bytes.
  unfoldable pub word_round : Bool → ℕ → ℕ → ℕ
  unfolding first_word second_word far_terms
  word_round form crc p = second_word form (far_terms (first_word form crc p)) (p + 4)

  -- The loops over single bytes, with `n` rounds to go.
  unfoldable pub byte_loop : ℕ → ℕ → ℕ → ℕ
  unfolding byte_round
  byte_loop zero crc p = crc
  byte_loop (suc n) crc p = byte_loop n (byte_round crc (mem p)) (p + 1)

  unfoldable pub word_loop : Bool → ℕ → ℕ → ℕ → ℕ
  unfolding word_round
  word_loop form zero crc p = crc
  word_loop form (suc n) crc p = word_loop form n (word_round form crc p) (p + 8)

-- `init_bytes`
abbrev pub head_bytes : ℕ → ℕ → ℕ
head_bytes length offset =
    let n = (2 ^ 32 + 4 - offset) % 2 ^ 32 % 4 in if ltb length n then length else n

unfoldable pub sctp_crc32c_sb8_64_bit : (ℕ → ℕ) → Bool → ℕ → ℕ → ℕ → ℕ → ℕ
unfolding byte_loop word_loop
sctp_crc32c_sb8_64_bit mem form crc p_buf length offset =
    let init_bytes = head_bytes length offset in
    let rounds = (length - init_bytes) / 8 in
    let running_length = rounds * 8 in
    let end_bytes = length - init_bytes - running_length in
    let crc₁ = byte_loop mem init_bytes crc p_buf in
    let crc₂ = word_loop mem form rounds crc₁ (p_buf + init_bytes) in
    byte_loop mem end_bytes crc₂ (p_buf + init_bytes + running_length)

-- The rounds of `sctp_crc32c_sb8_64_bit_zero`, whose bytes are all 0.
unfoldable pub byte_round_zero : ℕ → ℕ
byte_round_zero crc = bit_xor (at sctp_crc_tableil8_o32 (crc % 256)) (crc / 256)

unfoldable pub second_word_zero : Bool → ℕ → ℕ
second_word_zero true crc =
    bit_xor
      (bit_xor (bit_xor (bit_xor crc (at sctp_crc_tableil8_o56 0)) (at sctp_crc_tableil8_o48 0))
        (at sctp_crc_tableil8_o40 0))
      (at sctp_crc_tableil8_o32 0)
second_word_zero false crc =
    let term1 = bit_xor (at sctp_crc_tableil8_o56 0) (at sctp_crc_tableil8_o48 0) in
    let term2 : ℕ = 0 in
    bit_xor (bit_xor (bit_xor crc term1) (at sctp_crc_tableil8_o40 (term2 % 256)))
      (at sctp_crc_tableil8_o32 (term2 / 256 % 256))

unfoldable pub byte_loop_zero : ℕ → ℕ → ℕ
unfolding byte_round_zero
byte_loop_zero zero crc = crc
byte_loop_zero (suc n) crc = byte_loop_zero n (byte_round_zero crc)

unfoldable pub word_loop_zero : Bool → ℕ → ℕ → ℕ
unfolding second_word_zero far_terms
word_loop_zero form zero crc = crc
word_loop_zero form (suc n) crc = word_loop_zero form n (second_word_zero form (far_terms crc))

unfoldable pub sctp_crc32c_sb8_64_bit_zero : Bool → ℕ → ℕ → ℕ → ℕ
unfolding byte_loop_zero word_loop_zero
sctp_crc32c_sb8_64_bit_zero form crc length offset =
    let init_bytes = head_bytes length offset in
    let rounds = (length - init_bytes) / 8 in
    let running_length = rounds * 8 in
    let end_bytes = length - init_bytes - running_length in
    byte_loop_zero end_bytes (word_loop_zero form rounds (byte_loop_zero init_bytes crc))

unfoldable pub update_crc32 : (ℕ → ℕ) → Bool → ℕ → ℕ → ℕ → ℕ
unfolding sctp_crc32c_sb8_64_bit sctp_crc32c_sb8_64_bit_zero
update_crc32 mem form crc32c buffer length =
    let offset = buffer % 4 in
    if length == 0
    then crc32c
    else if buffer == 0
    then sctp_crc32c_sb8_64_bit_zero form crc32c length offset
    else sctp_crc32c_sb8_64_bit mem form crc32c buffer length offset

unfoldable pub crc32c_sctp : (ℕ → ℕ) → Bool → ℕ → ℕ → ℕ → ℕ
unfolding update_crc32
crc32c_sctp mem form crc buffer length = update_crc32 mem form crc buffer length

-- The two loops of `crc32c_intel_baseline`; the second reads no byte.
unfoldable pub base_loop : (ℕ → ℕ) → ℕ → ℕ → ℕ → ℕ
unfolding base_round
base_loop mem zero crc p = crc
base_loop mem (suc n) crc p = base_loop mem n (base_round crc (mem p)) (p + 1)

unfoldable pub base_round_zero : ℕ → ℕ
base_round_zero crc = bit_xor (crc / 256) (at crc32_table_iscsi_base (crc % 256))

unfoldable pub base_loop_zero : ℕ → ℕ → ℕ
unfolding base_round_zero
base_loop_zero zero crc = crc
base_loop_zero (suc n) crc = base_loop_zero n (base_round_zero crc)

unfoldable pub crc32c_intel_baseline : (ℕ → ℕ) → ℕ → ℕ → ℕ → ℕ
unfolding base_loop base_loop_zero
crc32c_intel_baseline mem crc_init2 buffer len =
    if buffer == 0 then base_loop_zero len crc_init2 else base_loop mem len crc_init2 buffer
