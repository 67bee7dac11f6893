-- ===== src/Crc/Machine.antt =====
-- trunk/src/common/crc32_intel_fast.c, crc32_aarch64.c and crc32.cpp: what uses the instructions of
-- a processor, and the choice between the implementations. `& 7` is a remainder.
use my_git_hub.Common.{
  ℕ, zero, suc, ◌+◌, ◌-◌, ◌*◌, ◌/◌, ◌%◌, ◌^◌, Bool, true, false, ltb, ◌==◌, ◌&&◌, if◌then◌else◌,
}
use my_git_hub.Crc.Defs.{load32, crc32c_intel_baseline, crc32c_sctp}

-- The assembly of crc32c_intel_fast_asm.S and its variant for zeros, and the four instructions of
-- the processor that crc32_aarch64.c uses, each of a register and the value of 8, 4, 2 or 1 bytes.
pub record Machine : Type 0 where
  pub crc32_iscsi_00 : (ℕ → ℕ) → ℕ → ℕ → ℕ → ℕ
  pub crc32_iscsi_zero_00 : ℕ → ℕ → ℕ → ℕ
  pub crc32cx : ℕ → ℕ → ℕ
  pub crc32cw : ℕ → ℕ → ℕ
  pub crc32ch : ℕ → ℕ → ℕ
  pub crc32cb : ℕ → ℕ → ℕ

-- The pointer behind a test that found the digit worth `width`.
abbrev pub behind : ℕ → ℕ → ℕ → ℕ
behind width length p = if length / width % 2 == 1 then p + width else p

module _ (mem : ℕ → ℕ) where
  -- `*(uint64_t *) p` and `*(uint16_t *) p`
  abbrev pub load64 : ℕ → ℕ
  load64 p = load32 mem p + 2 ^ 32 * load32 mem (p + 4)

  abbrev pub load16 : ℕ → ℕ
  load16 p = mem p + 256 * mem (p + 1)

  -- The loop of `crc32c_aarch64` over eight bytes.
  unfoldable pub instruction_loop : Machine → ℕ → ℕ → ℕ → ℕ
  instruction_loop machine zero crc p = crc
  instruction_loop machine (suc n) crc p =
      instruction_loop machine n (machine.crc32cx crc (load64 p)) (p + 8)

  -- The three tests behind it, of the digits of `length` that are worth 4, 2 and 1.
  abbrev pub last_word : Machine → ℕ → ℕ → ℕ → ℕ
  last_word machine length crc p =
      if length / 4 % 2 == 1 then machine.crc32cw crc (load32 mem p) else crc

  abbrev pub last_half : Machine → ℕ → ℕ → ℕ → ℕ
  last_half machine length crc p =
      if length / 2 % 2 == 1 then machine.crc32ch crc (load16 p) else crc

  abbrev pub last_byte : Machine → ℕ → ℕ → ℕ → ℕ
  last_byte machine length crc p = if length % 2 == 1 then machine.crc32cb crc (mem p) else crc

  unfoldable pub instruction_sum : Machine → ℕ → ℕ → ℕ → ℕ
  unfolding instruction_loop
  instruction_sum machine length crc p =
      let p₁ = p + length / 8 * 8 in
      let p₂ = behind 4 length p₁ in
      let p₃ = behind 2 length p₂ in
      let crc₁ = instruction_loop machine (length / 8) crc p in
      let crc₂ = last_word machine length crc₁ p₁ in
      let crc₃ = last_half machine length crc₂ p₂ in last_byte machine length crc₃ p₃

-- `armv8` is `HAVE_ARMV8_CRC`. A null pointer stands for zeros, which are not read.
unfoldable pub crc32c_aarch64 : Machine → Bool → (ℕ → ℕ) → ℕ → ℕ → ℕ → ℕ
unfolding instruction_sum
crc32c_aarch64 machine false mem crc buffer len = 0
crc32c_aarch64 machine true mem crc buffer len =
    if buffer == 0
    then instruction_sum (λ a. 0) machine len crc buffer
    else instruction_sum mem machine len crc buffer

-- `yasm` is `HAVE_GOOD_YASM_ELF64`.
unfoldable pub crc32c_intel_fast : Machine → Bool → (ℕ → ℕ) → ℕ → ℕ → ℕ → ℕ
crc32c_intel_fast machine false mem crc buffer len = 0
crc32c_intel_fast machine true mem crc buffer len =
    if buffer == 0
    then machine.crc32_iscsi_zero_00 buffer len crc
    else if ltb len 16
    then crc32c_intel_baseline mem crc buffer len
    else let left = (buffer + len) % 8 in
      let v = machine.crc32_iscsi_00 mem buffer (len - left) crc in
      if left == 0 then v else crc32c_intel_baseline mem v (buffer + (len - left)) left

abbrev pub crc32c_intel_fast_exists : Bool → Bool
crc32c_intel_fast_exists yasm = yasm

-- The functions that `choose_crc32` returns.
pub data Crc32cFunc : Type 0 where
  intel_fast aarch64 sctp : Crc32cFunc

-- What the probes found, and the settings of the build.
pub record Host : Type 0 where
  pub arch_intel_sse42 : Bool
  pub arch_aarch64_crc32 : Bool
  pub yasm : Bool
  pub armv8 : Bool
  pub big_endian : Bool

unfoldable pub choose_crc32 : Host → Crc32cFunc
choose_crc32 host =
    if host.arch_intel_sse42 && crc32c_intel_fast_exists host.yasm
    then intel_fast
    else if host.arch_aarch64_crc32
    then aarch64
    else sctp

-- A call of the function that was chosen.
unfoldable pub crc32c_func : Machine → Host → Crc32cFunc → (ℕ → ℕ) → ℕ → ℕ → ℕ → ℕ
unfolding crc32c_intel_fast crc32c_aarch64 crc32c_sctp
crc32c_func machine host intel_fast mem crc buffer length =
    crc32c_intel_fast machine host.yasm mem crc buffer length
crc32c_func machine host aarch64 mem crc buffer length =
    crc32c_aarch64 machine host.armv8 mem crc buffer length
crc32c_func machine host sctp mem crc buffer length =
    crc32c_sctp mem host.big_endian crc buffer length
