-- ===== src/Crc/Tests.antt =====
-- Runs of trunk/src/common/crc32.cpp and what it chooses from, on the text of the usual check.
use my_git_hub.Common.{ℕ, ◌+◌, ◌%◌, ◌≡◌, refl, arith, false}
use my_git_hub.Crc.Bitwise.{crc32c, byte_step, bit_step}
use my_git_hub.Crc.Defs.{crc32c_sctp}
use my_git_hub.Crc.Checksum.{crc32c_sctp_lem}
use my_git_hub.Crc.Machine.{choose_crc32, crc32c_func}
use my_git_hub.Crc.Choice.{AllBytes, choose_crc32-crc32c}
use my_git_hub.Crc.Reference.{reference, reference-Documented, intel_host}

-- "123456789" at the address 5
abbrev digits : ℕ → ℕ
digits a = (a + 44) % 256

digits-AllBytes : AllBytes digits
digits-AllBytes a = omega arith

check_value : crc32c digits 9 0xFFFFFFFF 5 ≡ 0x1CF96D7C
unfolding crc32c byte_step bit_step
check_value = refl

choose_crc32-crc32c_example :
    crc32c_func reference intel_host (choose_crc32 intel_host) digits 0xFFFFFFFF 5 9
    ≡ crc32c digits 9 0xFFFFFFFF 5
choose_crc32-crc32c_example =
    choose_crc32-crc32c reference-Documented digits digits-AllBytes intel_host 0xFFFFFFFF 5 9
      (omega arith) (λ e. absurd (ground arith))

crc32c_sctp_lem_example : crc32c_sctp digits false 0xFFFFFFFF 5 9 ≡ 0x1CF96D7C
unfolding crc32c byte_step bit_step
crc32c_sctp_lem_example = crc32c_sctp_lem digits digits-AllBytes false 0xFFFFFFFF 5 9 (omega arith)
