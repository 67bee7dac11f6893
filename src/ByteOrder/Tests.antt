-- ===== src/ByteOrder/Tests.antt =====
-- Runs of trunk/include/common/byteorder.h.
use my_git_hub.Common.{◌≡◌, refl, arith, true, false}
use my_git_hub.ByteOrder.Defs.{swab32, swab64, assign, convert, equal}
use my_git_hub.ByteOrder.Swaps.{w32, convert-assign}

swapped : swab64 0x0102030405060708 ≡ 0x0807060504030201
unfolding swab64
swapped = refl

convert-assign_example :
    (convert true swab32 (assign true swab32 5) ≡ 5)
    × (equal (assign true swab32 5) (assign true swab32 6) ≡ false)
convert-assign_example = convert-assign true w32 5 6 (omega arith) (omega arith)
