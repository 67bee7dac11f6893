-- ===== src/Entities/Tests.antt =====
-- Runs of trunk/include/net/msg_types.h on a small instance.
use my_git_hub.Common.{◌-◌, ◌^◌, ◌<◌, ◌≡◌, refl, true, false, ◌||◌, not, ◌∷◌, arith}
use my_git_hub.Buffer.Store.{zeros}
use my_git_hub.Encoding.Defs.{Host}
use my_git_hub.Encoding.Laws.{Writes, Reads}
use my_git_hub.Entities.Defs.{
  EntityName, EntityInst, name_lt, decode_inst, encode_inst, inst_eq, inst_ne, inst_lt, inst_le,
}
use my_git_hub.Entities.Wire.{inst_image, received, inst-wire}
use my_git_hub.Entities.Order.{IsOrder, InRange, comes_before, inst-IsOrder}

abbrev server : EntityInst
server = record {
  name = record { type = 2; reserved = 65 ∷ zeros 6; num = 2 ^ 64 - 1 };
  addr = record { type = 0; reserved = zeros 4; addr = record { ss_family = 2; rest = zeros 126 } };
}

-- A little-endian host on Linux, where `BIG_ENDIAN` is defined.
abbrev linux : Host
linux = record { big_endian = false; swaps = true }

inst-wire_example :
    Writes (encode_inst linux 48 4096 server) (inst_image linux server)
    × Reads (decode_inst linux server) (inst_image linux server) (received server)
inst-wire_example =
    inst-wire linux 48 4096 (omega arith) (omega arith) server server
      (record { type = omega arith; reserved = refl; ends = omega arith; num = omega arith })
      (record {
        type = omega arith;
        reserved = refl;
        ends = omega arith;
        ss_family = omega arith;
        rest = refl;
      })

inst-IsOrder_example :
    IsOrder InRange (inst_lt true) (inst_eq true)
    × ((a b : EntityInst) → inst_ne true a b ≡ not (inst_eq true a b))
    × ((a b : EntityInst) → inst_le true a b ≡ (inst_lt true a b || inst_eq true a b))
    × ((a b : EntityName) → a.num < 2 ^ 64 → b.num < 2 ^ 64 → name_lt a b ≡ comes_before a b)
inst-IsOrder_example = inst-IsOrder true
