-- ===== src/Armor/Tests.antt =====
-- Runs of trunk/src/common/armor.cpp on a text of five bytes.
use my_git_hub.Common.{ℕ, ◌≡◌, refl, List, arith, codes}
use my_git_hub.Armor.Defs.{done, erange, armor_line_break, armor, unarmor, encode_bits}
use my_git_hub.Armor.Encode.{text, armor_line_break_lem}
use my_git_hub.Armor.Decode.{unarmor-armor_line_break}

abbrev hello : List ℕ
hello = codes "hello"

abbrev hello_armored : List ℕ
hello_armored = codes "aGVs\nbG8=\n"

armored : armor 100 hello ≡ (codes "aGVsbG8=", done 8)
unfolding armor encode_bits
armored = refl

unarmor-armor_line_break_example : unarmor 5 hello_armored ≡ (hello, done 5)
unfolding armor_line_break encode_bits
unarmor-armor_line_break_example =
    unarmor-armor_line_break 10 5 4 10 hello hello_armored (omega arith) refl (omega arith)

armor_line_break_lem_example : armor_line_break 6 hello 4 ≡ (codes "aGVs\nb", erange)
unfolding text encode_bits
armor_line_break_lem_example = armor_line_break_lem 6 4 hello
