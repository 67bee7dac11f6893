-- ===== src/Armor/Defs.antt =====
-- The functions of armor.cpp. `dst` is the room that is left in it and the bytes that are written;
-- shifts and masks are quotients and remainders, and `|` of disjoint bits is a sum.
use my_git_hub.Common.{
  ℕ, zero, suc, ◌+◌, ◌-◌, ◌*◌, ◌/◌, ◌%◌, true, false, ◌&&◌, ◌||◌, not, Option, none, some, List, [],
  ◌∷◌, leb, ◌==◌, if◌then◌else◌, codes, get_elem?, get_or,
}

abbrev pub pem_key : List ℕ
pem_key = codes "ABCDEFGHIJKLMNOPQRSTUVWXYZabcdefghijklmnopqrstuvwxyz0123456789+/"

-- A read behind the key never happens (`Bits.bits_round_trip`).
unfoldable pub encode_bits : ℕ → ℕ
encode_bits c = get_or (get_elem? pem_key c) 0

-- `none` is `-EINVAL`.
unfoldable pub decode_bits : ℕ → Option ℕ
decode_bits c =
    if leb b'A' c && leb c b'Z'
    then some (c - b'A')
    else if leb b'a' c && leb c b'z'
    then some (c - b'a' + 26)
    else if leb b'0' c && leb c b'9'
    then some (c - b'0' + 52)
    else if c == b'+' || c == b'-'
    then some 62
    else if c == b'/' || c == b'_'
    then some 63
    else if c == b'='
    then some 0
    else none

-- What a call returns: a length, `-ERANGE` or `-EINVAL`.
pub data Status : Type 0 where
  done : ℕ → Status
  erange einval : Status

-- What a call has written, and its status.
abbrev pub Output : Type 0
Output = List ℕ × Status

-- `SET_DST(c)`, then the rest of the function, which gets the room that is left.
unfoldable pub set_dst : ℕ → ℕ → (ℕ → Output) → Output
set_dst c zero rest = ([], erange)
set_dst c (suc room) rest = let (w, s) = rest room in (c ∷ w, s)

-- The four characters of one round.
abbrev pub set_quad : ℕ → ℕ → ℕ → ℕ → ℕ → (ℕ → Output) → Output
set_quad c₁ c₂ c₃ c₄ room rest =
    set_dst c₁ room λ r₁. set_dst c₂ r₁ λ r₂. set_dst c₃ r₂ λ r₃. set_dst c₄ r₃ rest

-- The end of a round: `rest` gets the room, `olen` and `line`.
unfoldable pub end_round : ℕ → ℕ → ℕ → ℕ → (ℕ → ℕ → ℕ → Output) → Output
unfolding set_dst
end_round line_width room olen line rest =
    if not (line_width == 0) && line + 4 == line_width
    then set_dst 10 room (λ r. rest r (olen + 5) 0)
    else rest room (olen + 4) (line + 4)

-- The loop of `armor_line_break`, over the bytes of `src` that are left.
unfoldable pub armor_loop : ℕ → ℕ → ℕ → ℕ → List ℕ → Output
unfolding set_dst end_round
armor_loop lw room olen line [] = ([], done olen)
armor_loop lw room olen line (a ∷ []) =
    set_quad (encode_bits (a / 4)) (encode_bits (a % 4 * 16)) b'=' b'=' room
      λ r. end_round lw r olen line λ r' o l. ([], done o)
armor_loop lw room olen line (a ∷ b ∷ []) =
    set_quad (encode_bits (a / 4)) (encode_bits (a % 4 * 16 + b / 16)) (encode_bits (b % 16 * 4))
      b'=' room λ r. end_round lw r olen line λ r' o l. ([], done o)
armor_loop lw room olen line (a ∷ b ∷ c ∷ src) =
    set_quad (encode_bits (a / 4)) (encode_bits (a % 4 * 16 + b / 16))
      (encode_bits (b % 16 * 4 + c / 64)) (encode_bits (c % 64)) room
      λ r. end_round lw r olen line λ r' o l. armor_loop lw r' o l src

unfoldable pub armor_line_break : ℕ → List ℕ → ℕ → Output
unfolding armor_loop
armor_line_break room src line_width = armor_loop line_width room 0 0 src

unfoldable pub armor : ℕ → List ℕ → Output
unfolding armor_line_break
armor room src = armor_line_break room src 0

-- A round of `unarmor` once its four characters are decoded; `y` and `z` are the last two, and
-- `rest` gets the room that is left.
unfoldable pub unarmor_bits :
    ℕ → ℕ → ℕ → ℕ → Option ℕ → Option ℕ → Option ℕ → Option ℕ → (ℕ → Output) → Output
unfolding set_dst
unarmor_bits room olen y z (some a) (some b) (some c) (some d) rest =
    set_dst (a * 4 + b / 16) room λ r₁.
      if y == b'='
      then ([], done (olen + 1))
      else set_dst (b % 16 * 16 + c / 4) r₁
          λ r₂. if z == b'=' then ([], done (olen + 2)) else set_dst (c % 4 * 64 + d) r₂ rest
unarmor_bits room olen y z _ _ _ _ rest = ([], einval)

abbrev pub unarmor_quad : ℕ → ℕ → ℕ → ℕ → ℕ → ℕ → (ℕ → Output) → Output
unarmor_quad room olen w x y z rest =
    unarmor_bits room olen y z (decode_bits w) (decode_bits x) (decode_bits y) (decode_bits z) rest

unfoldable pub unarmor_loop : ℕ → ℕ → List ℕ → Output
unarmor_loop room olen [] = ([], done olen)
unarmor_loop room olen (w ∷ []) = if w == 10 then ([], done olen) else ([], einval)
unarmor_loop room olen (w ∷ x ∷ []) = elim (w == 10) [
  | true ↦ unarmor_loop room olen (x ∷ [])
  | false ↦ ([], einval)
]
unarmor_loop room olen (w ∷ x ∷ y ∷ []) = elim (w == 10) [
  | true ↦ unarmor_loop room olen (x ∷ y ∷ [])
  | false ↦ ([], einval)
]
unarmor_loop room olen (w ∷ x ∷ y ∷ z ∷ src) = elim (w == 10) [
  | true ↦ unarmor_loop room olen (x ∷ y ∷ z ∷ src)
  | false ↦ unarmor_quad room olen w x y z (λ r. unarmor_loop r (olen + 3) src)
]

unfoldable pub unarmor : ℕ → List ℕ → Output
unfolding unarmor_loop
unarmor room src = unarmor_loop room 0 src
