-- ===== src/Encoding/Tests.antt =====
-- Runs of trunk/include/common/encoding.h on small values.
use my_git_hub.Common.{
  ℕ, ◌+◌, ◌<◌, ◌≤◌, ◌≡◌, refl, true, false, List, [], ◌∷◌, ◌++◌, arith, ltb, length,
}
use my_git_hub.Common.Words.{u32_mod}
use my_git_hub.ByteOrder.Swaps.{bytes, Width, w16, size, limit}
use my_git_hub.Buffer.Store.{Ptr, Store}
use my_git_hub.Buffer.Defs.{empty_buffer}
use my_git_hub.Buffer.Valid.{IsValid, Sized}
use my_git_hub.Encoding.Defs.{
  Host, encode_bool, decode_bool, encode_int, decode_int, encode_string, decode_string, encode_set,
  decode_set, encode_ptr, encode_buffer,
}
use my_git_hub.Encoding.Laws.{WritesAt}
use my_git_hub.Encoding.Values.{int_image, bool_image, text_image}
use my_git_hub.Encoding.Codec.{IsCodec, RoundTrip, scalars-IsCodec}
use my_git_hub.Encoding.Sets.{AllOk, Ascending, set_image, set-IsCodec}
use my_git_hub.Encoding.RoundTrips.{values_read_back}
use my_git_hub.Encoding.Pieces.{pieces_written}

abbrev store : Store
store = record { bytes = λ r. 1 ∷ 2 ∷ 3 ∷ []; next = 1; junk = λ i. 0 }

store-Sized : Sized store
store-Sized r = omega arith

empty_buffer-IsValid : IsValid store empty_buffer
empty_buffer-IsValid = record {
  fit = tt;
  counted = omega arith;
  owned = tt;
  before = tt;
  cursor = omega arith;
}

abbrev two : Ptr
two = record { raw = 0; off = 1; len = 2 }

ltb_asymmetric : (x y : ℕ) → ltb x y ≡ true → ltb y x ≡ false
ltb_asymmetric x y h = ground arith

pos_unit : 0 < 4096
pos_unit = omega arith

small_unit : 4096 + 16 ≤ u32_mod
small_unit = omega arith

-- A little-endian host on Linux, where `BIG_ENDIAN` is defined.
abbrev linux : Host
linux = record { big_endian = false; swaps = true }

-- What such a host writes.
highest_first : int_image linux 4 258 ≡ 0 ∷ 0 ∷ 1 ∷ 2 ∷ []
unfolding bytes
highest_first = refl

scalars-IsCodec_example :
    IsCodec (encode_bool 48 4096) decode_bool bool_image (λ v. Unit {0})
    × ((w : Width)
        → IsCodec
            (encode_int 48 4096 linux w)
            (decode_int linux w)
            (int_image linux (size w))
            (λ x. x < limit w))
    × IsCodec
        (encode_string 48 4096 linux)
        (decode_string linux)
        (text_image linux)
        (λ s. length s + 8 + 4096 ≤ u32_mod)
scalars-IsCodec_example = scalars-IsCodec 48 4096 pos_unit small_unit linux

abbrev SmallSet : List ℕ → Type 0
SmallSet s = Ascending ltb s × AllOk (λ x. x < limit w16) s × (length s < u32_mod)

set-IsCodec_example :
    IsCodec
      (encode_set 48 4096 linux (encode_int 48 4096 linux w16))
      (decode_set linux ltb (decode_int linux w16))
      (set_image linux (int_image linux (size w16)))
      SmallSet
set-IsCodec_example =
    set-IsCodec (encode_int 48 4096 linux w16) (decode_int linux w16) (int_image linux (size w16))
      (λ x. x < limit w16) ((scalars-IsCodec 48 4096 pos_unit small_unit linux).1 w16) ltb
      ltb_asymmetric 48 4096 pos_unit small_unit linux

values_read_back_example :
    RoundTrip (encode_bool 48 4096) decode_bool true store empty_buffer
    × RoundTrip (encode_int 48 4096 linux w16) (decode_int linux w16) 1000 store empty_buffer
    × RoundTrip (encode_string 48 4096 linux) (decode_string linux) (7 ∷ 8 ∷ []) store empty_buffer
    × RoundTrip
        (encode_set 48 4096 linux (encode_int 48 4096 linux w16))
        (decode_set linux ltb (decode_int linux w16))
        (3 ∷ 70 ∷ 1000 ∷ [])
        store
        empty_buffer
values_read_back_example =
    values_read_back 48 4096 pos_unit small_unit linux store empty_buffer empty_buffer-IsValid
      store-Sized true w16 1000 (7 ∷ 8 ∷ []) (3 ∷ 70 ∷ 1000 ∷ []) (omega arith) (omega arith)
      ((refl, (refl, tt)), ((refl, tt), (tt, tt))) (omega arith, (omega arith, (omega arith, tt)))
      (omega arith)

pieces_written_example :
    WritesAt (encode_ptr 48 4096 linux two) (int_image linux 4 2 ++ (2 ∷ 3 ∷ [])) store empty_buffer
    × WritesAt
        (encode_buffer 48 4096 linux empty_buffer)
        (int_image linux 4 0 ++ [])
        store
        empty_buffer
pieces_written_example =
    pieces_written 48 4096 pos_unit small_unit linux store empty_buffer empty_buffer-IsValid
      store-Sized two empty_buffer (omega arith)
      (λ some_bytes.
        (record { made = omega arith; some_bytes = omega arith; within = omega arith }, tt))
      empty_buffer-IsValid tt
