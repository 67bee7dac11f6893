-- ===== src/Buffer/CrcCache.antt =====
-- `buffer::crc32` and the checksums that a raw keeps of its parts. The checksum function itself is
-- `trunk/src/common/crc32.cpp`'s; here it is known by its laws, which `Chosen` proves of it.
use my_git_hub.Common.{
  ℕ, ◌^◌, ◌<◌, ◌≡◌, Bool, ◌&&◌, Option, none, some, List, [], ◌∷◌, ◌++◌, ◌==◌, if◌then◌else◌,
  length, AllBelow,
}
use Prim.Native.Nat.{bit_xor}
use my_git_hub.Buffer.Store.{Ptr, end_of, Store, view, ptr_copy_in}

-- `crc32c(crc, data, len)` of bytes, and `crc32c(crc, NULL, len)`.
pub record Checksum : Type 0 where
  pub crc32c : List ℕ → ℕ → ℕ
  pub crc32c_null : ℕ → ℕ → ℕ
  pub below : (xs : List ℕ) (crc : ℕ) → AllBelow 256 xs → crc < 2 ^ 32 → crc32c xs crc < 2 ^ 32
  pub nothing : (crc : ℕ) → crc < 2 ^ 32 → crc32c [] crc ≡ crc
  pub in_two :
      (xs ys : List ℕ) (crc : ℕ)
      → AllBelow 256 xs
      → AllBelow 256 ys
      → crc < 2 ^ 32
      → crc32c (xs ++ ys) crc ≡ crc32c ys (crc32c xs crc)
  pub other_base :
      (xs : List ℕ) (base crc : ℕ)
      → AllBelow 256 xs
      → base < 2 ^ 32
      → crc < 2 ^ 32
      → crc32c xs crc ≡ bit_xor (crc32c xs base) (crc32c_null (length xs) (bit_xor base crc))

-- An entry of `_crc_map`: the range, and the checksum `crc` of it from `base` on.
pub record Entry : Type 0 where
  pub from : ℕ
  pub to : ℕ
  pub base : ℕ
  pub crc : ℕ

-- The `_crc_map` of each raw.
abbrev pub CrcMaps : Type 0
CrcMaps = ℕ → List Entry

abbrev same_range : ℕ → ℕ → Entry → Bool
same_range from to e = e.from == from && e.to == to

unfoldable pub get_crc : ℕ → ℕ → List Entry → Option Entry
get_crc from to [] = none
get_crc from to (e ∷ es) = if same_range from to e then some e else get_crc from to es

unfoldable pub set_crc : Entry → List Entry → List Entry
set_crc e [] = e ∷ []
set_crc e (x ∷ xs) = if same_range e.from e.to x then e ∷ xs else x ∷ set_crc e xs

abbrev pub put : ℕ → List Entry → CrcMaps → CrcMaps
put r es maps = λ q. if q == r then es else maps q

-- `raw::invalidate_crc`
unfoldable pub invalidate_raw : ℕ → CrcMaps → CrcMaps
invalidate_raw r maps = put r [] maps

-- `buffer::invalidate_crc`
unfoldable pub invalidate_crc : List Ptr → CrcMaps → CrcMaps
unfolding invalidate_raw
invalidate_crc [] maps = maps
invalidate_crc (p ∷ ps) maps = invalidate_crc ps (invalidate_raw p.raw maps)

-- `ptr::copy_in(o, l, src, crc_reset)`
unfoldable pub copy_in : Bool → ℕ → List ℕ → Ptr → Store → CrcMaps → Store × CrcMaps
unfolding ptr_copy_in invalidate_raw
copy_in crc_reset o src p st maps =
    (ptr_copy_in o src p st, if crc_reset then invalidate_raw p.raw maps else maps)

module _ (sums : Checksum) where
  -- The checksum from `crc` on of a range with a kept one.
  abbrev pub adjust : ℕ → ℕ → Entry → ℕ
  adjust crc len e =
      if e.base == crc then e.crc else bit_xor e.crc (sums.crc32c_null len (bit_xor e.base crc))

  -- A round of `crc32`: the checksum, and the maps after it.
  unfoldable pub crc_piece : Store → Ptr → CrcMaps → ℕ → ℕ × CrcMaps
  unfolding get_crc set_crc
  crc_piece st p maps crc = elim (get_crc p.off (end_of p) (maps p.raw)) [
    | none ↦
        let new = sums.crc32c (view st p) crc in
        let e : Entry = record { from = p.off; to = end_of p; base = crc; crc = new } in
        (new, put p.raw (set_crc e (maps p.raw)) maps)
    | some e ↦ (adjust crc p.len e, maps)
  ]

  -- `crc32(crc)`
  unfoldable pub crc32 : Store → List Ptr → CrcMaps → ℕ → ℕ × CrcMaps
  unfolding crc_piece
  crc32 st [] maps crc = (crc, maps)
  crc32 st (p ∷ ps) maps crc =
      let (next, maps') = if p.len == 0 then (crc, maps) else crc_piece st p maps crc in
      crc32 st ps maps' next
