-- ===== src/Buffer/Crc32.antt =====
-- `buffer::crc32` is the checksum of the contents, whatever is kept, and what is kept stays right.
use my_git_hub.Common.{
  ℕ, zero, suc, ◌-◌, ◌^◌, ◌<◌, ◌≡◌, refl, sym, ap, ap₂, ◌∙◌, subst, false, ◌&&◌, Option, none, some,
  List, [], ◌∷◌, ◌++◌, arith, ◌==◌, take, drop, AllBelow, Bool-cases, inl, inr, ==_iff,
}
use Prim.Native.Nat.{bit_xor}
use my_git_hub.Buffer.Store.{Ptr, end_of, Store, view}
use my_git_hub.Buffer.Bytes.{contents, Fits, AllFit, length-view}
use my_git_hub.Buffer.Defs.{Buffer}
use my_git_hub.Buffer.Valid.{Before, AllBefore, IsValid}
use my_git_hub.Buffer.CrcCache.{
  Checksum, Entry, CrcMaps, get_crc, set_crc, put, adjust, crc_piece, crc32,
}

-- The part of the raw `r` that an entry is about.
abbrev pub part : ℕ → Entry → Ptr
part r e = record { raw = r; off = e.from; len = e.to - e.from }

pub record EntryOk (sums : Checksum) (st : Store) (a : Option Ptr) (r : ℕ) (e : Entry)
    : Type 0 where
  pub fit : Fits st (part r e)
  pub before : Before a (part r e)
  pub base_below : e.base < 2 ^ 32
  pub right : e.crc ≡ sums.crc32c (view st (part r e)) e.base

abbrev pub AllOk : Checksum → Store → Option Ptr → ℕ → List Entry → Type 0
AllOk sums st a r [] = Unit {0}
AllOk sums st a r (e ∷ es) = EntryOk sums st a r e × AllOk sums st a r es

-- Every kept checksum is right, and about bytes that `append` does not write to.
abbrev pub MapsOk : Checksum → Store → Option Ptr → CrcMaps → Type 0
MapsOk sums st a maps = (r : ℕ) → AllOk sums st a r (maps r)

AllBelow-slice : (o n : ℕ) (xs : List ℕ) → AllBelow 256 xs → AllBelow 256 (take n (drop o xs))
AllBelow-slice zero zero xs h = tt
AllBelow-slice zero (suc n) [] h = tt
AllBelow-slice zero (suc n) (x ∷ xs) h = (h.0, AllBelow-slice zero n xs h.1)
AllBelow-slice (suc o) zero xs h = tt
AllBelow-slice (suc o) (suc n) [] h = tt
AllBelow-slice (suc o) (suc n) (x ∷ xs) h = AllBelow-slice o (suc n) xs h.1

pub AllBelow-append : (xs ys : List ℕ) → AllBelow 256 xs → AllBelow 256 ys → AllBelow 256 (xs ++ ys)
AllBelow-append [] ys h k = k
AllBelow-append (x ∷ xs) ys h k = (h.0, AllBelow-append xs ys h.1 k)

module _ (sums : Checksum) (st : Store) (a : Option Ptr)
    (bytes : (r : ℕ) → AllBelow 256 (st.bytes r)) where
  abbrev Found : ℕ → ℕ → ℕ → Option Entry → Type 0
  Found from to r none = Unit {0}
  Found from to r (some e) = (e.from ≡ from) × (e.to ≡ to) × EntryOk sums st a r e

  get_crc-Found :
      (from to r : ℕ) (es : List Entry)
      → AllOk sums st a r es
      → Found from to r (get_crc from to es)
  unfolding get_crc
  get_crc-Found from to r [] ok = tt
  get_crc-Found from to r (e ∷ es) ok = elim (Bool-cases (e.from == from && e.to == to)) [
    | inl y ↦ let both : (e.from ≡ from) × (e.to ≡ to) = ground arith in rw y (both.0, both.1, ok.0)
    | inr y ↦ rw y (get_crc-Found from to r es ok.1)
  ]

  set_crc-Ok :
      (r : ℕ) (e : Entry) (es : List Entry)
      → EntryOk sums st a r e
      → AllOk sums st a r es
      → AllOk sums st a r (set_crc e es)
  unfolding set_crc
  set_crc-Ok r e [] ok oks = (ok, tt)
  set_crc-Ok r e (x ∷ es) ok oks = elim (Bool-cases (x.from == e.from && x.to == e.to)) [
    | inl y ↦ rw y (ok, oks.1)
    | inr y ↦ rw y (oks.0, set_crc-Ok r e es ok oks.1)
  ]

  put-Ok :
      (r : ℕ) (es : List Entry) (maps : CrcMaps)
      → AllOk sums st a r es
      → MapsOk sums st a maps
      → MapsOk sums st a (put r es maps)
  put-Ok r es maps ok oks q = elim (Bool-cases (q == r)) [
    | inl y ↦ rw y (subst (λ k. AllOk sums st a k es) (sym ((==_iff q r).0 y)) ok)
    | inr y ↦ rw y (oks q)
  ]

  bytes-view : (p : Ptr) → AllBelow 256 (view st p)
  bytes-view p = AllBelow-slice p.off p.len (st.bytes p.raw) (bytes p.raw)

  pub bytes-contents : (ps : List Ptr) → AllBelow 256 (contents st ps)
  bytes-contents [] = tt
  bytes-contents (p ∷ ps) =
      AllBelow-append (view st p) (contents st ps) (bytes-view p) (bytes-contents ps)

  -- The checksum of `xs` from `crc` on, and maps that are right.
  abbrev IsChecksum : List ℕ → ℕ → ℕ × CrcMaps → Type 0
  IsChecksum xs crc (value, maps) = (value ≡ sums.crc32c xs crc) × MapsOk sums st a maps

  module _ (p : Ptr) (fit : Fits st p) (before : Before a p) where
    same_part : (e : Entry) → e.from ≡ p.off → e.to ≡ end_of p → part p.raw e ≡ p
    same_part e f t =
        let n : e.to - e.from ≡ p.len = omega arith in
        ap₂ (λ o l. record { raw = p.raw; off = o; len = l }) f n

    adjust-crc32c :
        (crc : ℕ) (e : Entry)
        → crc < 2 ^ 32
        → e.base < 2 ^ 32
        → e.crc ≡ sums.crc32c (view st p) e.base
        → adjust sums crc p.len e ≡ sums.crc32c (view st p) crc
    adjust-crc32c crc e small base right = elim (Bool-cases (e.base == crc)) [
      | inl y ↦ rw y (right ∙ ap (sums.crc32c (view st p)) ((==_iff e.base crc).0 y))
      | inr y ↦ rw y (
          ap₂ (λ v n. bit_xor v (sums.crc32c_null n (bit_xor e.base crc))) right
            (sym (length-view fit))
          ∙ sym (sums.other_base (view st p) e.base crc (bytes-view p) base small))
    ]

    crc_piece-IsChecksum :
        (maps : CrcMaps) (crc : ℕ)
        → crc < 2 ^ 32
        → MapsOk sums st a maps
        → IsChecksum (view st p) crc (crc_piece sums st p maps crc)
    unfolding crc_piece
    crc_piece-IsChecksum maps crc small ok =
        piece (get_crc p.off (end_of p) (maps p.raw))
          (get_crc-Found p.off (end_of p) p.raw (maps p.raw) (ok p.raw))
      where
        piece :
            (o : Option Entry)
            → Found p.off (end_of p) p.raw o
            → IsChecksum (view st p) crc (elim o [
              | none ↦
                  let new = sums.crc32c (view st p) crc in
                  let e : Entry = record { from = p.off; to = end_of p; base = crc; crc = new } in
                  (new, put p.raw (set_crc e (maps p.raw)) maps)
              | some e ↦ (adjust sums crc p.len e, maps)
            ])
        piece none h =
            let new = sums.crc32c (view st p) crc in
            let e : Entry = record { from = p.off; to = end_of p; base = crc; crc = new } in
            let same : p ≡ part p.raw e = sym (same_part e refl refl) in
            (
              refl,
              put-Ok p.raw (set_crc e (maps p.raw)) maps
                  (set_crc-Ok p.raw e (maps p.raw)
                    (record {
                      fit = subst (Fits st) same fit;
                      before = subst (Before a) same before;
                      base_below = small;
                      right = ap (λ q. sums.crc32c (view st q) crc) same;
                    })
                    (ok p.raw))
                  ok,
            )
        piece (some e) (f, t, h) = (
          adjust-crc32c crc e small h.base_below
              (h.right ∙ ap (λ q. sums.crc32c (view st q) e.base) (same_part e f t)),
          ok,
        )

  crc32-IsChecksum :
      (ps : List Ptr) (maps : CrcMaps) (crc : ℕ)
      → AllFit st ps
      → AllBefore a ps
      → crc < 2 ^ 32
      → MapsOk sums st a maps
      → IsChecksum (contents st ps) crc (crc32 sums st ps maps crc)
  unfolding crc32
  crc32-IsChecksum [] maps crc fit before small ok = (sym (sums.nothing crc small), ok)
  crc32-IsChecksum (p ∷ ps) maps crc fit before small ok =
      let some_len : (p.len == 0) ≡ false = ground (arith, fit.0.some_bytes) in
      let (value, oks) = crc_piece-IsChecksum p fit.0 before.0 maps crc small ok in
      let next = crc_piece sums st p maps crc in
      let (value', oks') =
        crc32-IsChecksum ps next.1 next.0 fit.1 before.1
          (subst (λ k. k < 2 ^ 32) (sym value) (sums.below (view st p) crc (bytes-view p) small))
          oks in
      rw (some_len, crc32)
        (
          value'
              ∙ ap (sums.crc32c (contents st ps)) value
              ∙ sym (
                  sums.in_two (view st p) (contents st ps) crc (bytes-view p) (bytes-contents ps)
                    small),
          oks',
        )

-- `crc32` of a valid buffer, whose bytes are bytes, from a 32-bit `crc` on: whatever checksums of its raws
-- are kept, if they are right, it is the checksum of the contents, and those that are kept after it
-- are right too.
pub crc32-contents :
    (sums : Checksum) (st : Store) (b : Buffer) (maps : CrcMaps) (crc : ℕ)
    → IsValid st b
    → ((r : ℕ) → AllBelow 256 (st.bytes r))
    → crc < 2 ^ 32
    → MapsOk sums st b.append_buffer maps
    → ((crc32 sums st b.buffers maps crc).0 ≡ sums.crc32c (contents st b.buffers) crc)
      × MapsOk sums st b.append_buffer (crc32 sums st b.buffers maps crc).1
crc32-contents sums st b maps crc valid bytes small ok =
    crc32-IsChecksum sums st b.append_buffer bytes b.buffers maps crc valid.fit valid.before small
      ok
