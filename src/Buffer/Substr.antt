-- ===== src/Buffer/Substr.antt =====
-- `substr_of` is a slice of the contents.
use my_git_hub.Common.{
  ℕ, zero, suc, ◌+◌, ◌-◌, ◌%◌, ◌≤◌, ◌<◌, ◌≡◌, refl, sym, ap, ap₂, ◌∙◌, subst, none, List, [], ◌∷◌,
  ◌++◌, arith, ltb, leb, length, take, drop, length-drop, append-nil, Bool-cases, inl, inr,
}
use my_git_hub.Common.Words.{add32, u32_mod}
use my_git_hub.Buffer.Store.{Ptr, Store, view, sub_ptr}
use my_git_hub.Buffer.Bytes.{
  contents, total, Fits, AllFit, length-view, slice-append_left, drop-append_left,
  drop-append_right, take-append_right, drop-drop, take_all,
}
use my_git_hub.Buffer.Defs.{Buffer, clear}
use my_git_hub.Buffer.Valid.{AllBefore, IsValid}
use my_git_hub.Buffer.Cursor.{Run, finished, threw, stuck, and_then}
use my_git_hub.Buffer.Grow.{Inside}
use my_git_hub.Buffer.CopyLoop.{slice-take}
use my_git_hub.Buffer.Slice.{skip, take_pieces, add_lens, substr_of}

module _ (st : Store) (other : Buffer) where
  -- The right outcome of `substr_of`.
  abbrev pub IsSubstr : ℕ → ℕ → Run Buffer → Type 0
  IsSubstr off len r =
      (off + len ≤ total other.buffers
        → (b : Buffer) × (r ≡ finished b)
          × IsValid st b
          × (contents st b.buffers ≡ take len (drop off (contents st other.buffers))))
      × (total other.buffers < off + len → r ≡ threw)

module _ (st : Store) where
  -- A part of a piece is that part of its bytes.
  pub view-sub_ptr :
      (p : Ptr) (o l : ℕ)
      → Fits st p
      → o + l ≤ p.len
      → view st (sub_ptr p o l) ≡ take l (drop o (view st p))
  view-sub_ptr p o l f h =
      ap (take l) (sym (drop-drop p.off o (st.bytes p.raw)))
      ∙ sym (
          slice-take o l p.len (drop p.off (st.bytes p.raw)) h
            (omega (arith, length-drop p.off (st.bytes p.raw), f.within)))

  pub sub_ptr-Fits :
      (p : Ptr) (o l : ℕ) → Fits st p → 0 < l → o + l ≤ p.len → Fits st (sub_ptr p o l)
  sub_ptr-Fits p o l f s h = record {
    made = f.made;
    some_bytes = s;
    within = omega (arith, f.within);
  }

  -- The pieces behind the offset `off` and where it is in them.
  abbrev pub Skipped : ℕ → List Ptr → ℕ × List Ptr → Type 0
  Skipped off ps (o, qs) =
      Inside o qs
      × AllFit st qs
      × (o + total ps ≡ off + total qs)
      × (drop o (contents st qs) ≡ drop off (contents st ps))

  pub skip-Skipped :
      (off : ℕ) (ps : List Ptr) → AllFit st ps → off ≤ total ps → Skipped off ps (skip off ps)
  unfolding skip
  skip-Skipped zero [] f h = (refl, tt, refl, refl)
  skip-Skipped zero (p ∷ ps) f h = (f.0.some_bytes, f, refl, refl)
  skip-Skipped (suc off) [] f h = absurd (omega arith)
  skip-Skipped (suc off) (p ∷ ps) f h = elim (Bool-cases (leb p.len (suc off))) [
    | inl y ↦
        let rest : ℕ = suc off - p.len in
        let (i, fit, t, c) = skip-Skipped rest ps f.1 (ground arith) in
        rw y (
          i,
          fit,
          ground (arith, t),
          c
              ∙ ap (λ n. drop n (contents st ps)) (omega (arith, length-view f.0))
              ∙ sym (
                  drop-append_right (suc off) (view st p) (contents st ps)
                    (ground (arith, length-view f.0))),
        )
    | inr y ↦ rw y (ground arith, f, refl, refl)
  ]

  pub front : (ps : List Ptr) → AllFit st ps → Inside 0 ps
  front [] f = refl
  front (p ∷ ps) f = f.0.some_bytes

  -- Pieces that have the bytes `xs`.
  abbrev HasBytes : List ℕ → Run (List Ptr) → Type 0
  HasBytes xs (finished qs) = AllFit st qs × (contents st qs ≡ xs)
  HasBytes xs threw = ⊥
  HasBytes xs stuck = ⊥

  first_piece :
      (off len : ℕ) (p : Ptr) (ps : List Ptr) (r : Run (List Ptr))
      → Fits st p
      → off < p.len
      → p.len ≤ off + len
      → HasBytes (take (len - (p.len - off)) (contents st ps)) r
      → HasBytes
          (take len (drop off (view st p ++ contents st ps)))
          (and_then r λ qs. finished (sub_ptr p off (p.len - off) ∷ qs))
  first_piece off len p ps threw f i h g = g
  first_piece off len p ps stuck f i h g = g
  first_piece off len p ps (finished qs) f i h (fit, e) =
      let n : ℕ = p.len - off in
      let left : length (drop off (view st p)) ≡ n =
        omega (arith, length-drop off (view st p), length-view f) in
      (
        (sub_ptr-Fits p off n f (omega arith) (omega arith), fit),
        ap₂ ◌++◌
              (view-sub_ptr p off n f (omega arith)
                ∙ take_all n (drop off (view st p)) (omega (arith, left)))
              (e ∙ ap (λ k. take k (contents st ps)) (omega (arith, left)))
            ∙ sym (
                take-append_right len (drop off (view st p)) (contents st ps) (omega (arith, left)))
            ∙ ap (take len) (
                sym (
                  drop-append_left off (view st p) (contents st ps)
                    (omega (arith, length-view f)))),
      )

  take_pieces-HasBytes :
      (off len : ℕ) (ps : List Ptr)
      → AllFit st ps
      → Inside off ps
      → off + len ≤ total ps
      → HasBytes (take len (drop off (contents st ps))) (take_pieces off len ps)
  unfolding take_pieces
  take_pieces-HasBytes off zero ps f i h = (tt, refl)
  take_pieces-HasBytes off (suc len) [] f i h = absurd (omega arith)
  take_pieces-HasBytes off (suc len) (p ∷ ps) f i h =
      elim (Bool-cases (ltb (off + suc len) p.len)) [
        | inl y ↦ rw y (
          (sub_ptr-Fits p off (suc len) f.0 (omega arith) (ground arith), tt),
          append-nil (view st (sub_ptr p off (suc len)))
              ∙ view-sub_ptr p off (suc len) f.0 (ground arith)
              ∙ sym (
                  slice-append_left off (suc len) (view st p) (contents st ps)
                    (ground (arith, length-view f.0))),
        )
        | inr y ↦
            let rest : ℕ = suc len - (p.len - off) in
            rw y (
              first_piece off (suc len) p ps (take_pieces 0 rest ps) f.0 i (ground arith)
                (take_pieces-HasBytes 0 rest ps f.1 (front ps f.1) (ground arith)))
      ]

  add_lens-total : (n : ℕ) (ps : List Ptr) → n < u32_mod → add_lens n ps ≡ (n + total ps) % u32_mod
  add_lens-total n [] h = omega arith
  add_lens-total n (p ∷ ps) h = add_lens-total (add32 n p.len) ps (omega arith) ∙ omega arith

  pub AllBefore-none : (ps : List Ptr) → AllBefore none ps
  AllBefore-none [] = tt
  AllBefore-none (p ∷ ps) = (tt, AllBefore-none ps)

  module _ (other : Buffer) (valid : IsValid st other) (small : total other.buffers < u32_mod) where
    -- `substr_of(other, off, len)` of a valid buffer, whose length and `off + len` fit in 32 bits: if the
    -- bytes are there, the result is a valid buffer of them; else there is the exception.
    pub substr_of-IsSubstr :
        (off len : ℕ) (b : Buffer)
        → off + len < u32_mod
        → IsSubstr st other off len (substr_of other off len b)
    unfolding substr_of clear
    substr_of-IsSubstr off len b h =
        let all : other.len ≡ total other.buffers = omega (arith, valid.counted) in
        let sum : add32 off len ≡ off + len = omega arith in
        elim (Bool-cases (ltb other.len (add32 off len))) [
          | inl y ↦
              let over : total other.buffers < off + len = ground (arith, all, sum) in
              rw y ((λ k. absurd (omega arith)), (λ k. refl))
          | inr y ↦
              let inside : off + len ≤ total other.buffers = ground (arith, all, sum) in
              let (i, fit, t, c) = skip-Skipped off other.buffers valid.fit (omega arith) in
              let (off', ps) = skip off other.buffers in
              rw y (
                whole (take_pieces off' len ps) inside (
                  subst (λ z. HasBytes (take len z) (take_pieces off' len ps)) c
                    (take_pieces-HasBytes off' len ps fit i (omega (arith, t)))))
        ]
      where
        whole :
            (r : Run (List Ptr))
            → off + len ≤ total other.buffers
            → HasBytes (take len (drop off (contents st other.buffers))) r
            → IsSubstr st other off len
                (and_then r λ qs. finished (record (clear b) { buffers = qs; len = add_lens 0 qs }))
        whole threw k g = absurd g
        whole stuck k g = absurd g
        whole (finished qs) k (fit, e) = (
          (λ _. (
            record (clear b) { buffers = qs; len = add_lens 0 qs },
            refl,
            record {
              fit = fit;
              counted = add_lens-total 0 qs (omega arith) ∙ omega arith;
              owned = tt;
              before = AllBefore-none qs;
              cursor = omega arith;
            },
            e,
          )),
          (λ j. absurd (omega arith)),
        )
