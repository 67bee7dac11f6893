-- ===== src/Buffer/CopyLoop.antt =====
-- The loop of `copy`: what it copies and where the iterator comes to.
use my_git_hub.Common.{
  ℕ, zero, suc, ◌+◌, ◌-◌, ◌≤◌, ◌<◌, ◌≡◌, refl, sym, ap, ap₂, ◌∙◌, subst, false, Option, none, some,
  List, [], ◌∷◌, ◌++◌, arith, ltb, is_empty, length, take, drop, min, Bool-cases, inl, inr,
  take-append-drop, length-take, length-drop,
}
use my_git_hub.Common.Words.{u32_mod}
use my_git_hub.Buffer.Store.{Ptr, Store, view, copy_out}
use my_git_hub.Buffer.Bytes.{
  contents, total, AllFit, drop-drop, take-add, slice-append_left, length-slice, length-view,
}
use my_git_hub.Buffer.Defs.{Cursor}
use my_git_hub.Buffer.Cursor.{
  Run, finished, threw, stuck, and_then, at_node, advance, seek_again, copy_piece, copy_loop,
  iterator_copy,
}
use my_git_hub.Buffer.Grow.{Inside}
use my_git_hub.Buffer.Place.{Stands, IsOkAt, IsOk}
use my_git_hub.Buffer.Walk.{
  Moved, advance-Moved, seek-Moved, drop-contents, AllFit-behind, Stands-remaining,
}

-- A slice of the first `m` bytes is one of them all.
pub slice-take {ℓ} :
    {A : Type ℓ} (a n m : ℕ) (xs : List A)
    → a + n ≤ m
    → m ≤ length xs
    → take n (drop a (take m xs)) ≡ take n (drop a xs)
slice-take a n m xs h w =
    sym (slice-append_left a n (take m xs) (drop m xs) (omega (arith, length-take m xs)))
    ∙ ap (λ z. take n (drop a z)) (take-append-drop m xs)

-- What a copy of `len` bytes from the offset `off` comes to.
abbrev pub Copied : Store → List Ptr → ℕ → ℕ → Run (List ℕ × Cursor) → Type 0
Copied st ps off len threw = total ps < off + len
Copied st ps off len stuck = ⊥
Copied st ps off len (finished (xs, c)) =
    (off + len ≤ total ps)
    × (xs ≡ take len (drop off (contents st ps)))
    × Stands ps c
    × (c.off ≡ off + len)

-- What one round copies.
abbrev Taken : Store → ℕ → ℕ → List Ptr → Run (List ℕ) → Type 0
Taken st len p_off qs threw = qs ≡ []
Taken st len p_off qs stuck = ⊥
Taken st len p_off qs (finished xs) =
    (0 < length xs)
    × (length xs ≤ len)
    × (p_off + length xs ≤ total qs)
    × (xs ≡ take (length xs) (drop p_off (contents st qs)))

module _ (st : Store) (ps : List Ptr) (fit : AllFit st ps) (small : total ps < u32_mod) where
  copy_out-inside :
      (o l : ℕ) (p : Ptr)
      → o + l ≤ p.len
      → copy_out o l p st ≡ some (take l (drop (p.off + o) (st.bytes p.raw)))
  unfolding copy_out
  copy_out-inside o l p h = let inside : ltb p.len (o + l) ≡ false = ground arith in rw inside refl

  copy_piece-Taken :
      (len : ℕ) (c : Cursor) (qs : List Ptr)
      → 0 < len
      → AllFit st qs
      → Inside c.p_off qs
      → Taken st len c.p_off qs (copy_piece len st qs c)
  unfolding copy_piece
  copy_piece-Taken len c [] some_len f i = refl
  copy_piece-Taken len c (q ∷ qs) some_len f i =
      let n : ℕ = min (q.len - c.p_off) len in
      let size : length (take n (drop (q.off + c.p_off) (st.bytes q.raw))) ≡ n =
        length-slice (q.off + c.p_off) n (st.bytes q.raw) (omega (arith, f.0.within)) in
      subst (λ z. Taken st len c.p_off (q ∷ qs) (elim z [ none ↦ threw | some xs ↦ finished xs ]))
        (sym (copy_out-inside c.p_off n q (omega arith)))
        (rw size (
          omega arith,
          omega arith,
          omega arith,
          sym (
              slice-append_left c.p_off n (view st q) (contents st qs)
                (omega (arith, length-view f.0))
              ∙ slice-take c.p_off n q.len (drop q.off (st.bytes q.raw)) (omega arith)
                  (omega (arith, length-drop q.off (st.bytes q.raw), f.0.within))
              ∙ ap (take n) (drop-drop q.off c.p_off (st.bytes q.raw))),
        ))

  module _ (c : Cursor) (len : ℕ) where
    and_rest :
        (xs : List ℕ) (c' : Cursor) (r : Run (List ℕ × Cursor))
        → xs ≡ take (length xs) (drop c.off (contents st ps))
        → length xs ≤ len
        → c'.off ≡ c.off + length xs
        → Copied st ps c'.off (len - length xs) r
        → Copied st ps c.off len (and_then r λ (ys, c''). finished (xs ++ ys, c''))
    and_rest xs c' threw e n o h = omega arith
    and_rest xs c' stuck e n o h = h
    and_rest xs c' (finished (ys, d)) e n o h =
        let all : List ℕ = drop c.off (contents st ps) in
        let sum : length xs + (len - length xs) ≡ len = omega arith in
        (
          omega arith,
          ap₂ ◌++◌ e (
                h.1
                ∙ ap (λ k. take (len - length xs) (drop k (contents st ps))) o
                ∙ ap (take (len - length xs)) (sym (drop-drop c.off (length xs) (contents st ps))))
              ∙ sym (take-add (length xs) (len - length xs) all)
              ∙ ap (λ k. take k all) sum,
          h.2,
          omega (arith, h.3),
        )

    and_advance :
        (xs : List ℕ) (f : Cursor → Run (List ℕ × Cursor)) (r : Run Cursor)
        → xs ≡ take (length xs) (drop c.off (contents st ps))
        → length xs ≤ len
        → ((c' : Cursor) → Stands ps c' → Copied st ps c'.off (len - length xs) (f c'))
        → Moved ps (c.off + length xs) r
        → Copied st ps c.off len
            (and_then r λ c'. and_then (f c') λ (ys, c''). finished (xs ++ ys, c''))
    and_advance xs f threw e n k m = omega arith
    and_advance xs f stuck e n k m = m
    and_advance xs f (finished c') e n k m = and_rest xs c' (f c') e n m.1 (k c' m.0)

  copy_loop-Copied :
      (rounds len : ℕ) (c : Cursor)
      → len ≤ rounds
      → Stands ps c
      → Copied st ps c.off len (copy_loop rounds len st ps c)
  unfolding copy_loop
  copy_loop-Copied rounds zero c h s =
      (omega (arith, (Stands-remaining ps c s).0), refl, s, omega arith)
  copy_loop-Copied zero (suc len) c h s = absurd (omega arith)
  copy_loop-Copied (suc rounds) (suc len) c h s =
      round (λ k h' c' s'. copy_loop-Copied rounds k c' h' s')
        (copy_piece (suc len) st (at_node c.node ps) c)
        (copy_piece-Taken (suc len) c (at_node c.node ps) (omega arith)
          (AllFit-behind st ps s.pre (at_node c.node ps) s.joined fit) s.inside)
    where
      round :
          ((k : ℕ)
            → k ≤ rounds
            → (c' : Cursor) → Stands ps c'
            → Copied st ps c'.off k (copy_loop rounds k st ps c'))
          → (r : Run (List ℕ)) → Taken st (suc len) c.p_off (at_node c.node ps) r
          → Copied st ps c.off (suc len) (
              and_then r λ xs. and_then (advance (length xs) ps c) λ c'.
                and_then
                  (copy_loop rounds (suc len - length xs) st ps c')
                  λ (ys, c''). finished (xs ++ ys, c''))
      round again threw t = omega (arith, Stands-remaining ps c s, ap total t)
      round again stuck t = t
      round again (finished xs) (some_bytes, fits, within, e) =
          and_advance c (suc len) xs (copy_loop rounds (suc len - length xs) st ps)
            (advance (length xs) ps c)
            (e ∙ ap (take (length xs)) (sym (drop-contents st ps fit c s))) fits
            (again (suc len - length xs) (omega arith))
            (advance-Moved st ps fit (length xs) c (omega (arith, Stands-remaining ps c s)) s)

  pub Stands-IsOkAt : (o : Option ℕ) (c : Cursor) → Stands ps c → IsOkAt ps o c
  Stands-IsOkAt none c s = omega (arith, (Stands-remaining ps c s).0)
  Stands-IsOkAt (some k) c s = s

  IsOkAt-Stands :
      (o : Option ℕ) (c : Cursor) → IsOkAt ps o c → is_empty (at_node o ps) ≡ false → Stands ps c
  IsOkAt-Stands none c ok e = absurd (ground arith)
  IsOkAt-Stands (some k) c ok e = ok

  IsOkAt-off : (o : Option ℕ) (c : Cursor) → IsOkAt ps o c → c.off < u32_mod
  IsOkAt-off none c ok = ok
  IsOkAt-off (some k) c ok = omega (arith, (Stands-remaining ps c ok).0)

  -- A move to `off` before a copy.
  after_move :
      (off len : ℕ) (r : Run Cursor) (f : Cursor → Run (List ℕ × Cursor))
      → Moved ps off r
      → ((c : Cursor) → Stands ps c → Copied st ps c.off len (f c))
      → Copied st ps off len (and_then r f)
  after_move off len threw f m k = omega arith
  after_move off len stuck f m k = m
  after_move off len (finished c) f (s, o) k = subst (λ z. Copied st ps z len (f c)) o (k c s)

  seek_again-Moved : (c : Cursor) → IsOk ps c → Moved ps c.off (seek_again ps c)
  unfolding seek_again
  seek_again-Moved c ok = elim (Bool-cases (is_empty (at_node c.node ps))) [
    | inl y ↦ rw y (seek-Moved st ps fit c.off (IsOkAt-off c.node c ok))
    | inr y ↦ rw y (IsOkAt-Stands c.node c ok y, refl)
  ]

  pub iterator_copy-Copied :
      (rounds len : ℕ) (c : Cursor)
      → len ≤ rounds
      → IsOk ps c
      → Copied st ps c.off len (iterator_copy rounds len st ps c)
  unfolding iterator_copy
  iterator_copy-Copied rounds len c h ok =
      after_move c.off len (seek_again ps c) (copy_loop rounds len st ps) (seek_again-Moved c ok)
        (λ c' s. copy_loop-Copied rounds len c' h s)
