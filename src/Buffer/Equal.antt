-- ===== src/Buffer/Equal.antt =====
-- `contents_equal` compares the contents, however they are cut into pieces.
use my_git_hub.Common.{
  ℕ, zero, suc, ◌+◌, ◌-◌, ◌≤◌, ◌<◌, ◌≡◌, refl, sym, ap, ap₂, ◌∙◌, false, ◌&&◌, List, [], ◌∷◌, ◌++◌,
  arith, ◌==◌, length, take, drop, min, length-drop, take-append-drop, Bool-cases, inl, inr, ==_iff,
}
use my_git_hub.Common.Words.{u32_mod}
use my_git_hub.Buffer.Store.{Ptr, Store, view}
use my_git_hub.Buffer.Bytes.{
  contents, total, Fits, AllFit, length-view, length-contents, drop-drop, drop-append_right,
  slice-append_left, length-slice,
}
use my_git_hub.Buffer.Defs.{Buffer}
use my_git_hub.Buffer.Valid.{IsValid}
use my_git_hub.Buffer.Cursor.{finished}
use my_git_hub.Buffer.Grow.{Inside}
use my_git_hub.Buffer.CopyLoop.{slice-take}
use my_git_hub.Buffer.Slice.{same_bytes, move_on, equal_loop, contents_equal}
use my_git_hub.Buffer.Substr.{front}

other_lengths : (xs ys : List ℕ) → (length xs ≡ length ys → ⊥) → same_bytes xs ys ≡ false
other_lengths [] [] h = absurd (h refl)
other_lengths [] (y ∷ ys) h = refl
other_lengths (x ∷ xs) [] h = refl
other_lengths (x ∷ xs) (y ∷ ys) h = elim (Bool-cases (x == y)) [
  | inl e ↦ rw e (other_lengths xs ys (λ k. h (ap suc k)))
  | inr e ↦ rw e refl
]

module _ (st : Store) where
  same_bytes-append :
      (xs ys zs ws : List ℕ)
      → length xs ≡ length ys
      → same_bytes (xs ++ zs) (ys ++ ws) ≡ same_bytes xs ys && same_bytes zs ws
  same_bytes-append [] [] zs ws h = refl
  same_bytes-append [] (y ∷ ys) zs ws h = absurd (omega arith)
  same_bytes-append (x ∷ xs) [] zs ws h = absurd (omega arith)
  same_bytes-append (x ∷ xs) (y ∷ ys) zs ws h = elim (Bool-cases (x == y)) [
    | inl e ↦ rw e (same_bytes-append xs ys zs ws (omega arith))
    | inr e ↦ rw e refl
  ]

  behind :
      (n : ℕ) (p : Ptr) (ps : List Ptr)
      → Fits st p
      → n ≡ p.len
      → drop n (contents st (p ∷ ps)) ≡ contents st ps
  behind n p ps f e =
      let none_left : n - length (view st p) ≡ 0 = omega (arith, length-view f) in
      drop-append_right n (view st p) (contents st ps) (omega (arith, length-view f))
      ∙ ap (λ k. drop k (contents st ps)) none_left

  -- A place that moves on by `n` in its piece.
  moves_on :
      (off n : ℕ) (p : Ptr) (ps : List Ptr)
      → AllFit st (p ∷ ps)
      → off + n ≤ p.len
      → off < p.len
      → Inside (move_on off n p ps).0 (move_on off n p ps).1
        × AllFit st (move_on off n p ps).1
        × (drop (move_on off n p ps).0 (contents st (move_on off n p ps).1)
            ≡ drop (off + n) (contents st (p ∷ ps)))
        × ((move_on off n p ps).0 + total (p ∷ ps) ≡ off + n + total (move_on off n p ps).1)
  moves_on off n p ps f h i = elim (Bool-cases (off + n == p.len)) [
    | inl y ↦ rw y (
      front st ps f.1,
      f.1,
      sym (behind (off + n) p ps f.0 ((==_iff (off + n) p.len).0 y)),
      ground arith,
    )
    | inr y ↦ rw y (ground arith, f, refl, omega arith)
  ]

  -- A round leaves a piece behind.
  fewer :
      (rounds aoff boff n : ℕ) (a b : Ptr) (xs ys : List Ptr)
      → n ≡ min (a.len - aoff) (b.len - boff)
      → aoff < a.len
      → boff < b.len
      → length (a ∷ xs) + length (b ∷ ys) ≤ suc rounds
      → length (move_on aoff n a xs).1 + length (move_on boff n b ys).1 ≤ rounds
  fewer rounds aoff boff n a b xs ys e i j h = elim (Bool-cases (aoff + n == a.len)) [
    | inl y ↦ elim (Bool-cases (boff + n == b.len)) [
      | inl z ↦ rw (y, z) (omega arith)
      | inr z ↦ rw (y, z) (omega arith)
    ]
    | inr y ↦ elim (Bool-cases (boff + n == b.len)) [
      | inl z ↦ rw (y, z) (omega arith)
      | inr z ↦ rw (y, z) (ground arith)
    ]
  ]

  -- A slice of the first piece.
  slice-contents :
      (off n : ℕ) (p : Ptr) (ps : List Ptr)
      → Fits st p
      → off + n ≤ p.len
      → take n (drop (p.off + off) (st.bytes p.raw)) ≡ take n (drop off (contents st (p ∷ ps)))
  slice-contents off n p ps f h =
      ap (take n) (sym (drop-drop p.off off (st.bytes p.raw)))
      ∙ sym (
          slice-take off n p.len (drop p.off (st.bytes p.raw)) h
            (omega (arith, length-drop p.off (st.bytes p.raw), f.within)))
      ∙ sym (slice-append_left off n (view st p) (contents st ps) (omega (arith, length-view f)))

  -- What is behind the slice.
  cut :
      (off n : ℕ) (p : Ptr) (ps : List Ptr) (rest : List ℕ)
      → Fits st p
      → off + n ≤ p.len
      → rest ≡ drop (off + n) (contents st (p ∷ ps))
      → drop off (contents st (p ∷ ps)) ≡ take n (drop (p.off + off) (st.bytes p.raw)) ++ rest
  cut off n p ps rest f h e =
      let all : List ℕ = contents st (p ∷ ps) in
      sym (take-append-drop n (drop off all))
      ∙ ap₂ ◌++◌ (sym (slice-contents off n p ps f h)) (drop-drop off n all ∙ sym e)

  equal_loop-same_bytes :
      (rounds aoff boff : ℕ) (xs ys : List Ptr)
      → AllFit st xs
      → AllFit st ys
      → Inside aoff xs
      → Inside boff ys
      → total xs + boff ≡ total ys + aoff
      → length xs + length ys ≤ rounds
      → equal_loop rounds st aoff xs boff ys
        ≡ finished (same_bytes (drop aoff (contents st xs)) (drop boff (contents st ys)))
  unfolding equal_loop
  equal_loop-same_bytes rounds aoff boff [] [] f g i j t h = rw (i, j) refl
  equal_loop-same_bytes rounds aoff boff [] (b ∷ ys) f g i j t h = absurd (omega arith)
  equal_loop-same_bytes rounds aoff boff (a ∷ xs) [] f g i j t h = absurd (omega arith)
  equal_loop-same_bytes zero aoff boff (a ∷ xs) (b ∷ ys) f g i j t h = absurd (omega arith)
  equal_loop-same_bytes (suc rounds) aoff boff (a ∷ xs) (b ∷ ys) f g i j t h =
      let n : ℕ = min (a.len - aoff) (b.len - boff) in
      let next_a = move_on aoff n a xs in
      let next_b = move_on boff n b ys in
      let (i', f', c, s) = moves_on aoff n a xs f (omega arith) i in
      let (j', g', d, r) = moves_on boff n b ys g (omega arith) j in
      let x : List ℕ = take n (drop (a.off + aoff) (st.bytes a.raw)) in
      let y : List ℕ = take n (drop (b.off + boff) (st.bytes b.raw)) in
      let rest =
        equal_loop-same_bytes rounds next_a.0 next_b.0 next_a.1 next_b.1 f' g' i' j'
          (omega (arith, s, r)) (fewer rounds aoff boff n a b xs ys refl i j h) in
      let left : List ℕ = drop next_a.0 (contents st next_a.1) in
      let right : List ℕ = drop next_b.0 (contents st next_b.1) in
      let whole : same_bytes (drop aoff (contents st (a ∷ xs))) (drop boff (contents st (b ∷ ys)))
          ≡ same_bytes x y && same_bytes left right =
        ap₂ same_bytes (cut aoff n a xs left f.0 (omega arith) c)
          (cut boff n b ys right g.0 (omega arith) d)
        ∙ same_bytes-append x y left right (
            length-slice (a.off + aoff) n (st.bytes a.raw) (omega (arith, f.0.within))
            ∙ sym (length-slice (b.off + boff) n (st.bytes b.raw) (omega (arith, g.0.within)))) in
      elim (Bool-cases (same_bytes x y)) [
        | inl z ↦ rw z (rest ∙ ap finished (sym (whole ∙ ap (λ q. q && same_bytes left right) z)))
        | inr z ↦ rw z (ap finished (sym (whole ∙ ap (λ q. q && same_bytes left right) z)))
      ]

-- `contents_equal` of valid buffers whose lengths fit in 32 bits compares their contents, however
-- these are cut into pieces, in as many rounds as both have pieces.
pub contents_equal-same_bytes :
    (rounds : ℕ) (st : Store) (b other : Buffer)
    → IsValid st b
    → IsValid st other
    → total b.buffers < u32_mod
    → total other.buffers < u32_mod
    → length b.buffers + length other.buffers ≤ rounds
    → contents_equal rounds st b other
      ≡ finished (same_bytes (contents st b.buffers) (contents st other.buffers))
unfolding contents_equal
contents_equal-same_bytes rounds st b other v w h k enough =
    let all : b.len ≡ total b.buffers = omega (arith, v.counted) in
    let every : other.len ≡ total other.buffers = omega (arith, w.counted) in
    elim (Bool-cases (b.len == other.len)) [
      | inl y ↦
          let same : b.len ≡ other.len = (==_iff b.len other.len).0 y in
          rw y (
            equal_loop-same_bytes st rounds 0 0 b.buffers other.buffers v.fit w.fit
              (front st b.buffers v.fit) (front st other.buffers w.fit) (omega arith) enough)
      | inr y ↦ rw y (
          ap finished (
            sym (
              other_lengths (contents st b.buffers) (contents st other.buffers) (λ e. ground (
                arith,
                all,
                every,
                e,
                length-contents st b.buffers v.fit,
                length-contents st other.buffers w.fit,
              )))))
    ]
