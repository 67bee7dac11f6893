-- ===== src/Buffer/Spliced.antt =====
-- `splice` takes a range out of the contents.
use my_git_hub.Common.{
  ℕ, zero, suc, ◌+◌, ◌≤◌, ◌<◌, ◌≡◌, refl, sym, ap, ap₂, ◌∙◌, subst, Option, none, some, List, [],
  ◌∷◌, ◌++◌, arith, leb, length, take, drop, length-drop, append_assoc, append-nil, Bool-cases, inl,
  inr,
}
use my_git_hub.Common.Words.{u32_mod}
use my_git_hub.Buffer.Store.{Ptr, Store, view, sub_ptr}
use my_git_hub.Buffer.Bytes.{
  contents, total, AllFit, length-view, length-contents, contents-append, slice-append_left,
}
use my_git_hub.Buffer.Defs.{Buffer, begin}
use my_git_hub.Buffer.Bytes.{total-append}
use my_git_hub.Buffer.Valid.{AllBefore, AllFit-append, AllBefore-append, Sized, IsValid}
use my_git_hub.Buffer.Cursor.{Run, finished, threw, stuck, and_then}
use my_git_hub.Buffer.Grow.{Inside}
use my_git_hub.Buffer.Slice.{skip}
use my_git_hub.Buffer.Substr.{view-sub_ptr, sub_ptr-Fits, skip-Skipped}
use my_git_hub.Buffer.Walk.{begin-IsOk}
use my_git_hub.Buffer.Splice.{skipped, remove, insert_front, splice}
use my_git_hub.Buffer.Cut.{Claimed, MayClaim, Before-sub_ptr, Removed, remove-Removed}
use my_git_hub.Buffer.Ends.{
  skipped-append, AllBefore-parts, AllFit-parts, take-contents, drop-contents,
}

module _ (st : Store) (b : Buffer) (c : Option Buffer) where
  -- The right outcome of `splice`.
  abbrev pub IsSplice : ℕ → ℕ → Run (Buffer × Option Buffer) → Type 0
  IsSplice off len r =
      (off + len ≤ total b.buffers
        → (b' : Buffer) × (c' : Option Buffer) × (r ≡ finished (b', c'))
          × IsValid st b'
          × (contents st b'.buffers
              ≡ take off (contents st b.buffers) ++ drop (off + len) (contents st b.buffers))
          × Claimed st (take len (drop off (contents st b.buffers))) c c')
      × (total b.buffers ≤ off → r ≡ threw)

module _ (st : Store) (sized : Sized st) where
  -- The front of the piece that the range begins in.
  insert_front-take :
      (a : Option Ptr) (o : ℕ) (ps : List Ptr) (n : ℕ)
      → AllFit st ps
      → AllBefore a ps
      → Inside o ps
      → n + o < u32_mod
      → AllFit st (insert_front o ps n).0
        × AllBefore a (insert_front o ps n).0
        × (contents st (insert_front o ps n).0 ≡ take o (contents st ps))
        × (total (insert_front o ps n).0 ≡ o)
        × ((insert_front o ps n).1 ≡ n + o)
  insert_front-take a zero ps n f b i s = (tt, tt, refl, refl, omega arith)
  insert_front-take a (suc o) [] n f b i s = absurd (omega arith)
  insert_front-take a (suc o) (p ∷ ps) n f b i s = (
    (sub_ptr-Fits st p 0 (suc o) f.0 (omega arith) (omega arith), tt),
    (Before-sub_ptr st sized a p 0 (suc o) (omega arith) b.0, tt),
    append-nil (view st (sub_ptr p 0 (suc o)))
        ∙ view-sub_ptr st p 0 (suc o) f.0 (omega arith)
        ∙ sym (
            slice-append_left 0 (suc o) (view st p) (contents st ps)
              (omega (arith, length-view f.0))),
    omega arith,
    omega arith,
  )

  MayClaim-behind :
      (pre qs : List Ptr) (c : Option Buffer) → MayClaim st (pre ++ qs) c → MayClaim st qs c
  MayClaim-behind pre qs none m = tt
  MayClaim-behind pre qs (some c) m = (m.0, (AllBefore-parts c.append_buffer pre qs m.1).1)

  module _ (b : Buffer) (valid : IsValid st b) (c : Option Buffer)
      (may : MayClaim st b.buffers c) where
    whole :
        (off len o : ℕ) (pre qs kept : List Ptr) (n : ℕ) (r : Run (List Ptr × ℕ × Option Buffer))
        → b.buffers ≡ pre ++ qs
        → total pre + o ≡ off
        → off < total b.buffers
        → total b.buffers < u32_mod
        → off + len ≤ total b.buffers
        → AllFit st kept
        → AllBefore b.append_buffer kept
        → contents st kept ≡ take o (contents st qs)
        → total kept ≡ o
        → n ≡ total b.buffers + o
        → Removed st b.append_buffer o len qs n c r
        → IsSplice st b c off len (
            and_then r λ (rest, n', c'). finished (
              record b {
                buffers = pre ++ (kept ++ rest);
                len = n';
                last_p = begin (pre ++ (kept ++ rest));
              },
              c',
            ))
    whole off len o pre qs kept n threw j e k u h f w d t m g = absurd g
    whole off len o pre qs kept n stuck j e k u h f w d t m g = absurd g
    whole off len o pre qs kept n (finished (rest, n', c')) j e k u h f w d t m
          (fit, before, bytes, sum, claimed) =
        let parts : AllFit st (pre ++ (kept ++ rest)) =
          AllFit-append st pre (kept ++ rest)
            (AllFit-parts st pre qs (subst (AllFit st) j valid.fit)).0
            (AllFit-append st kept rest f fit) in
        (
          (λ _. (
            record b {
              buffers = pre ++ (kept ++ rest);
              len = n';
              last_p = begin (pre ++ (kept ++ rest));
            },
            c',
            refl,
            record {
              fit = parts;
              counted = omega (
                arith,
                sum,
                t,
                ap length bytes,
                length-drop (o + len) (contents st qs),
                length-contents st rest fit,
                length-contents st qs (AllFit-parts st pre qs (subst (AllFit st) j valid.fit)).1,
                ap total j,
                total-append pre qs,
                total-append pre (kept ++ rest),
                total-append kept rest,
              );
              owned = valid.owned;
              cursor = begin-IsOk st (pre ++ (kept ++ rest)) parts;
              before =
                  AllBefore-append b.append_buffer pre (kept ++ rest)
                    (AllBefore-parts b.append_buffer pre qs
                      (subst (AllBefore b.append_buffer) j valid.before)).0
                    (AllBefore-append b.append_buffer kept rest w before);
            },
            contents-append st pre (kept ++ rest)
                ∙ ap (λ z. contents st pre ++ z) (contents-append st kept rest ∙ ap₂ ◌++◌ d bytes)
                ∙ sym (
                    append_assoc (contents st pre) (take o (contents st qs))
                      (drop (o + len) (contents st qs)))
                ∙ ap₂ ◌++◌ (sym (take-contents st b.buffers pre qs valid.fit j off o e))
                    (sym (drop-contents st b.buffers pre qs valid.fit j off o e len)),
            subst (λ z. Claimed st (take len z) c c')
                (ap (λ z. drop z (contents st qs)) (omega arith)
                  ∙ sym (drop-contents st b.buffers pre qs valid.fit j off o e 0)
                  ∙ ap (λ z. drop z (contents st b.buffers)) (omega arith))
                claimed,
          )),
          (λ l. absurd (omega arith)),
        )

    -- `splice(off, len, claim_by)` of at least a byte, of a valid buffer with `length() + off` in 32 bits, where
    -- a buffer that claims is valid and the pieces do not lie in its free tail: if the range is there, the buffer
    -- is valid and has the bytes before and behind it, and those of the range stand at the end of the one
    -- that claims, which is valid; behind the end there is the exception.
    pub splice-IsSplice :
        (off len : ℕ)
        → 0 < len
        → total b.buffers + off < u32_mod
        → IsSplice st b c off len (splice off len b c)
    unfolding splice
    splice-IsSplice off zero some_len small = absurd (omega arith)
    splice-IsSplice off (suc len) some_len small =
        let counted : b.len ≡ total b.buffers = omega (arith, valid.counted) in
        elim (Bool-cases (leb b.len off)) [
          | inl y ↦
              let over : total b.buffers ≤ off = ground (arith, counted) in
              rw y ((λ k. absurd (omega arith)), (λ k. refl))
          | inr y ↦ rw y (
            (λ inside. (there (ground (arith, counted)) inside).0 inside),
            (λ l. absurd (ground (arith, counted))),
          )
        ]
      where
        there :
            off < total b.buffers
            → off + suc len ≤ total b.buffers
            → IsSplice st b c off (suc len) (
                let (o, qs) = skip off b.buffers in
                let (kept, n) = insert_front o qs b.len in
                and_then (remove o (suc len) qs n c) λ (rest, n', c'). finished (
                  record b {
                    buffers = skipped off b.buffers ++ (kept ++ rest);
                    len = n';
                    last_p = begin (skipped off b.buffers ++ (kept ++ rest));
                  },
                  c',
                ))
        there k inside =
            let o = (skip off b.buffers).0 in
            let qs = (skip off b.buffers).1 in
            let pre = skipped off b.buffers in
            let j = skipped-append off b.buffers in
            let counted : b.len ≡ total b.buffers = omega (arith, valid.counted) in
            let (i, fit, sum, same) = skip-Skipped st off b.buffers valid.fit (omega arith) in
            let before =
              (AllBefore-parts b.append_buffer pre qs
                (subst (AllBefore b.append_buffer) j valid.before)).1 in
            let all : total b.buffers ≡ total pre + total qs = ap total j ∙ total-append pre qs in
            let e : total pre + o ≡ off = omega (arith, sum, all) in
            let (fit', before', bytes, size', n) =
              insert_front-take b.append_buffer o qs b.len fit before i
                (omega (arith, counted, e)) in
            let kept = insert_front o qs b.len in
            whole off (suc len) o pre qs kept.0 kept.1 (remove o (suc len) qs kept.1 c) j e k
              (omega arith) inside fit' before' bytes size' (omega (arith, n, counted))
              (remove-Removed st sized b.append_buffer o (suc len) qs kept.1 c fit before
                (MayClaim-behind pre qs c (subst (λ z. MayClaim st z c) j may)) i
                (λ z. absurd (omega arith)) (omega (arith, e, all)) (omega (arith, n, counted, all))
                (omega (arith, n, counted, e)))
