-- ===== src/Buffer/Cut.antt =====
-- What `splice` leaves, and what it gives away.
use my_git_hub.Common.{
  ℕ, zero, suc, ◌+◌, ◌-◌, ◌≤◌, ◌<◌, ◌≡◌, refl, sym, ap, ap₂, ◌∙◌, subst, Option, none, some, List,
  [], ◌∷◌, ◌++◌, arith, ltb, length, take, drop, length-drop, append_assoc, append-nil, Bool-cases,
  inl, inr,
}
use my_git_hub.Common.Words.{u32_mod}
use my_git_hub.Buffer.Store.{Ptr, Store, view, sub_ptr}
use my_git_hub.Buffer.Bytes.{
  contents, total, Fits, AllFit, length-view, slice-append_left, drop-append_left,
  take-append_right, drop-append_right, take_all,
}
use my_git_hub.Buffer.Defs.{Buffer, append_ptr, append_or_push, extend_back}
use my_git_hub.Buffer.Valid.{
  Before, AllBefore, Owned, Sized, IsValid, append_or_push-Added, extend_back-Added,
}
use my_git_hub.Buffer.Cursor.{Run, finished, threw, stuck}
use my_git_hub.Buffer.Grow.{Inside}
use my_git_hub.Buffer.Substr.{front, view-sub_ptr, sub_ptr-Fits}
use my_git_hub.Buffer.Place.{IsOk, Grows-IsOk}
use my_git_hub.Buffer.Splice.{sub32, claim, remove}

module _ (st : Store) where
  -- The outcome for the other buffer: it has the bytes `xs` at its end.
  abbrev pub Claimed : List ℕ → Option Buffer → Option Buffer → Type 0
  Claimed xs none none = Unit {0}
  Claimed xs none (some c') = ⊥
  Claimed xs (some c) none = ⊥
  Claimed xs (some c) (some c') =
      IsValid st c'
      × (contents st c'.buffers ≡ contents st c.buffers ++ xs)
      × (c'.append_buffer ≡ c.append_buffer)

  -- The other buffer is valid, and the pieces lie before its free tail.
  abbrev pub MayClaim : List Ptr → Option Buffer → Type 0
  MayClaim ps none = Unit {0}
  MayClaim ps (some c) = IsValid st c × AllBefore c.append_buffer ps

  -- What the loop leaves of the pieces `ps`, of `_len` and of the other buffer.
  abbrev pub Removed :
      Option Ptr
      → ℕ
      → ℕ
      → List Ptr
      → ℕ
      → Option Buffer
      → Run (List Ptr × ℕ × Option Buffer)
      → Type 0
  Removed a off len ps n c threw = ⊥
  Removed a off len ps n c stuck = ⊥
  Removed a off len ps n c (finished (qs, n', c')) =
      AllFit st qs
      × AllBefore a qs
      × (contents st qs ≡ drop (off + len) (contents st ps))
      × (n' + total ps ≡ n + total qs)
      × Claimed (take len (drop off (contents st ps))) c c'

module _ (st : Store) (sized : Sized st) where
  pub Before-sub_ptr :
      (a : Option Ptr) (p : Ptr) (o l : ℕ) → o + l ≤ p.len → Before a p → Before a (sub_ptr p o l)
  Before-sub_ptr none p o l h b = tt
  Before-sub_ptr (some a) p o l h b = λ t. omega (arith, b t)

  claim-Claimed :
      (p : Ptr) (off len : ℕ) (ps : List Ptr) (c : Option Buffer)
      → Fits st p
      → 0 < len
      → off + len ≤ p.len
      → MayClaim st (p ∷ ps) c
      → Claimed st (take len (drop off (view st p))) c (claim p off len c)
        × MayClaim st ps (claim p off len c)
  unfolding claim append_ptr
  claim-Claimed p off len ps none f s h m = (tt, tt)
  claim-Claimed p off len ps (some c) f s h (v, before) =
      let q = sub_ptr p off len in
      let fit = sub_ptr-Fits st p off len f s h in
      let b = Before-sub_ptr c.append_buffer p off len h before.0 in
      let (added, counted, owns, last) =
        append_or_push-Added st sized c.append_buffer q fit b (extend_back q c.buffers) c
          (extend_back-Added st sized c.append_buffer q fit b c.buffers v.fit v.before) v.fit
          v.before v.counted in
      let c' = append_or_push q (extend_back q c.buffers) c in
      let valid : IsValid st c' = record {
        fit = added.fit;
        counted = counted;
        owned = subst (Owned st) (sym owns) v.owned;
        before = subst (λ o. AllBefore o c'.buffers) (sym owns) added.before;
        cursor =
            subst (IsOk c'.buffers) (sym last)
              (Grows-IsOk c.buffers c'.buffers c.last_p added.grows v.cursor);
      } in
      (
        (
          valid,
          added.bytes ∙ ap (λ z. contents st c.buffers ++ z) (view-sub_ptr st p off len f h),
          owns,
        ),
        (valid, subst (λ o. AllBefore o ps) (sym owns) before.1),
      )

  both-Claimed :
      (xs ys : List ℕ) (c c' c'' : Option Buffer)
      → Claimed st xs c c'
      → Claimed st ys c' c''
      → Claimed st (xs ++ ys) c c''
  both-Claimed xs ys none none none f g = tt
  both-Claimed xs ys none none (some c'') f g = absurd g
  both-Claimed xs ys none (some c') c'' f g = absurd f
  both-Claimed xs ys (some c) none c'' f g = absurd f
  both-Claimed xs ys (some c) (some c') none f g = absurd g
  both-Claimed xs ys (some c) (some c') (some c'') (v, e, o) (v', e', o') =
      (v', e' ∙ ap (λ z. z ++ ys) e ∙ append_assoc (contents st c.buffers) xs ys, o' ∙ o)

  none-Claimed : (ps : List Ptr) (c : Option Buffer) → MayClaim st ps c → Claimed st [] c c
  none-Claimed ps none m = tt
  none-Claimed ps (some c) m = (m.0, sym (append-nil (contents st c.buffers)), refl)

  -- A range that goes on behind the first piece.
  slice_over :
      (off len : ℕ) (p : Ptr) (ps : List Ptr)
      → Fits st p
      → off < p.len
      → p.len ≤ off + len
      → take len (drop off (contents st (p ∷ ps)))
        ≡ take (p.len - off) (drop off (view st p)) ++ take (len - (p.len - off)) (contents st ps)
  slice_over off len p ps f i h =
      let left : length (drop off (view st p)) ≡ p.len - off =
        omega (arith, length-drop off (view st p), length-view f) in
      ap (take len)
        (drop-append_left off (view st p) (contents st ps) (omega (arith, length-view f)))
      ∙ take-append_right len (drop off (view st p)) (contents st ps) (omega (arith, left))
      ∙ ap₂ ◌++◌ (sym (take_all (p.len - off) (drop off (view st p)) (omega (arith, left))))
          (ap (λ k. take (len - k) (contents st ps)) left)

  past_piece :
      (a : Option Ptr) (off len : ℕ) (p : Ptr) (ps : List Ptr) (n m : ℕ) (c c' : Option Buffer)
      (r : Run (List Ptr × ℕ × Option Buffer))
      → Fits st p
      → off < p.len
      → p.len ≤ off + len
      → m + p.len ≡ n
      → Claimed st (take (p.len - off) (drop off (view st p))) c c'
      → Removed st a 0 (len - (p.len - off)) ps m c' r
      → Removed st a off len (p ∷ ps) n c r
  past_piece a off len p ps n m c c' threw f i h e k g = g
  past_piece a off len p ps n m c c' stuck f i h e k g = g
  past_piece a off len p ps n m c c' (finished (qs, n', c'')) f i h e k
        (fit, before, bytes, sum, g) =
      (
        fit,
        before,
        bytes
            ∙ ap (λ j. drop j (contents st ps)) (omega (arith, length-view f))
            ∙ sym (
                drop-append_right (off + len) (view st p) (contents st ps)
                  (omega (arith, length-view f))),
        omega (arith, sum),
        subst (λ z. Claimed st z c c'') (sym (slice_over off len p ps f i h))
            (both-Claimed (take (p.len - off) (drop off (view st p)))
              (take (len - (p.len - off)) (contents st ps)) c c' c'' k g),
      )

  pub remove-Removed :
      (a : Option Ptr) (off len : ℕ) (ps : List Ptr) (n : ℕ) (c : Option Buffer)
      → AllFit st ps
      → AllBefore a ps
      → MayClaim st ps c
      → Inside off ps
      → (len ≡ 0 → off ≡ 0)
      → off + len ≤ total ps
      → total ps ≤ n
      → n < u32_mod
      → Removed st a off len ps n c (remove off len ps n c)
  unfolding remove
  remove-Removed a off zero ps n c f b m i z h t s =
      let nothing : 0 ≡ off + 0 = omega (arith, z refl) in
      (f, b, ap (λ k. drop k (contents st ps)) nothing, refl, none-Claimed ps c m)
  remove-Removed a off (suc len) [] n c f b m i z h t s = absurd (omega arith)
  remove-Removed a off (suc len) (p ∷ ps) n c f b m i z h t s =
      elim (Bool-cases (ltb (off + suc len) p.len)) [
        | inl y ↦
            let k : ℕ = p.len - (suc len + off) in
            let (taken, may) =
              claim-Claimed p off (suc len) ps c f.0 (omega arith) (ground arith) m in
            let less : sub32 n (off + suc len) ≡ n - (off + suc len) = ground arith in
            rw (y, less)
              (
                (sub_ptr-Fits st p (off + suc len) k f.0 (ground arith) (ground arith), f.1),
                (Before-sub_ptr a p (off + suc len) k (ground arith) b.0, b.1),
                ap (λ w. w ++ contents st ps)
                      (view-sub_ptr st p (off + suc len) k f.0 (ground arith)
                        ∙ take_all k (drop (off + suc len) (view st p)) (
                            ground
                              (arith, length-drop (off + suc len) (view st p), length-view f.0)))
                    ∙ sym (
                        drop-append_left (off + suc len) (view st p) (contents st ps)
                          (ground (arith, length-view f.0))),
                ground arith,
                subst (λ w. Claimed st w c (claim p off (suc len) c))
                    (sym (
                      slice-append_left off (suc len) (view st p) (contents st ps)
                        (ground (arith, length-view f.0))))
                    taken,
              )
        | inr y ↦
            let k : ℕ = p.len - off in
            let (taken, may) = claim-Claimed p off k ps c f.0 (omega arith) (omega arith) m in
            let less : sub32 n p.len ≡ n - p.len = omega arith in
            rw (y, less)
              (past_piece a off (suc len) p ps n (n - p.len) c (claim p off k c)
                (remove 0 (suc len - k) ps (n - p.len) (claim p off k c)) f.0 i (ground arith)
                (omega arith) taken
                (remove-Removed a 0 (suc len - k) ps (n - p.len) (claim p off k c) f.1 b.1 may
                  (front st ps f.1) (λ _. refl) (ground arith) (omega arith) (omega arith)))
      ]
