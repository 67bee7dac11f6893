-- ===== src/Buffer/RebuildLoop.antt =====
-- The loop of `rebuild`: it writes the contents to the new raw, and to no other.
use my_git_hub.Common.{
  ℕ, ◌+◌, ◌-◌, ◌≤◌, ◌<◌, ◌≡◌, refl, sym, ap, ap₂, ◌∙◌, true, false, List, [], ◌∷◌, ◌++◌, arith,
  ◌==◌, length, take, drop, append_assoc, ==_iff, length-take, length-append, take-append-drop,
}
use my_git_hub.Common.Words.{add32, u32_mod}
use my_git_hub.Buffer.Store.{Ptr, Store, view, overwrite, ptr_copy_in}
use my_git_hub.Buffer.Bytes.{
  contents, total, AllFit, length-view, length-overwrite, take-append_left, drop-append_right,
  drop-drop, take_all,
}
use my_git_hub.Buffer.CrcCache.{CrcMaps, copy_in}
use my_git_hub.Buffer.Rebuild.{rebuild_loop}

-- Two writes in a row are one.
overwrite-overwrite :
    (o : ℕ) (xs ys zs : List ℕ)
    → o + length xs ≤ length zs
    → overwrite (o + length xs) ys (overwrite o xs zs) ≡ overwrite o (xs ++ ys) zs
overwrite-overwrite o xs ys zs h =
    let front : List ℕ = take o zs in
    let rest : List ℕ = drop (o + length xs) zs in
    let n : ℕ = o + length xs in
    let done : List ℕ = front ++ xs in
    let size : length done ≡ n = omega (arith, length-append {0} front xs, length-take o zs) in
    let all : overwrite o xs zs ≡ done ++ rest = sym (append_assoc front xs rest) in
    let past : n + length ys - length done ≡ length ys = omega (arith, size) in
    let both : n + length ys ≡ o + length (xs ++ ys) = omega (arith, length-append {0} xs ys) in
    ap₂ (λ v w. v ++ (ys ++ w))
      (ap (take n) all
        ∙ take-append_left n done rest (omega (arith, size))
        ∙ take_all n done (omega (arith, size)))
      (ap (drop (n + length ys)) all
        ∙ drop-append_right (n + length ys) done rest (omega (arith, size))
        ∙ ap (λ k. drop k rest) past
        ∙ drop-drop n (length ys) zs
        ∙ ap (λ k. drop k zs) both)
    ∙ append_assoc front xs (ys ++ drop (o + length (xs ++ ys)) zs)
    ∙ ap (λ z. front ++ z) (sym (append_assoc xs ys (drop (o + length (xs ++ ys)) zs)))

-- No piece lies in the raw `r`.
abbrev pub Elsewhere : ℕ → List Ptr → Type 0
Elsewhere r [] = Unit {0}
Elsewhere r (p ∷ ps) = ((p.raw == r) ≡ false) × Elsewhere r ps

-- A write to another raw.
pub unmoved :
    (st st' : Store) (r : ℕ)
    → ((q : ℕ) → (q == r) ≡ false → st'.bytes q ≡ st.bytes q)
    → st.next ≤ st'.next
    → (ps : List Ptr) → AllFit st ps
    → Elsewhere r ps
    → AllFit st' ps × (contents st' ps ≡ contents st ps)
unmoved st st' r same next [] f e = (tt, refl)
unmoved st st' r same next (p ∷ ps) f e =
    let here : st'.bytes p.raw ≡ st.bytes p.raw = same p.raw e.0 in
    let (fit, bytes) = unmoved st st' r same next ps f.1 e.1 in
    (
      (
        record {
          made = omega (arith, f.0.made, next);
          some_bytes = f.0.some_bytes;
          within = omega (arith, f.0.within, ap length here);
        },
        fit,
      ),
      ap₂ ◌++◌ (ap (λ z. take p.len (drop p.off z)) here) bytes,
    )

module _ (nb : Ptr) (start : nb.off ≡ 0) where
  -- What the loop leaves of the store.
  abbrev Rebuilt : ℕ → List Ptr → Store → CrcMaps → ℕ × Store × CrcMaps → Type 0
  Rebuilt pos ps st maps (pos', st', maps') =
      (pos' ≡ pos + total ps)
      × (st'.bytes nb.raw ≡ overwrite pos (contents st ps) (st.bytes nb.raw))
      × ((r : ℕ) → (r == nb.raw) ≡ false → st'.bytes r ≡ st.bytes r)
      × (st'.next ≡ st.next)
      × (maps' ≡ maps)

  pub rebuild_loop-Rebuilt :
      (pos : ℕ) (ps : List Ptr) (st : Store) (maps : CrcMaps)
      → AllFit st ps
      → Elsewhere nb.raw ps
      → pos + total ps ≤ length (st.bytes nb.raw)
      → length (st.bytes nb.raw) < u32_mod
      → Rebuilt pos ps st maps (rebuild_loop pos ps nb st maps)
  unfolding rebuild_loop copy_in ptr_copy_in
  rebuild_loop-Rebuilt pos [] st maps f e h s = (
    omega arith,
    sym (take-append-drop pos (st.bytes nb.raw))
        ∙ ap (λ k. take pos (st.bytes nb.raw) ++ drop k (st.bytes nb.raw)) {y = pos + 0}
            (omega arith),
    (λ r x. refl),
    refl,
    refl,
  )
  rebuild_loop-Rebuilt pos (p ∷ ps) st maps f e h s =
      let src : List ℕ = view st p in
      let st' : Store = ptr_copy_in pos src nb st in
      let at : nb.off + pos ≡ pos = omega arith in
      let own : (nb.raw == nb.raw) ≡ true = (==_iff nb.raw nb.raw).1 refl in
      let size : length src ≡ p.len = length-view f.0 in
      let here : st'.bytes nb.raw ≡ overwrite pos src (st.bytes nb.raw) = rw (own, at) refl in
      let there : (q : ℕ) → (q == nb.raw) ≡ false → st'.bytes q ≡ st.bytes q = λ q x. rw x refl in
      let room : length (st'.bytes nb.raw) ≡ length (st.bytes nb.raw) =
        ap length here ∙ length-overwrite pos src (st.bytes nb.raw) (omega (arith, size)) in
      let (fit, bytes) = unmoved st st' nb.raw there (omega arith) ps f.1 e.1 in
      let next : add32 pos p.len ≡ pos + p.len = omega arith in
      let (place, written, others, same, kept) =
        rebuild_loop-Rebuilt (pos + p.len) ps st' maps fit e.1 (omega (arith, room))
          (omega (arith, room)) in
      rw (next, rebuild_loop)
        (
          omega (arith, place),
          written
              ∙ ap₂ (λ k z. overwrite k (contents st' ps) z) (ap (λ k. pos + k) (sym size)) here
              ∙ overwrite-overwrite pos src (contents st' ps) (st.bytes nb.raw)
                  (omega (arith, size))
              ∙ ap (λ z. overwrite pos (src ++ z) (st.bytes nb.raw)) bytes,
          (λ q x. others q x ∙ there q x),
          same,
          kept,
        )

pub Fits-Elsewhere : (st : Store) (ps : List Ptr) → AllFit st ps → Elsewhere st.next ps
Fits-Elsewhere st [] f = tt
Fits-Elsewhere st (p ∷ ps) f = (ground (arith, f.0.made), Fits-Elsewhere st ps f.1)
