-- ===== src/Buffer/Append.antt =====
-- `append` of bytes: they stand at the end, and nobody else's bytes change.
use my_git_hub.Common.{
  ℕ, ◌+◌, ◌-◌, ◌≤◌, ◌<◌, ◌≡◌, refl, sym, ap, ap₂, ◌∙◌, subst, true, Option, some, List, [], ◌∷◌,
  ◌++◌, arith, ◌==◌, length, take, drop, append_assoc, ==_iff, Bool-cases, inl, inr,
}
use my_git_hub.Buffer.Store.{Ptr, end_of, Store, view, ptr_append, sub_ptr}
use my_git_hub.Buffer.Bytes.{
  contents, Fits, AllFit, length-overwrite, overwrite-before, overwrite-at,
}
use my_git_hub.Buffer.Defs.{Buffer, extend_back, append_or_push, append_ptr, fill}
use my_git_hub.Buffer.Valid.{
  Before, AllBefore, Owned, Sized, IsValid, append_or_push-Added, extend_back-Added,
}
use my_git_hub.Buffer.Place.{IsOk, Grows-IsOk}

-- A `ptr` of `st`, apart from the free tail, still stands for the same bytes.
abbrev pub Same : Store → Store → Option Ptr → Ptr → Type 0
Same st st' a' q = Fits st' q × Before a' q × (view st' q ≡ view st q)

-- The bytes `src` were added to a buffer; all `ptr`s apart from its free tail keep theirs.
pub record Appended (st : Store) (b : Buffer) (src : List ℕ) (st' : Store) (b' : Buffer)
    : Type 0 where
  pub valid : IsValid st' b'
  pub sized : Sized st'
  pub bytes : contents st' b'.buffers ≡ contents st b.buffers ++ src
  pub kept : (q : Ptr) → Fits st q → Before b.append_buffer q → Same st st' b'.append_buffer q

-- Two in a row.
pub both-Appended :
    {st st' st'' : Store} {b b' b'' : Buffer} (xs ys : List ℕ)
    → Appended st b xs st' b'
    → Appended st' b' ys st'' b''
    → Appended st b (xs ++ ys) st'' b''
both-Appended {st} {b = b} xs ys f g = record {
  valid = g.valid;
  sized = g.sized;
  bytes = g.bytes ∙ ap (λ z. z ++ ys) f.bytes ∙ append_assoc (contents st b.buffers) xs ys;
  kept = λ q fit h.
      let (fit', before', same) = f.kept q fit h in
      let (fit'', before'', same') = g.kept q fit' before' in (fit'', before'', same' ∙ same);
}

-- The contents of a list of pieces that all are the same.
pub all_same :
    {st st' : Store} (a a' : Option Ptr) (ps : List Ptr)
    → AllFit st ps
    → AllBefore a ps
    → ((q : Ptr) → Fits st q → Before a q → Same st st' a' q)
    → AllFit st' ps × AllBefore a' ps × (contents st' ps ≡ contents st ps)
all_same a a' [] f b k = (tt, tt, refl)
all_same a a' (p ∷ ps) f b k =
    let (fit, before, same) = k p f.0 b.0 in
    let (fits, befores, sames) = all_same a a' ps f.1 b.1 k in
    ((fit, fits), (before, befores), ap₂ ◌++◌ same sames)

-- A write to the free tail of the append buffer.
module _ (st : Store) (a : Ptr) (src : List ℕ) (zero_off : a.off ≡ 0) (made : a.raw < st.next)
    (fits : a.len + length src ≤ length (st.bytes a.raw)) where
  abbrev written : Store
  written = (ptr_append src a st).0

  abbrev longer : Ptr
  longer = record a { len = a.len + length src }

  room_same : (r : ℕ) → length (written.bytes r) ≡ length (st.bytes r)
  unfolding ptr_append
  room_same r = elim (Bool-cases (r == a.raw)) [
    | inl y ↦
        let e = (==_iff r a.raw).0 y in
        rw (y, e) (length-overwrite (end_of a) src (st.bytes a.raw) (omega arith))
    | inr n ↦ rw n refl
  ]

  written-kept : (q : Ptr) → Fits st q → Before (some a) q → Same st written (some longer) q
  unfolding ptr_append
  written-kept q f h = elim (Bool-cases (q.raw == a.raw)) [
    | inl y ↦
        let e = (==_iff q.raw a.raw).0 y in
        rw y (
          record {
            made = f.made;
            some_bytes = f.some_bytes;
            within = omega (arith, room_same q.raw, f.within);
          },
          (λ t. omega (arith, h y)),
          overwrite-before (end_of a) src (st.bytes a.raw) (omega arith) q.off q.len
                (omega (arith, h y))
              ∙ ap (λ r. take q.len (drop q.off (st.bytes r))) (sym e),
        )
    | inr n ↦ rw n (
      record {
        made = f.made;
        some_bytes = f.some_bytes;
        within = omega (arith, room_same q.raw, f.within);
      },
      (λ t. ground arith),
      refl,
    )
  ]

  written-Sized : Sized st → Sized written
  written-Sized sized r = omega (arith, room_same r, sized r)

  -- The piece that the bytes stand in.
  abbrev piece : Ptr
  piece = sub_ptr longer (end_of longer - length src) (length src)

  view-piece : view written piece ≡ src
  unfolding ptr_append
  view-piece =
      let start : a.off + (a.off + (a.len + length src) - length src) ≡ end_of a = omega arith in
      let own : (a.raw == a.raw) ≡ true = (==_iff a.raw a.raw).1 refl in
      rw (start, own) (overwrite-at (end_of a) src (st.bytes a.raw) (omega arith))

  module _ (some_bytes : 0 < length src) where
    piece-Fits : Fits written piece
    unfolding ptr_append
    piece-Fits = record {
      made = made;
      some_bytes = some_bytes;
      within = omega (arith, room_same a.raw);
    }

    piece-Before : Before (some longer) piece
    piece-Before t = omega arith

    pub fill-Appended :
        (b : Buffer)
        → IsValid st b
        → Sized st
        → b.append_buffer ≡ some a
        → Appended st b src (fill src a st b).0 (fill src a st b).1
    unfolding fill append_ptr
    fill-Appended b valid sized own =
        let before = subst (λ o. AllBefore o b.buffers) own valid.before in
        let (fits', before', same) =
          all_same (some a) (some longer) b.buffers valid.fit before written-kept in
        let b' : Buffer = record b { append_buffer = some longer } in
        let sized' = written-Sized sized in
        let (added, counted, owns, last) =
          append_or_push-Added written sized' (some longer) piece piece-Fits piece-Before
            (extend_back piece b.buffers) b'
            (extend_back-Added written sized' (some longer) piece piece-Fits piece-Before b.buffers
              fits' before')
            fits' before' valid.counted in
        let final = append_or_push piece (extend_back piece b.buffers) b' in
        record {
          valid = record {
            fit = added.fit;
            counted = counted;
            owned =
                subst (Owned written) (sym owns) (zero_off, made, omega (arith, room_same a.raw));
            before = subst (λ o. AllBefore o final.buffers) (sym owns) added.before;
            cursor =
                subst (IsOk final.buffers) (sym last)
                  (Grows-IsOk b.buffers final.buffers b.last_p added.grows valid.cursor);
          };
          sized = sized';
          bytes = added.bytes ∙ ap₂ ◌++◌ same view-piece;
          kept = λ q f h.
              let (fit, until, bytes) = written-kept q f (subst (λ o. Before o q) own h) in
              (fit, subst (λ o. Before o q) (sym owns) until, bytes);
        }
