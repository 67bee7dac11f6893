-- ===== src/Buffer/Copy.antt =====
-- `copy` of a buffer is the slice of its contents, wherever the iterator that it keeps stands.
use my_git_hub.Common.{
  ℕ, ◌+◌, ◌≤◌, ◌<◌, ◌≡◌, refl, ap, subst, List, arith, ltb, ◌==◌, take, drop, Bool-cases, inl, inr,
  ==_iff,
}
use my_git_hub.Common.Words.{add32, u32_mod}
use my_git_hub.Buffer.Store.{Store}
use my_git_hub.Buffer.Bytes.{contents, total}
use my_git_hub.Buffer.Defs.{Cursor, Buffer}
use my_git_hub.Buffer.Valid.{IsValid}
use my_git_hub.Buffer.Cursor.{
  Run, finished, threw, stuck, and_then, seek, seek_last, iterator_copy, copy_string, copy,
  keep_cursor,
}
use my_git_hub.Buffer.Place.{IsOk}
use my_git_hub.Buffer.Walk.{Moved, seek-Moved}
use my_git_hub.Buffer.CopyLoop.{Copied, Stands-IsOkAt, iterator_copy-Copied}

module _ (st : Store) (b : Buffer) where
  -- The right outcome of a copy: the bytes, and a valid buffer with another iterator, or the exception.
  abbrev pub IsCopy : ℕ → ℕ → Run (List ℕ × Buffer) → Type 0
  IsCopy off len r =
      (off + len ≤ total b.buffers
        → (c : Cursor) × (r
            ≡ finished (take len (drop off (contents st b.buffers)), record b { last_p = c }))
          × IsValid st (record b { last_p = c }))
      × (total b.buffers < off + len → r ≡ threw)

module _ (st : Store) (b : Buffer) (valid : IsValid st b) (small : total b.buffers < u32_mod) where
  kept-IsCopy :
      (off len : ℕ) (r : Run (List ℕ × Cursor))
      → Copied st b.buffers off len r
      → IsCopy st b off len (and_then r λ r. finished (keep_cursor b r))
  kept-IsCopy off len threw h = ((λ k. absurd (omega arith)), (λ k. refl))
  kept-IsCopy off len stuck h = absurd h
  kept-IsCopy off len (finished (xs, c)) (fits, e, s, o) = (
    (λ k. (
      c,
      ap (λ z. finished (z, record b { last_p = c })) e,
      record {
        fit = valid.fit;
        counted = valid.counted;
        owned = valid.owned;
        before = valid.before;
        cursor = Stands-IsOkAt st b.buffers valid.fit small c.node c s;
      },
    )),
    (λ k. absurd (omega arith)),
  )

  pub copy_string-IsCopy :
      (rounds off len : ℕ)
      → len ≤ rounds
      → off < u32_mod
      → IsCopy st b off len (copy_string rounds off len st b)
  unfolding copy_string seek_last
  copy_string-IsCopy rounds off len h o = elim (Bool-cases (b.last_p.off == off)) [
    | inl y ↦
        let here : b.last_p.off ≡ off = (==_iff b.last_p.off off).0 y in
        rw y (
          kept-IsCopy off len (iterator_copy rounds len st b.buffers b.last_p) (
            subst (λ z. Copied st b.buffers z len (iterator_copy rounds len st b.buffers b.last_p))
              here (copies b.last_p valid.cursor)))
    | inr y ↦ rw y (moved (seek off b.buffers) (seek-Moved st b.buffers valid.fit off o))
  ]
    where
      copies :
          (c : Cursor)
          → IsOk b.buffers c
          → Copied st b.buffers c.off len (iterator_copy rounds len st b.buffers c)
      copies c k = iterator_copy-Copied st b.buffers valid.fit small rounds len c h k

      moved :
          (r : Run Cursor)
          → Moved b.buffers off r
          → IsCopy st b off len (
              and_then r λ c.
                and_then (iterator_copy rounds len st b.buffers c) λ r. finished (keep_cursor b r))
      moved threw m = ((λ k. absurd (omega arith)), (λ k. refl))
      moved stuck m = absurd m
      moved (finished c) (s, e) = kept-IsCopy off len (iterator_copy rounds len st b.buffers c) (
          subst (λ z. Copied st b.buffers z len (iterator_copy rounds len st b.buffers c)) e
            (copies c (Stands-IsOkAt st b.buffers valid.fit small c.node c s)))

  -- `copy(off, len, char* dest)` of a valid buffer, whose length and `off + len` fit in 32 bits: if the
  -- bytes are there, they are what is copied, wherever the iterator stands that the buffer keeps, and the
  -- buffer with the one that it keeps after it is valid; else there is the exception. As many rounds as
  -- bytes are enough.
  pub copy-IsCopy :
      (rounds off len : ℕ)
      → len ≤ rounds
      → off + len < u32_mod
      → IsCopy st b off len (copy rounds off len st b)
  unfolding copy
  copy-IsCopy rounds off len h o =
      let (there, beyond) = copy_string-IsCopy rounds off len h (omega arith) in
      let all : b.len ≡ total b.buffers = omega (arith, valid.counted) in
      let sum : add32 off len ≡ off + len = omega arith in
      elim (Bool-cases (ltb b.len (add32 off len))) [
        | inl y ↦
            let over : total b.buffers < off + len = ground (arith, all, sum) in
            rw y ((λ k. absurd (omega arith)), (λ k. refl))
        | inr y ↦ rw y (there, beyond)
      ]
