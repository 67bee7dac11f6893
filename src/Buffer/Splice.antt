-- ===== src/Buffer/Splice.antt =====
-- `splice` cuts a range out of a `buffer`, and gives it to another one.
use my_git_hub.Common.{
  ℕ, zero, suc, ◌+◌, ◌-◌, ◌%◌, Option, none, some, List, [], ◌∷◌, ◌++◌, ltb, leb, if◌then◌else◌,
}
use my_git_hub.Common.Words.{add32, u32_mod}
use my_git_hub.Buffer.Store.{Ptr, sub_ptr}
use my_git_hub.Buffer.Defs.{Buffer, begin, append_ptr}
use my_git_hub.Buffer.Cursor.{Run, finished, threw, stuck, and_then}
use my_git_hub.Buffer.Slice.{skip}
use my_git_hub.Buffer.Substr.{front}

abbrev pub sub32 : ℕ → ℕ → ℕ
sub32 a b = (a + (u32_mod - b % u32_mod)) % u32_mod

-- The pieces that `skip` goes over.
unfoldable pub skipped : ℕ → List Ptr → List Ptr
skipped zero ps = []
skipped (suc off) [] = []
skipped (suc off) (p ∷ ps) =
    let rest = skipped (suc off - p.len) ps in if leb p.len (suc off) then p ∷ rest else []

-- `if (claim_by) claim_by->append(p, off, len);`
unfoldable pub claim : Ptr → ℕ → ℕ → Option Buffer → Option Buffer
unfolding append_ptr
claim p off len none = none
claim p off len (some c) = some (append_ptr p off len c)

-- The loop of `splice`: the pieces that are left, `_len` and the other buffer.
unfoldable pub remove : ℕ → ℕ → List Ptr → ℕ → Option Buffer → Run (List Ptr × ℕ × Option Buffer)
unfolding claim
remove off zero ps n c = finished (ps, n, c)
remove off (suc len) [] n c = stuck
remove off (suc len) (p ∷ ps) n c =
    let howmuch = p.len - off in
    let rest = remove 0 (suc len - howmuch) ps (sub32 n p.len) (claim p off howmuch c) in
    if ltb (off + suc len) p.len
    then finished (
      sub_ptr p (off + suc len) (p.len - (suc len + off)) ∷ ps,
      sub32 n (off + suc len),
      claim p off (suc len) c,
    )
    else rest

-- What stays in the list of the piece that the range begins in, and `_len` with it.
abbrev pub insert_front : ℕ → List Ptr → ℕ → List Ptr × ℕ
insert_front zero ps n = ([], n)
insert_front (suc off) [] n = ([], n)
insert_front (suc off) (p ∷ ps) n = (sub_ptr p 0 (suc off) ∷ [], add32 n (suc off))

-- `splice(off, len, claim_by)`
unfoldable pub splice : ℕ → ℕ → Buffer → Option Buffer → Run (Buffer × Option Buffer)
unfolding skip skipped remove
splice off zero b c = finished (b, c)
splice off (suc len) b c =
    if leb b.len off
    then threw
    else let (off', ps) = skip off b.buffers in
      let (front, n) = insert_front off' ps b.len in
      and_then (remove off' (suc len) ps n c) λ (qs, n', c'). finished (
        record b {
          buffers = skipped off b.buffers ++ (front ++ qs);
          len = n';
          last_p = begin (skipped off b.buffers ++ (front ++ qs));
        },
        c',
      )
