-- ===== src/Buffer/Slice.antt =====
-- `operator[]`, `substr_of` and `contents_equal` of a `buffer`.
use my_git_hub.Common.{
  ℕ, zero, suc, ◌+◌, ◌-◌, Bool, true, false, ◌&&◌, Option, List, [], ◌∷◌, ltb, leb, ◌==◌,
  if◌then◌else◌, take, drop, min, get_elem?,
}
use my_git_hub.Common.Words.{add32}
use my_git_hub.Buffer.Store.{Ptr, Store, sub_ptr}
use my_git_hub.Buffer.Defs.{Buffer, clear}
use my_git_hub.Buffer.Cursor.{Run, finished, threw, stuck, and_then}

-- The loop of `operator[]`; the end of the function without a value is `stuck`.
unfoldable pub byte_in : Store → List Ptr → ℕ → Run (Option ℕ)
byte_in st [] n = stuck
byte_in st (p ∷ ps) n =
    let rest = byte_in st ps (n - p.len) in
    if leb p.len n then rest else finished (get_elem? (drop p.off (st.bytes p.raw)) n)

-- `operator[](n)`
unfoldable pub byte_at : Store → Buffer → ℕ → Run (Option ℕ)
unfolding byte_in
byte_at st b n = if leb b.len n then threw else byte_in st b.buffers n

-- The loop over the pieces before `off`, as in `substr_of`, `splice` and `get_contiguous`: the offset
-- that is left, and the pieces. The `ptr` at the end of the list is not read.
unfoldable pub skip : ℕ → List Ptr → ℕ × List Ptr
skip zero ps = (0, ps)
skip (suc off) [] = (suc off, [])
skip (suc off) (p ∷ ps) =
    let rest = skip (suc off - p.len) ps in if leb p.len (suc off) then rest else (suc off, p ∷ ps)

-- The second loop of `substr_of`: the pieces that it adds.
unfoldable pub take_pieces : ℕ → ℕ → List Ptr → Run (List Ptr)
take_pieces off zero ps = finished []
take_pieces off (suc len) [] = stuck
take_pieces off (suc len) (p ∷ ps) =
    let howmuch = p.len - off in
    let rest = take_pieces 0 (suc len - howmuch) ps in
    if ltb (off + suc len) p.len
    then finished (sub_ptr p off (suc len) ∷ [])
    else and_then rest λ qs. finished (sub_ptr p off howmuch ∷ qs)

-- `_len` after the lengths of the pieces were added.
abbrev pub add_lens : ℕ → List Ptr → ℕ
add_lens n [] = n
add_lens n (p ∷ ps) = add_lens (add32 n p.len) ps

-- `substr_of(other, off, len)`
unfoldable pub substr_of : Buffer → ℕ → ℕ → Buffer → Run Buffer
unfolding clear skip take_pieces
substr_of other off len b =
    if ltb other.len (add32 off len)
    then threw
    else let (off', ps) = skip off other.buffers in
      and_then (take_pieces off' len ps)
        λ qs. finished (record (clear b) { buffers = qs; len = add_lens 0 qs })

-- `memcmp` of xs many bytes is zero.
abbrev pub same_bytes : List ℕ → List ℕ → Bool
same_bytes [] [] = true
same_bytes [] (y ∷ ys) = false
same_bytes (x ∷ xs) [] = false
same_bytes (x ∷ xs) (y ∷ ys) = (x == y) && same_bytes xs ys

-- Where a place goes that moves on by `n`.
abbrev pub move_on : ℕ → ℕ → Ptr → List Ptr → ℕ × List Ptr
move_on off n p ps = if off + n == p.len then (0, ps) else (off + n, p ∷ ps)

-- The loop of `contents_equal`, with the rounds that it may take.
unfoldable pub equal_loop : ℕ → Store → ℕ → List Ptr → ℕ → List Ptr → Run Bool
equal_loop rounds st aoff [] boff ys = finished true
equal_loop rounds st aoff (a ∷ xs) boff [] = stuck
equal_loop zero st aoff (a ∷ xs) boff (b ∷ ys) = stuck
equal_loop (suc rounds) st aoff (a ∷ xs) boff (b ∷ ys) =
    let n = min (a.len - aoff) (b.len - boff) in
    let (aoff', xs') = move_on aoff n a xs in
    let (boff', ys') = move_on boff n b ys in
    let rest = equal_loop rounds st aoff' xs' boff' ys' in
    if same_bytes (take n (drop (a.off + aoff) (st.bytes a.raw)))
      (take n (drop (b.off + boff) (st.bytes b.raw)))
    then rest
    else finished false

-- `contents_equal(other)`
unfoldable pub contents_equal : ℕ → Store → Buffer → Buffer → Run Bool
unfolding equal_loop
contents_equal rounds st b other =
    if b.len == other.len then equal_loop rounds st 0 b.buffers 0 other.buffers else finished false
