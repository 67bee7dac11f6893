-- ===== src/Buffer/Cursor.antt =====
-- The iterator of a `buffer`, which goes over its pieces from front to back, and the `copy` of a
-- buffer through the iterator that it keeps. A negative `advance` is not modelled.
use my_git_hub.Common.{
  ℕ, zero, suc, ◌-◌, Option, none, some, List, [], ◌∷◌, ◌++◌, ltb, leb, ◌==◌, if◌then◌else◌, length,
  drop, is_empty, min, get_elem?,
}
use my_git_hub.Common.Words.{add32}
use my_git_hub.Buffer.Store.{Ptr, Store, copy_out, sub_ptr}
use my_git_hub.Buffer.Defs.{Cursor, Buffer, begin}

-- How a call ends: with a value, by the exception, or not at all: not within the rounds that it was
-- given, or with a read behind the last piece, which C++ leaves open.
pub data Run {ℓ} (A : Type ℓ) : Type ℓ where
  finished : A → Run A
  threw : Run A
  stuck : Run A

abbrev pub and_then {ℓ ℓ'} : {A : Type ℓ} {B : Type ℓ'} → Run A → (A → Run B) → Run B
and_then (finished a) f = f a
and_then threw f = threw
and_then stuck f = stuck

-- The pieces from the cursor's node on.
abbrev pub at_node : Option ℕ → List Ptr → List Ptr
at_node none ps = []
at_node (some k) ps = drop k ps

-- The node whose pieces from it on are `ps`, the `k`th.
abbrev pub node_of : ℕ → List Ptr → Option ℕ
node_of k [] = none
node_of k (p ∷ ps) = some k

-- The loop of `advance`, from the node `k` on: the node and the place in its bytes that it comes to.
unfoldable pub walk : ℕ → ℕ → List Ptr → Run (Option ℕ × ℕ)
walk zero k ps = finished (node_of k ps, 0)
walk (suc p_off) k [] = threw
walk (suc p_off) k (p ∷ ps) =
    let next = walk (suc p_off - p.len) (suc k) ps in
    if leb p.len (suc p_off) then next else finished (some k, suc p_off)

abbrev pub walk_node : ℕ → Option ℕ → List Ptr → Run (Option ℕ × ℕ)
walk_node p_off none ps = walk p_off 0 []
walk_node p_off (some k) ps = walk p_off k (drop k ps)

-- `advance(o)`
unfoldable pub advance : ℕ → List Ptr → Cursor → Run Cursor
unfolding walk
advance zero ps c = finished c
advance (suc o) ps c =
    and_then (walk_node (add32 c.p_off (suc o)) c.node ps)
      λ (at, p_off). finished (record { off = add32 c.off (suc o); node = at; p_off = p_off })

-- `seek(o)`
unfoldable pub seek : ℕ → List Ptr → Run Cursor
unfolding advance
seek o ps = advance o ps (begin ps)

-- `operator*`; a place behind the piece's end is undefined, and `none` here.
unfoldable pub current : Store → List Ptr → Cursor → Run (Option ℕ)
current st ps c = elim (at_node c.node ps) [
  | [] ↦ threw
  | p ∷ _ ↦ finished (get_elem? (drop p.off (st.bytes p.raw)) c.p_off)
]

-- `operator++`
unfoldable pub step : List Ptr → Cursor → Run Cursor
unfolding advance
step ps c = elim (at_node c.node ps) [ [] ↦ threw | p ∷ _ ↦ advance 1 ps c ]

-- `get_current_ptr`
unfoldable pub get_current_ptr : List Ptr → Cursor → Run Ptr
get_current_ptr ps c = elim (at_node c.node ps) [
  | [] ↦ threw
  | p ∷ _ ↦ finished (sub_ptr p c.p_off (p.len - c.p_off))
]

-- The start of each copy: `if (_iter == _ls->end()) seek(_off);`
unfoldable pub seek_again : List Ptr → Cursor → Run Cursor
unfolding seek
seek_again ps c = if is_empty (at_node c.node ps) then seek c.off ps else finished c

-- What a round of `copy` has to copy, and where from; `ptr::copy_out` does its own check.
unfoldable pub copy_piece : ℕ → Store → List Ptr → Cursor → Run (List ℕ)
unfolding copy_out
copy_piece len st [] c = threw
copy_piece len st (p ∷ ps) c = elim (copy_out c.p_off (min (p.len - c.p_off) len) p st) [
  | none ↦ threw
  | some xs ↦ finished xs
]

-- The loop of `copy(len, dest)`, with the rounds that it may take.
unfoldable pub copy_loop : ℕ → ℕ → Store → List Ptr → Cursor → Run (List ℕ × Cursor)
unfolding copy_piece advance
copy_loop rounds zero st ps c = finished ([], c)
copy_loop zero (suc len) st ps c = stuck
copy_loop (suc rounds) (suc len) st ps c =
    and_then (copy_piece (suc len) st (at_node c.node ps) c) λ xs.
      and_then (advance (length xs) ps c) λ c'.
        and_then (copy_loop rounds (suc len - length xs) st ps c')
          λ (ys, c''). finished (xs ++ ys, c'')

unfoldable pub iterator_copy : ℕ → ℕ → Store → List Ptr → Cursor → Run (List ℕ × Cursor)
unfolding seek_again copy_loop
iterator_copy rounds len st ps c = and_then (seek_again ps c) (λ c'. copy_loop rounds len st ps c')

-- `_last_p`, moved to `off` if it is not there.
unfoldable pub seek_last : ℕ → Buffer → Run Cursor
unfolding seek
seek_last off b = if b.last_p.off == off then finished b.last_p else seek off b.buffers

abbrev pub keep_cursor : Buffer → List ℕ × Cursor → List ℕ × Buffer
keep_cursor b (xs, c) = (xs, record b { last_p = c })

-- `copy(off, len, std::string& dest)`: what is appended to `dest`.
unfoldable pub copy_string : ℕ → ℕ → ℕ → Store → Buffer → Run (List ℕ × Buffer)
unfolding seek_last iterator_copy
copy_string rounds off len st b =
    and_then (seek_last off b)
      λ c. and_then (iterator_copy rounds len st b.buffers c) (λ r. finished (keep_cursor b r))

-- `copy(off, len, char* dest)`
unfoldable pub copy : ℕ → ℕ → ℕ → Store → Buffer → Run (List ℕ × Buffer)
unfolding copy_string
copy rounds off len st b =
    if ltb b.len (add32 off len) then threw else copy_string rounds off len st b
