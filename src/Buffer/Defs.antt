-- ===== src/Buffer/Defs.antt =====
-- The state of a `buffer` and what puts pieces into it. Its cursor `_last_p` is the subject of
-- `Cursor`; a node of the list is known by its place.
use my_git_hub.Common.{
  ℕ, zero, suc, ◌+◌, ◌-◌, ◌%◌, ◌&&◌, Option, none, some, List, [], ◌∷◌, ◌++◌, ltb, ◌==◌,
  if◌then◌else◌, length, take, drop, is_empty, min,
}
use my_git_hub.Common.Words.{add32, u32_mod}
use my_git_hub.Buffer.Store.{
  Ptr, end_of, Store, create, unused_tail_length, ptr_append, sub_ptr, ptr_zero,
}

-- An `iterator`: the offset, the node (`none` is the end of the list) and the place in its bytes.
pub record Cursor : Type 0 where
  pub off : ℕ
  pub node : Option ℕ
  pub p_off : ℕ

pub record Buffer : Type 0 where
  pub buffers : List Ptr
  pub len : ℕ
  pub memcopy_count : ℕ
  pub append_buffer : Option Ptr
  pub last_p : Cursor

-- `begin()` of a list
abbrev pub begin : List Ptr → Cursor
begin ps = record { off = 0; node = if is_empty ps then none else some 0; p_off = 0 }

abbrev pub empty_buffer : Buffer
empty_buffer = record {
  buffers = [];
  len = 0;
  memcopy_count = 0;
  append_buffer = none;
  last_p = begin [];
}

unfoldable pub clear : Buffer → Buffer
clear b = empty_buffer

-- `push_back` of a `ptr`, by reference or moved
unfoldable pub push_back : Ptr → Buffer → Buffer
push_back p b =
    if p.len == 0 then b else record b { buffers = b.buffers ++ p ∷ []; len = add32 b.len p.len }

-- A node that is put in front moves the cursor's node.
abbrev pub shift : ℕ → Cursor → Cursor
shift n c = record c { node = elim c.node [ none ↦ none | some k ↦ some (k + n) ] }

unfoldable pub push_front : Ptr → Buffer → Buffer
push_front p b =
    if p.len == 0
    then b
    else record b { buffers = p ∷ b.buffers; len = add32 b.len p.len; last_p = shift 1 b.last_p }

-- The last piece with `n` more bytes, if the bytes of `p` stand behind it.
unfoldable pub extend_back : Ptr → List Ptr → Option (List Ptr)
extend_back p [] = none
extend_back p (l ∷ []) =
    if l.raw == p.raw && end_of l == p.off
    then some (record l { len = add32 l.len p.len } ∷ [])
    else none
extend_back p (l ∷ l' ∷ ps) = elim (extend_back p (l' ∷ ps)) [
  | none ↦ none
  | some qs ↦ some (l ∷ qs)
]

-- `append(const ptr& bp, off, len)`; `p` is `ptr(bp, off, len)`.
abbrev pub append_or_push : Ptr → Option (List Ptr) → Buffer → Buffer
append_or_push p none b = push_back p b
append_or_push p (some ps) b = record b { buffers = ps; len = add32 b.len p.len }

unfoldable pub append_ptr : Ptr → ℕ → ℕ → Buffer → Buffer
unfolding extend_back push_back
append_ptr bp off n b = let p = sub_ptr bp off n in append_or_push p (extend_back p b.buffers) b

-- `append(const buffer& bl)`
unfoldable pub append_buffers : Buffer → Buffer → Buffer
append_buffers bl b = record b { buffers = b.buffers ++ bl.buffers; len = add32 b.len bl.len }

-- `ROUND_UP_TO(n, d)`
abbrev pub round_up_to : ℕ → ℕ → ℕ
round_up_to n d = if n % d == 0 then n else n + d - n % d

-- The `if (gap)` of `append(const char*, len)`: the bytes go to the append buffer `a`, and the
-- list gets the piece that they stand in.
unfoldable pub fill : List ℕ → Ptr → Store → Buffer → Store × Buffer
unfolding ptr_append append_ptr
fill src a st b =
    let (st', a') = ptr_append src a st in
    let b' = record b { append_buffer = some a' } in
    (st', append_ptr a' (end_of a' - length src) (length src) b')

-- The first half of a round of `append(const char*, len)`: what the gap takes. The bytes that are
-- left come first.
unfoldable pub fill_gap : List ℕ → Option Ptr → Store → Buffer → List ℕ × Store × Buffer
unfolding fill
fill_gap src none st b = (src, st, b)
fill_gap src (some a) st b =
    let gap = min (unused_tail_length st (some a)) (length src) in
    if gap == 0
    then (src, st, b)
    else let (st', b') = fill (take gap src) a st b in (drop gap src, st', b')

-- `append(char c)`; `none` is a null append buffer.
unfoldable pub fill_char : ℕ → Option Ptr → Store → Buffer → Option (Store × Buffer)
unfolding fill
fill_char c none st b = none
fill_char c (some a) st b = some (fill (c ∷ []) a st b)

-- `header` is `sizeof(raw_combined)`, `unit` is `BUFFER_ALLOC_UNIT`, and a `size_t` has 8 bytes.
module _ (header unit : ℕ) where
  abbrev pub alloc_length : ℕ → ℕ
  alloc_length n = round_up_to (round_up_to n 8 + header) unit - header

  -- `_append_buffer = raw_combined::create(n); _append_buffer.set_length(0);`
  unfoldable pub new_append_buffer : ℕ → Store → Buffer → Store × Buffer
  unfolding create
  new_append_buffer n st b =
      let (st', p) = create n st in (st', record b { append_buffer = some (record p { len = 0 }) })

  -- The second half: memory for what is left.
  unfoldable pub make_room : List ℕ → Store → Buffer → Store × Buffer
  unfolding new_append_buffer
  make_room [] st b = (st, b)
  make_room (x ∷ xs) st b = new_append_buffer (alloc_length (length (x ∷ xs)) % u32_mod) st b

  -- The loop of `append(const char*, len)`, with the rounds that it may take; `none` is out of rounds.
  unfoldable pub append_loop : ℕ → List ℕ → Store → Buffer → Option (Store × Buffer)
  unfolding fill_gap make_room
  append_loop rounds [] st b = some (st, b)
  append_loop zero (x ∷ xs) st b = none
  append_loop (suc rounds) (x ∷ xs) st b =
      let (rest, st', b') = fill_gap (x ∷ xs) b.append_buffer st b in
      let (st'', b'') = make_room rest st' b' in append_loop rounds rest st'' b''

  unfoldable pub append_char : ℕ → Store → Buffer → Option (Store × Buffer)
  unfolding new_append_buffer fill_char
  append_char c st b =
      let (st', b') =
        if unused_tail_length st b.append_buffer == 0
        then new_append_buffer (unit - header) st b
        else (st, b) in
      fill_char c b'.append_buffer st' b'

  -- `reserve(prealloc)`
  unfoldable pub reserve : ℕ → Store → Buffer → Store × Buffer
  unfolding new_append_buffer
  reserve prealloc st b =
      if ltb (unused_tail_length st b.append_buffer) prealloc
      then new_append_buffer prealloc st b
      else (st, b)

-- `append_zero(len)`
unfoldable pub append_zero : ℕ → Store → Buffer → Store × Buffer
unfolding create ptr_zero push_back
append_zero n st b = let (st', p) = create n st in (ptr_zero 0 n p st', push_back p b)

-- `claim_append` and `claim_prepend` of pieces that may be shared: both buffers after it.
unfoldable pub claim_append : Buffer → Buffer → Buffer × Buffer
claim_append bl b = (
  record b { buffers = b.buffers ++ bl.buffers; len = add32 b.len bl.len },
  record bl { buffers = []; len = 0; last_p = begin [] },
)

unfoldable pub claim_prepend : Buffer → Buffer → Buffer × Buffer
claim_prepend bl b = (
  record b {
    buffers = bl.buffers ++ b.buffers;
    len = add32 b.len bl.len;
    last_p = shift (length bl.buffers) b.last_p;
  },
  record bl { buffers = []; len = 0; last_p = begin [] },
)

-- `share(const buffer& bl)`
unfoldable pub push_back_all : List Ptr → Buffer → Buffer
unfolding push_back
push_back_all [] b = b
push_back_all (p ∷ ps) b = push_back_all ps (push_back p b)

unfoldable pub share : Buffer → Buffer → Buffer
unfolding push_back_all
share bl b = push_back_all bl.buffers (clear b)

-- `swap(other)`: both buffers after it.
unfoldable pub swap : Buffer → Buffer → Buffer × Buffer
swap b other =
    (record other { last_p = begin other.buffers }, record b { last_p = begin b.buffers })
