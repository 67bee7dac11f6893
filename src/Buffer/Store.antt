-- ===== src/Buffer/Store.antt =====
-- The raw buffers of trunk/src/common/buffer.cpp and the `ptr`s into them. A raw is known by a
-- number; several `ptr`s may share one.
use my_git_hub.Common.{
  ℕ, zero, suc, ◌+◌, ◌-◌, Bool, Option, none, some, List, [], ◌∷◌, ◌++◌, ltb, ◌==◌, if◌then◌else◌,
  length, take, drop,
}

-- A `ptr` with a raw.
pub record Ptr : Type 0 where
  pub raw : ℕ
  pub off : ℕ
  pub len : ℕ

-- `ptr::end()`
abbrev pub end_of : Ptr → ℕ
end_of p = p.off + p.len

-- The bytes of each raw, the number of the next one, and what fresh memory holds at each place.
pub record Store : Type 0 where
  pub bytes : ℕ → List ℕ
  pub next : ℕ
  pub junk : ℕ → ℕ

-- The bytes that a `ptr` stands for.
abbrev pub view : Store → Ptr → List ℕ
view st p = take p.len (drop p.off (st.bytes p.raw))

abbrev pub set_bytes : ℕ → List ℕ → Store → Store
set_bytes r xs st = record st { bytes = λ q. if q == r then xs else st.bytes q }

-- `memcpy` to the place `o`
abbrev pub overwrite : ℕ → List ℕ → List ℕ → List ℕ
overwrite o src xs = take o xs ++ (src ++ drop (o + length src) xs)

-- The first `n` bytes of fresh memory.
unfoldable pub fresh_bytes : (ℕ → ℕ) → ℕ → List ℕ
fresh_bytes junk zero = []
fresh_bytes junk (suc n) = fresh_bytes junk n ++ junk n ∷ []

-- A new raw of `n` bytes and a `ptr` to all of it.
unfoldable pub create : ℕ → Store → Store × Ptr
create n st = (
  record st {
    bytes = λ q. if q == st.next then fresh_bytes st.junk n else st.bytes q;
    next = st.next + 1;
  },
  record { raw = st.next; off = 0; len = n },
)

abbrev pub raw_length : Store → Ptr → ℕ
raw_length st p = length (st.bytes p.raw)

abbrev pub at_buffer_tail : Store → Ptr → Bool
at_buffer_tail st p = end_of p == raw_length st p

-- A null `ptr` is `none`.
abbrev pub unused_tail_length : Store → Option Ptr → ℕ
unused_tail_length st none = 0
unused_tail_length st (some p) = raw_length st p - end_of p

abbrev pub wasted : Store → Ptr → ℕ
wasted st p = raw_length st p - p.len

-- `ptr::append`; that the bytes fit is the caller's concern.
unfoldable pub ptr_append : List ℕ → Ptr → Store → Store × Ptr
ptr_append src p st = (
  set_bytes p.raw (overwrite (end_of p) src (st.bytes p.raw)) st,
  record p { len = p.len + length src },
)

-- `ptr::copy_out`; `none` is the exception.
unfoldable pub copy_out : ℕ → ℕ → Ptr → Store → Option (List ℕ)
copy_out o l p st =
    if ltb p.len (o + l) then none else some (take l (drop (p.off + o) (st.bytes p.raw)))

-- `ptr::copy_in`
unfoldable pub ptr_copy_in : ℕ → List ℕ → Ptr → Store → Store
ptr_copy_in o src p st = set_bytes p.raw (overwrite (p.off + o) src (st.bytes p.raw)) st

-- `ptr(p, o, l)`
abbrev pub sub_ptr : Ptr → ℕ → ℕ → Ptr
sub_ptr p o l = record { raw = p.raw; off = p.off + o; len = l }

abbrev pub zeros : ℕ → List ℕ
zeros zero = []
zeros (suc n) = 0 ∷ zeros n

-- `ptr::zero(o, l)`
unfoldable pub ptr_zero : ℕ → ℕ → Ptr → Store → Store
ptr_zero o l p st = set_bytes p.raw (overwrite (p.off + o) (zeros l) (st.bytes p.raw)) st
