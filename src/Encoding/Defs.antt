-- ===== src/Encoding/Defs.antt =====
-- `encode` and `decode` of trunk/include/common/encoding.h. A value of a signed type is its bit
-- pattern, and a text its bytes; memory that `strlen` reads is given as far as it is known.
use my_git_hub.Common.{
  ℕ, zero, suc, ◌%◌, Bool, not, Option, none, some, List, [], ◌∷◌, ◌==◌, if◌then◌else◌, length,
  take, reverse,
}
use my_git_hub.Common.Words.{u32_mod}
use my_git_hub.ByteOrder.Defs.{assign, convert}
use my_git_hub.ByteOrder.Swaps.{bytes, join, Width, w32, size, swab}
use my_git_hub.Buffer.Store.{Ptr, Store, overwrite, zeros}
use my_git_hub.Buffer.Defs.{Cursor, Buffer, push_back, append_buffers, append_loop}
use my_git_hub.Buffer.Cursor.{Run, finished, and_then, iterator_copy}

-- What adds to a buffer; `none` is out of rounds.
abbrev pub Encoder : Type 0
Encoder = Store → Buffer → Option (Store × Buffer)

-- What reads at an iterator of a list of pieces.
abbrev pub Decoder : Type 0 → Type 0
Decoder A = Store → List Ptr → Cursor → Run (A × Cursor)

abbrev pub done : Encoder
done st b = some (st, b)

infixl 5 ◌>>◌ ◌>>=◌
abbrev pub ◌>>◌ : Encoder → Encoder → Encoder
(f >> g) st b = elim (f st b) [ none ↦ none | some r ↦ g r.0 r.1 ]

abbrev pub value : {A : Type 0} → A → Decoder A
value a st ps c = finished (a, c)

abbrev pub ◌>>=◌ : {A B : Type 0} → Decoder A → (A → Decoder B) → Decoder B
(d >>= f) st ps c = and_then (d st ps c) λ r. f r.0 st ps r.1

-- What the build for a host decides: whether the host keeps the highest byte of a number first, and
-- whether `BIG_ENDIAN` is defined there, so that the little-endian types swap. On Linux the system
-- header always defines it.
pub record Host : Type 0 where
  pub big_endian : Bool
  pub swaps : Bool

-- How a number of `n` bytes stands in memory.
abbrev pub to_memory : Bool → ℕ → ℕ → List ℕ
to_memory big_endian n x = if big_endian then reverse (bytes n x) else bytes n x

abbrev pub from_memory : Bool → List ℕ → ℕ
from_memory big_endian xs = join (if big_endian then reverse xs else xs)

-- `strlen` sees the bytes before the first zero.
abbrev pub before_nul : List ℕ → List ℕ
before_nul [] = []
before_nul (zero ∷ xs) = []
before_nul (suc x ∷ xs) = suc x ∷ before_nul xs

-- `decode_raw`, and the decoders that follow it
unfoldable pub decode_raw : ℕ → Decoder (List ℕ)
decode_raw n st ps c = iterator_copy n n st ps c

unfoldable pub decode_bool : Decoder Bool
decode_bool = do xs ← decode_raw 1; value (not (join xs == 0))

-- A `std::set` is its members in ascending order.
abbrev pub insert : {A : Type 0} → (A → A → Bool) → A → List A → List A
insert lt x [] = x ∷ []
insert lt x (y ∷ ys) = if lt x y then x ∷ y ∷ ys else if lt y x then y ∷ insert lt x ys else y ∷ ys

-- The loop of `decode` of a set.
unfoldable pub decode_members :
    {A : Type 0} → (A → A → Bool) → Decoder A → ℕ → List A → Decoder (List A)
decode_members lt d zero s = value s
decode_members lt d (suc n) s = do x ← d; decode_members lt d n (insert lt x s)

-- `encode` of each member of a set.
unfoldable pub encode_members : {A : Type 0} → (A → Encoder) → List A → Encoder
encode_members e [] = done
encode_members e (x ∷ xs) = do e x; encode_members e xs

module _ (host : Host) where
  unfoldable pub decode_int : Width → Decoder ℕ
  decode_int w = do
    xs ← decode_raw (size w)
    value (convert host.swaps (swab w) (record { v = from_memory host.big_endian xs }))

  unfoldable pub decode_string : Decoder (List ℕ)
  decode_string = do n ← decode_int w32; decode_raw n

  -- `decode` to a `char*`: the memory there after it. `sizeof(s)` is that of a pointer.
  unfoldable pub decode_c_string : ℕ → List ℕ → Decoder (List ℕ)
  decode_c_string pointer_size old = do
    n ← decode_int w32
    xs ← decode_raw n
    value (overwrite 0 xs (overwrite 0 (zeros pointer_size) old))

  unfoldable pub decode_set : {A : Type 0} → (A → A → Bool) → Decoder A → Decoder (List A)
  unfolding decode_members
  decode_set lt d = do n ← decode_int w32; decode_members lt d n []

-- The sizes are those of `append`, for which two rounds are enough.
module _ (header unit : ℕ) where
  -- `encode_raw` of the bytes of a value, and of the types that are encoded so
  unfoldable pub encode_raw : List ℕ → Encoder
  encode_raw xs st b = append_loop header unit 2 xs st b

  unfoldable pub encode_bool : Bool → Encoder
  encode_bool v = encode_raw ((if v then 1 else 0) ∷ [])

  module _ (host : Host) where
    unfoldable pub encode_int : Width → ℕ → Encoder
    encode_int w x =
        encode_raw (to_memory host.big_endian (size w) (assign host.swaps (swab w) x).v)

    unfoldable pub encode_string : List ℕ → Encoder
    encode_string s =
        let n = length s % u32_mod in
        do encode_int w32 n; if n == 0 then done else encode_raw (take n s)

    unfoldable pub encode_c_string : List ℕ → Encoder
    unfolding encode_string
    encode_c_string memory = encode_string (before_nul memory)

    unfoldable pub encode_ptr : Ptr → Encoder
    encode_ptr p = do
      encode_int w32 p.len
      if p.len == 0 then done else λ st b. some (st, push_back p b)

    unfoldable pub encode_buffer : Buffer → Encoder
    encode_buffer s = do encode_int w32 s.len; λ st b. some (st, append_buffers s b)

    unfoldable pub encode_set : {A : Type 0} → (A → Encoder) → List A → Encoder
    unfolding encode_members
    encode_set e s = do encode_int w32 (length s % u32_mod); encode_members e s
