-- ===== src/Encoding/Values.antt =====
-- The numbers, flags and texts of trunk/include/common/encoding.h: what is written for each of them,
-- on a host of either byte order, and that it is read back.
use my_git_hub.Common.{
  ℕ, ◌+◌, ◌%◌, ◌≤◌, ◌<◌, ◌≡◌, refl, sym, ap, ◌∙◌, subst, Bool, true, false, List, [], ◌∷◌, ◌++◌,
  arith, ◌==◌, if◌then◌else◌, length, reverse, not, Bool-cases, inl, inr,
}
use my_git_hub.Common.Words.{u32_mod}
use my_git_hub.ByteOrder.Defs.{assign, convert}
use my_git_hub.ByteOrder.Swaps.{
  bytes, Width, w16, w32, w64, size, limit, swab, bytes-swab, reverse_twice, swab-join, swab_twice,
  join-bytes, join, length-reverse-bytes,
}
use my_git_hub.Buffer.Store.{overwrite, zeros}
use my_git_hub.Buffer.Bytes.{take_all}
use my_git_hub.Encoding.Defs.{
  Host, ◌>>=◌, value, done, to_memory, from_memory, before_nul, encode_raw, decode_raw, encode_bool,
  decode_bool, encode_int, decode_int, encode_string, decode_string, encode_c_string,
  decode_c_string,
}
use my_git_hub.Encoding.Laws.{
  Writes, Reads, Short, done-Writes, then-Writes, encode_raw-Writes, decode_raw-Reads, then-Reads,
  map-Reads,
}

-- What is written for a number of `n` bytes: the lowest byte first where `BIG_ENDIAN` is defined just
-- on the hosts that keep the highest byte first, and else the highest first.
abbrev pub int_image : Host → ℕ → ℕ → List ℕ
int_image host n x =
    let same = if host.big_endian then host.swaps else not host.swaps in
    if same then bytes n x else reverse (bytes n x)

-- The two settings of a host, for the proofs by cases.
abbrev host_of : Bool → Bool → Host
host_of e s = record { big_endian = e; swaps = s }

assigned :
    (e s : Bool) (w : Width) (x : ℕ)
    → x < limit w
    → to_memory e (size w) (assign s (swab w) x).v ≡ int_image (host_of e s) (size w) x
unfolding assign
assigned true true w x h = ap reverse (bytes-swab w x h) ∙ reverse_twice w x
assigned true false w x h = refl
assigned false true w x h = bytes-swab w x h
assigned false false w x h = refl

converted :
    (e s : Bool) (w : Width) (x : ℕ)
    → x < limit w
    → convert s (swab w) (record { v = from_memory e (int_image (host_of e s) (size w) x) }) ≡ x
unfolding convert
converted true true w x h = ap (swab w) (sym (swab-join w x h)) ∙ swab_twice w x h
converted true false w x h = ap join (reverse_twice w x) ∙ join-bytes w x h
converted false true w x h = ap (swab w) (sym (swab-join w x h)) ∙ swab_twice w x h
converted false false w x h = join-bytes w x h

length-bytes : (w : Width) (x : ℕ) → length (bytes (size w) x) ≡ size w
unfolding bytes
length-bytes w16 x = refl
length-bytes w32 x = refl
length-bytes w64 x = refl

pub length-int_image :
    (host : Host) (w : Width) (x : ℕ) → length (int_image host (size w) x) ≡ size w
length-int_image host w x = go host.big_endian host.swaps
  where
    go : (e s : Bool) → length (int_image (host_of e s) (size w) x) ≡ size w
    go true true = length-bytes w x
    go true false = length-reverse-bytes w x
    go false true = length-reverse-bytes w x
    go false false = length-bytes w x

pub decode_int-Reads :
    (host : Host) (w : Width) (x : ℕ)
    → x < limit w
    → Reads (decode_int host w) (int_image host (size w) x) x
unfolding decode_int
decode_int-Reads host w x h =
    let from : List ℕ → ℕ =
      λ xs. convert host.swaps (swab w) (record { v = from_memory host.big_endian xs }) in
    subst (Reads (decode_raw (size w) >>= λ xs. value (from xs)) (int_image host (size w) x))
      (converted host.big_endian host.swaps w x h)
      (map-Reads (decode_raw (size w)) from (int_image host (size w) x) (int_image host (size w) x)
        (subst (λ n. Reads (decode_raw n) (int_image host (size w) x) (int_image host (size w) x))
          (length-int_image host w x) (decode_raw-Reads (int_image host (size w) x))))

abbrev pub bool_image : Bool → List ℕ
bool_image v = (if v then 1 else 0) ∷ []

pub decode_bool-Reads : (v : Bool) → Reads decode_bool (bool_image v) v
unfolding decode_bool
decode_bool-Reads true = map-Reads (decode_raw 1) _ (1 ∷ []) (1 ∷ []) (decode_raw-Reads (1 ∷ []))
decode_bool-Reads false = map-Reads (decode_raw 1) _ (0 ∷ []) (0 ∷ []) (decode_raw-Reads (0 ∷ []))

-- What is written for a text: its length, and its bytes.
abbrev pub text_image : Host → List ℕ → List ℕ
text_image host s = int_image host 4 (length s) ++ s

pub decode_string-Reads :
    (host : Host) (s : List ℕ)
    → length s < u32_mod
    → Reads (decode_string host) (text_image host s) s
unfolding decode_string
decode_string-Reads host s h =
    then-Reads (decode_int host w32) decode_raw (int_image host 4 (length s)) s (length s) s
      (decode_int-Reads host w32 (length s) h) (decode_raw-Reads s)

-- A text that is read to a `char*`: the memory that was `old` begins with it.
abbrev pub c_memory : ℕ → List ℕ → List ℕ → List ℕ
c_memory pointer_size old s = overwrite 0 s (overwrite 0 (zeros pointer_size) old)

pub decode_c_string-Reads :
    (host : Host) (pointer_size : ℕ) (old s : List ℕ)
    → length s < u32_mod
    → Reads
        (decode_c_string host pointer_size old)
        (text_image host s)
        (c_memory pointer_size old s)
unfolding decode_c_string
decode_c_string-Reads host pointer_size old s h =
    then-Reads (decode_int host w32) _ (int_image host 4 (length s)) s (length s)
      (c_memory pointer_size old s) (decode_int-Reads host w32 (length s) h)
      (map-Reads (decode_raw (length s)) (c_memory pointer_size old) s s (decode_raw-Reads s))

module _ (header unit : ℕ) (pos_unit : 0 < unit) (small_unit : unit + 16 ≤ u32_mod)
    (host : Host) where
  pub encode_bool-Writes : (v : Bool) → Writes (encode_bool header unit v) (bool_image v)
  unfolding encode_bool
  encode_bool-Writes v = encode_raw-Writes header unit pos_unit (bool_image v) (omega arith)

  pub encode_int-Writes :
      (w : Width) (x : ℕ)
      → x < limit w
      → Writes (encode_int header unit host w x) (int_image host (size w) x)
  unfolding encode_int
  encode_int-Writes w x h =
      subst (λ xs. Writes (encode_raw header unit xs) (int_image host (size w) x))
        (sym (assigned host.big_endian host.swaps w x h))
        (encode_raw-Writes header unit pos_unit (int_image host (size w) x) (short w))
    where
      short : (v : Width) → Short header unit pos_unit (int_image host (size v) x)
      short v = omega (arith, length-int_image host v x, at_most v)
        where
          at_most : (u : Width) → size u ≤ 8
          at_most w16 = omega arith
          at_most w32 = omega arith
          at_most w64 = omega arith

  pub encode_string-Writes :
      (s : List ℕ)
      → length s + 8 + unit ≤ u32_mod
      → Writes (encode_string header unit host s) (text_image host s)
  unfolding encode_string
  encode_string-Writes s h =
      let fits : length s % u32_mod ≡ length s = omega arith in
      rw fits (
        then-Writes (encode_int header unit host w32 (length s)) _ (int_image host 4 (length s)) s
          (encode_int-Writes w32 (length s) (omega arith))
          (elim (Bool-cases (length s == 0)) [
            | inl y ↦ rw y (subst (Writes done) (nothing s (ground arith)) done-Writes)
            | inr n ↦ rw n (
                subst (λ xs. Writes (encode_raw header unit xs) s)
                  (sym (take_all (length s) s (omega arith)))
                  (encode_raw-Writes header unit pos_unit s h))
          ]))
    where
      nothing : (xs : List ℕ) → length xs ≡ 0 → [] ≡ xs
      nothing [] e = refl
      nothing (x ∷ xs) e = absurd (omega arith)

  pub encode_c_string-Writes :
      (memory : List ℕ)
      → length (before_nul memory) + 8 + unit ≤ u32_mod
      → Writes (encode_c_string header unit host memory) (text_image host (before_nul memory))
  unfolding encode_c_string
  encode_c_string-Writes memory h = encode_string-Writes (before_nul memory) h
