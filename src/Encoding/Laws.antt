-- ===== src/Encoding/Laws.antt =====
-- What it means that an encoder writes bytes and that a decoder reads them; both compose.
use my_git_hub.Common.{
  ℕ, ◌+◌, ◌≤◌, ◌<◌, ◌≡◌, refl, sym, ap, ◌∙◌, some, List, [], ◌++◌, ◌⊎◌, inl, inr, arith, ltb,
  Bool-cases, take-append-drop, length, take, drop, append_assoc, length-append, length-drop,
}
use my_git_hub.Common.Words.{u32_mod}
use my_git_hub.Buffer.Store.{Ptr, Store}
use my_git_hub.Buffer.Bytes.{
  contents, total, AllFit, length-contents, take-append_left, take_all, drop-drop, drop-append_left,
  drop_all,
}
use my_git_hub.Buffer.Defs.{Cursor, Buffer}
use my_git_hub.Buffer.Valid.{IsValid, Sized}
use my_git_hub.Buffer.Append.{Appended, both-Appended}
use my_git_hub.Buffer.Room.{nothing-Appended}
use my_git_hub.Buffer.Loop.{append_loop-Appended}
use my_git_hub.Buffer.Cursor.{Run, finished, threw, stuck, iterator_copy}
use my_git_hub.Buffer.Place.{IsOk}
use my_git_hub.Buffer.CopyLoop.{Copied, Stands-IsOkAt, iterator_copy-Copied}
use my_git_hub.Encoding.Defs.{Encoder, Decoder, done, ◌>>◌, ◌>>=◌, value, encode_raw, decode_raw}

-- The encoder comes to an end from any valid buffer of the store, and adds the bytes `xs`.
abbrev pub WritesAt : Encoder → List ℕ → Store → Buffer → Type 0
WritesAt f xs st b = (r : Store × Buffer) × (f st b ≡ some r) × Appended st b xs r.0 r.1

abbrev pub Writes : Encoder → List ℕ → Type 0
Writes f xs = (st : Store) (b : Buffer) → IsValid st b → Sized st → WritesAt f xs st b

pub done-Writes : Writes done []
done-Writes st b v s = ((st, b), refl, nothing-Appended st b v s)

-- The second encoder may rely on what the first one left.
pub then-WritesAt :
    (f g : Encoder) (xs ys : List ℕ) (st : Store) (b : Buffer)
    → WritesAt f xs st b
    → ((st' : Store) (b' : Buffer) → Appended st b xs st' b' → WritesAt g ys st' b')
    → WritesAt (f >> g) (xs ++ ys) st b
then-WritesAt f g xs ys st b (r, e, a) k =
    let (r', e', a') = k r.0 r.1 a in rw (e, ◌>>◌) (r', e', both-Appended xs ys a a')

pub then-Writes :
    (f g : Encoder) (xs ys : List ℕ) → Writes f xs → Writes g ys → Writes (f >> g) (xs ++ ys)
then-Writes f g xs ys p q st b v s =
    then-WritesAt f g xs ys st b (p st b v s) (λ st' b' a. q st' b' a.valid a.sized)

-- An iterator of pieces that fit, at an offset before which there are bytes.
pub record Reader (st : Store) (ps : List Ptr) (c : Cursor) : Type 0 where
  pub fit : AllFit st ps
  pub small : total ps < u32_mod
  pub ok : IsOk ps c
  pub inside : c.off ≤ total ps

abbrev pub remaining : Store → List Ptr → Cursor → List ℕ
remaining st ps c = drop c.off (contents st ps)

-- Where the bytes `xs` come next, the decoder gives `a` and stands behind them.
abbrev pub ReadsAt : {A : Type 0} → Decoder A → List ℕ → A → Store → List Ptr → Cursor → Type 0
ReadsAt d xs a st ps c =
    (rest : List ℕ)
    → remaining st ps c ≡ xs ++ rest
    → (c' : Cursor) × (d st ps c ≡ finished (a, c'))
      × Reader st ps c'
      × (remaining st ps c' ≡ rest)
      × (c'.off ≡ c.off + length xs)

-- Where only a part of them comes before the end, there is the exception.
abbrev pub CutAt : {A : Type 0} → Decoder A → List ℕ → Store → List Ptr → Cursor → Type 0
CutAt d xs st ps c =
    (missing : List ℕ) → remaining st ps c ++ missing ≡ xs → 0 < length missing → d st ps c ≡ threw

abbrev pub Reads : {A : Type 0} → Decoder A → List ℕ → A → Type 0
Reads d xs a =
    (st : Store) (ps : List Ptr) (c : Cursor)
    → Reader st ps c
    → ReadsAt d xs a st ps c × CutAt d xs st ps c

module _ (st : Store) (ps : List Ptr) (c : Cursor) (r : Reader st ps c) where
  length-remaining : length (remaining st ps c) + c.off ≡ total ps
  length-remaining =
      omega (arith, r.inside, length-contents st ps r.fit, length-drop c.off (contents st ps))

  raw-ReadsAt :
      (xs : List ℕ) (run : Run (List ℕ × Cursor))
      → Copied st ps c.off (length xs) run
      → (rest : List ℕ) → remaining st ps c ≡ xs ++ rest
      → (c' : Cursor) × (run ≡ finished (xs, c'))
        × Reader st ps c'
        × (remaining st ps c' ≡ rest)
        × (c'.off ≡ c.off + length xs)
  raw-ReadsAt xs threw h rest e =
      absurd (omega (arith, h, length-remaining, ap length e, length-append xs rest))
  raw-ReadsAt xs stuck h rest e = absurd h
  raw-ReadsAt xs (finished (ys, c')) (fits, same, s, off) rest e =
      let read : ys ≡ xs =
        same
        ∙ ap (take (length xs)) e
        ∙ take-append_left (length xs) xs rest (omega arith)
        ∙ take_all (length xs) xs (omega arith) in
      (
        c',
        ap (λ z. finished (z, c')) read,
        record {
          fit = r.fit;
          small = r.small;
          ok = Stands-IsOkAt st ps r.fit r.small c'.node c' s;
          inside = omega arith;
        },
        ap (λ n. drop n (contents st ps)) off
            ∙ sym (drop-drop c.off (length xs) (contents st ps))
            ∙ ap (drop (length xs)) e
            ∙ drop-append_left (length xs) xs rest (omega arith)
            ∙ ap (λ z. z ++ rest) (drop_all (length xs) xs (omega arith)),
        off,
      )

  raw-CutAt :
      (n : ℕ) (run : Run (List ℕ × Cursor))
      → Copied st ps c.off n run
      → length (remaining st ps c) < n
      → run ≡ threw
  raw-CutAt n threw h k = refl
  raw-CutAt n stuck h k = absurd h
  raw-CutAt n (finished (ys, c')) h k = absurd (omega (arith, h.0, length-remaining))

pub decode_raw-Reads : (xs : List ℕ) → Reads (decode_raw (length xs)) xs xs
unfolding decode_raw
decode_raw-Reads xs st ps c r =
    let n = length xs in
    let copied = iterator_copy-Copied st ps r.fit r.small n n c (omega arith) r.ok in
    (
      (λ rest e. raw-ReadsAt st ps c r xs (iterator_copy n n st ps c) copied rest e),
      (λ missing e some_missing.
          raw-CutAt st ps c r n (iterator_copy n n st ps c) copied
            (omega (arith, ap length e, length-append (remaining st ps c) missing))),
    )

-- Two ways to cut the same bytes in two.
abbrev Meets : (a m x y : List ℕ) → Type 0
Meets a m x y =
    ((m' : List ℕ) × (a ++ m' ≡ x) × (0 < length m')) ⊎ ((k : List ℕ) × (a ≡ x ++ k) × (k ++ m ≡ y))

meets : (a m x y : List ℕ) → a ++ m ≡ x ++ y → Meets a m x y
meets a m x y e = elim (Bool-cases (ltb (length a) (length x))) [
  | inl l ↦
      let less : length a < length x = ground arith in
      let front : a ≡ take (length a) x =
        sym (take_all (length a) a (omega arith))
        ∙ sym (take-append_left (length a) a m (omega arith))
        ∙ ap (take (length a)) e
        ∙ take-append_left (length a) x y (omega arith) in
      inl (
        drop (length a) x,
        ap (λ z. z ++ drop (length a) x) front ∙ take-append-drop (length a) x,
        omega (arith, length-drop (length a) x),
      )
  | inr g ↦
      let more : length x ≤ length a = ground arith in
      let front : take (length x) a ≡ x =
        sym (take-append_left (length x) a m more)
        ∙ ap (take (length x)) e
        ∙ take-append_left (length x) x y (omega arith)
        ∙ take_all (length x) x (omega arith) in
      inr (
        drop (length x) a,
        sym (take-append-drop (length x) a) ∙ ap (λ z. z ++ drop (length x) a) front,
        sym (drop-append_left (length x) a m more)
            ∙ ap (drop (length x)) e
            ∙ drop-append_left (length x) x y (omega arith)
            ∙ ap (λ z. z ++ y) (drop_all (length x) x (omega arith)),
      )
]

pub value-Reads : {A : Type 0} (a : A) → Reads (value a) [] a
value-Reads a st ps c r = (
  (λ rest e. (c, refl, r, e, omega arith)),
  (λ missing e some_missing.
      absurd (omega (arith, ap length e, length-append (remaining st ps c) missing))),
)

module _ {A B : Type 0} where
  pub then-Reads :
      (d : Decoder A) (f : A → Decoder B) (xs ys : List ℕ) (a : A) (b : B)
      → Reads d xs a
      → Reads (f a) ys b
      → Reads (d >>= f) (xs ++ ys) b
  then-Reads d f xs ys a b p q st ps c r = (
    (λ rest e.
        let (c', e', r', left, off) = (p st ps c r).0 (ys ++ rest) (e ∙ append_assoc xs ys rest) in
        let (c'', e'', r'', left', off') = (q st ps c' r').0 rest left in
        rw e' (c'', e'', r'', left', omega (arith, length-append xs ys))),
    (λ missing e some_missing. elim (meets (remaining st ps c) missing xs ys e) [
      | inl (more, e', some_more) ↦ rw ((p st ps c r).1 more e' some_more) refl
      | inr (k, e', e'') ↦
          let (c', done, r', left, off) = (p st ps c r).0 k e' in
          let read_on : remaining st ps c' ++ missing ≡ ys = ap (λ z. z ++ missing) left ∙ e'' in
          rw done ((q st ps c' r').1 missing read_on some_missing)
    ]),
  )

  -- The last value depends on what was read only.
  pub map-Reads :
      (d : Decoder A) (f : A → B) (xs : List ℕ) (a : A)
      → Reads d xs a
      → Reads (d >>= λ x. value (f x)) xs (f a)
  map-Reads d f xs a p st ps c r = (
    (λ rest e.
        let (c', e', r', left, off) = (p st ps c r).0 rest e in rw e' (c', refl, r', left, off)),
    (λ missing e some_missing. rw ((p st ps c r).1 missing e some_missing) refl),
  )

module _ (header unit : ℕ) (pos_unit : 0 < unit) where
  -- The length of a text that `append` can take.
  abbrev pub Short : List ℕ → Type 0
  Short xs = length xs + 8 + unit ≤ u32_mod

  pub encode_raw-Writes : (xs : List ℕ) → Short xs → Writes (encode_raw header unit xs) xs
  unfolding encode_raw
  encode_raw-Writes xs h st b v s = append_loop-Appended header unit pos_unit st b v s 0 xs h
