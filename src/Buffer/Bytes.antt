-- ===== src/Buffer/Bytes.antt =====
-- Laws of slices of a list of bytes, and of the views of a store.
use my_git_hub.Common.{
  ℕ, zero, suc, ◌+◌, ◌-◌, ◌≤◌, ◌<◌, ◌≡◌, refl, sym, ap, ◌∙◌, List, [], ◌∷◌, ◌++◌, arith, length,
  take, drop, length-append, length-take, length-drop, take-append-drop, append_assoc,
}
use my_git_hub.Buffer.Store.{Ptr, Store, end_of, view, overwrite, fresh_bytes}

suc-add : (a b : ℕ) → suc a + b ≡ suc (a + b)
suc-add a b = omega arith

module _ {ℓ} {A : Type ℓ} where
  take-nil : (n : ℕ) → take {A = A} n [] ≡ []
  take-nil zero = refl
  take-nil (suc n) = refl

  drop-nil : (n : ℕ) → drop {A = A} n [] ≡ []
  drop-nil zero = refl
  drop-nil (suc n) = refl

  pub drop-drop : (a b : ℕ) (xs : List A) → drop b (drop a xs) ≡ drop (a + b) xs
  drop-drop zero b xs = let same : b ≡ 0 + b = omega arith in ap (λ n. drop n xs) same
  drop-drop (suc a) b [] = drop-nil b ∙ sym (drop-nil (suc a + b))
  drop-drop (suc a) b (x ∷ xs) = rw (suc-add a b) (drop-drop a b xs)

  -- Two slices in a row are one.
  pub take-add : (a b : ℕ) (xs : List A) → take (a + b) xs ≡ take a xs ++ take b (drop a xs)
  take-add zero b xs = let same : 0 + b ≡ b = omega arith in ap (λ n. take n xs) same
  take-add (suc a) b [] = take-nil (suc a + b) ∙ sym (take-nil b)
  take-add (suc a) b (x ∷ xs) = rw (suc-add a b) (ap (◌∷◌ x) (take-add a b xs))

  pub take_all : (n : ℕ) (xs : List A) → length xs ≤ n → take n xs ≡ xs
  take_all n [] h = take-nil n
  take_all zero (x ∷ xs) h = absurd (omega arith)
  take_all (suc n) (x ∷ xs) h = ap (◌∷◌ x) (take_all n xs (omega arith))

  pub drop_all : (n : ℕ) (xs : List A) → length xs ≤ n → drop n xs ≡ []
  drop_all n [] h = drop-nil n
  drop_all zero (x ∷ xs) h = absurd (omega arith)
  drop_all (suc n) (x ∷ xs) h = drop_all n xs (omega arith)

  pub take-append_left : (n : ℕ) (xs ys : List A) → n ≤ length xs → take n (xs ++ ys) ≡ take n xs
  take-append_left zero xs ys h = refl
  take-append_left (suc n) [] ys h = absurd (omega arith)
  take-append_left (suc n) (x ∷ xs) ys h = ap (◌∷◌ x) (take-append_left n xs ys (omega arith))

  pub drop-append_left :
      (n : ℕ) (xs ys : List A) → n ≤ length xs → drop n (xs ++ ys) ≡ drop n xs ++ ys
  drop-append_left zero xs ys h = refl
  drop-append_left (suc n) [] ys h = absurd (omega arith)
  drop-append_left (suc n) (x ∷ xs) ys h = drop-append_left n xs ys (omega arith)

  pub drop-append_right :
      (n : ℕ) (xs ys : List A) → length xs ≤ n → drop n (xs ++ ys) ≡ drop (n - length xs) ys
  drop-append_right n [] ys h = ap (λ k. drop k ys) (omega arith)
  drop-append_right zero (x ∷ xs) ys h = absurd (omega arith)
  drop-append_right (suc n) (x ∷ xs) ys h =
      drop-append_right n xs ys (omega arith) ∙ ap (λ k. drop k ys) (omega arith)

  pub take-append_right :
      (n : ℕ) (xs ys : List A) → length xs ≤ n → take n (xs ++ ys) ≡ xs ++ take (n - length xs) ys
  take-append_right n [] ys h = ap (λ k. take k ys) (omega arith)
  take-append_right zero (x ∷ xs) ys h = absurd (omega arith)
  take-append_right (suc n) (x ∷ xs) ys h =
      ap (◌∷◌ x) (take-append_right n xs ys (omega arith) ∙ ap (λ k. xs ++ take k ys) (omega arith))

  -- A slice of the first of two lists.
  pub slice-append_left :
      (o l : ℕ) (xs ys : List A)
      → o + l ≤ length xs
      → take l (drop o (xs ++ ys)) ≡ take l (drop o xs)
  slice-append_left o l xs ys h =
      ap (take l) (drop-append_left o xs ys (omega arith))
      ∙ take-append_left l (drop o xs) ys (omega (arith, length-drop o xs))

  pub slice-append_right :
      (o l : ℕ) (xs ys : List A)
      → length xs ≤ o
      → take l (drop o (xs ++ ys)) ≡ take l (drop (o - length xs) ys)
  slice-append_right o l xs ys h = ap (take l) (drop-append_right o xs ys h)

  pub length-slice : (o l : ℕ) (xs : List A) → o + l ≤ length xs → length (take l (drop o xs)) ≡ l
  length-slice o l xs h = omega (arith, length-take l (drop o xs), length-drop o xs)

-- What a write of `src` at `o` does to the slices of `xs`.
module _ (o : ℕ) (src xs : List ℕ) (fits : o + length src ≤ length xs) where
  length-front : length (take o xs) ≡ o
  length-front = omega (arith, length-take o xs)

  pub length-overwrite : length (overwrite o src xs) ≡ length xs
  length-overwrite = omega (
    arith,
    length-append {0} (take o xs) (src ++ drop (o + length src) xs),
    length-append {0} src (drop (o + length src) xs),
    length-front,
    length-drop {0} (o + length src) xs,
  )

  pub overwrite-before :
      (a l : ℕ) → a + l ≤ o → take l (drop a (overwrite o src xs)) ≡ take l (drop a xs)
  overwrite-before a l h =
      slice-append_left a l (take o xs) (src ++ drop (o + length src) xs)
        (omega (arith, length-front))
      ∙ sym (slice-append_left a l (take o xs) (drop o xs) (omega (arith, length-front)))
      ∙ ap (λ z. take l (drop a z)) (take-append-drop o xs)

  pub overwrite-at : take (length src) (drop o (overwrite o src xs)) ≡ src
  overwrite-at =
      let start : o - length (take o xs) ≡ 0 = omega (arith, length-front) in
      slice-append_right o (length src) (take o xs) (src ++ drop (o + length src) xs)
        (omega (arith, length-front))
      ∙ ap (λ k. take (length src) (drop k (src ++ drop (o + length src) xs))) start
      ∙ take-append_left (length src) src (drop (o + length src) xs) (omega arith)
      ∙ take_all (length src) src (omega arith)

  pub overwrite-behind :
      (a l : ℕ) → o + length src ≤ a → take l (drop a (overwrite o src xs)) ≡ take l (drop a xs)
  overwrite-behind a l h =
      slice-append_right a l (take o xs) (src ++ drop (o + length src) xs)
        (omega (arith, length-front))
      ∙ slice-append_right (a - length (take o xs)) l src (drop (o + length src) xs)
          (omega (arith, length-front))
      ∙ ap (take l) (drop-drop (o + length src) (a - length (take o xs) - length src) xs)
      ∙ ap (λ k. take l (drop k xs)) (omega (arith, length-front))

pub length-fresh_bytes : (junk : ℕ → ℕ) (n : ℕ) → length (fresh_bytes junk n) ≡ n
unfolding fresh_bytes
length-fresh_bytes junk zero = refl
length-fresh_bytes junk (suc n) =
    omega (arith, length-append {0} (fresh_bytes junk n) (junk n ∷ []), length-fresh_bytes junk n)

-- The bytes of a list of `ptr`s, and their number.
abbrev pub contents : Store → List Ptr → List ℕ
contents st [] = []
contents st (p ∷ ps) = view st p ++ contents st ps

abbrev pub total : List Ptr → ℕ
total [] = 0
total (p ∷ ps) = p.len + total ps

-- A `ptr` that has bytes, all of them in a raw of the store.
pub record Fits (st : Store) (p : Ptr) : Type 0 where
  pub made : p.raw < st.next
  pub some_bytes : 0 < p.len
  pub within : end_of p ≤ length (st.bytes p.raw)

abbrev pub AllFit : Store → List Ptr → Type 0
AllFit st [] = Unit {0}
AllFit st (p ∷ ps) = Fits st p × AllFit st ps

pub length-view : {st : Store} {p : Ptr} → Fits st p → length (view st p) ≡ p.len
length-view {st} {p} f = length-slice p.off p.len (st.bytes p.raw) f.within

pub length-contents :
    (st : Store) (ps : List Ptr) → AllFit st ps → length (contents st ps) ≡ total ps
length-contents st [] a = refl
length-contents st (p ∷ ps) a = omega (
  arith,
  length-append {0} (view st p) (contents st ps),
  length-view a.0,
  length-contents st ps a.1,
)

pub contents-append :
    (st : Store) (ps qs : List Ptr) → contents st (ps ++ qs) ≡ contents st ps ++ contents st qs
contents-append st [] qs = refl
contents-append st (p ∷ ps) qs =
    ap (λ z. view st p ++ z) (contents-append st ps qs)
    ∙ sym (append_assoc (view st p) (contents st ps) (contents st qs))

pub total-append : (ps qs : List Ptr) → total (ps ++ qs) ≡ total ps + total qs
total-append [] qs = omega arith
total-append (p ∷ ps) qs = omega (arith, total-append ps qs)
