-- ===== src/Buffer/Index.antt =====
-- `operator[]` reads a byte of the contents.
use my_git_hub.Common.{
  ℕ, zero, suc, ◌-◌, ◌≤◌, ◌<◌, ◌≡◌, refl, sym, ap, ◌∙◌, List, [], ◌∷◌, ◌++◌, arith, leb, length,
  take, drop, get_elem?, Bool-cases, inl, inr,
}
use my_git_hub.Common.Words.{u32_mod}
use my_git_hub.Buffer.Store.{Ptr, Store, view}
use my_git_hub.Buffer.Bytes.{contents, total, AllFit, length-view}
use my_git_hub.Buffer.Defs.{Buffer}
use my_git_hub.Buffer.Valid.{IsValid}
use my_git_hub.Buffer.Cursor.{finished, threw}
use my_git_hub.Buffer.Slice.{byte_in, byte_at}

module _ {ℓ} {A : Type ℓ} where
  get_elem?-append_left :
      (xs ys : List A) (n : ℕ) → n < length xs → get_elem? (xs ++ ys) n ≡ get_elem? xs n
  get_elem?-append_left [] ys n h = absurd (omega arith)
  get_elem?-append_left (x ∷ xs) ys zero h = refl
  get_elem?-append_left (x ∷ xs) ys (suc n) h = get_elem?-append_left xs ys n (omega arith)

  get_elem?-append_right :
      (xs ys : List A) (n : ℕ)
      → length xs ≤ n
      → get_elem? (xs ++ ys) n ≡ get_elem? ys (n - length xs)
  get_elem?-append_right [] ys n h = ap (get_elem? ys) (omega arith)
  get_elem?-append_right (x ∷ xs) ys zero h = absurd (omega arith)
  get_elem?-append_right (x ∷ xs) ys (suc n) h =
      get_elem?-append_right xs ys n (omega arith) ∙ ap (get_elem? ys) (omega arith)

  get_elem?-take : (l : ℕ) (xs : List A) (n : ℕ) → n < l → get_elem? (take l xs) n ≡ get_elem? xs n
  get_elem?-take zero xs n h = absurd (omega arith)
  get_elem?-take (suc l) [] n h = refl
  get_elem?-take (suc l) (x ∷ xs) zero h = refl
  get_elem?-take (suc l) (x ∷ xs) (suc n) h = get_elem?-take l xs n (omega arith)

module _ (st : Store) where
  byte_in-get_elem? :
      (ps : List Ptr) (n : ℕ)
      → AllFit st ps
      → n < total ps
      → byte_in st ps n ≡ finished (get_elem? (contents st ps) n)
  unfolding byte_in
  byte_in-get_elem? [] n f h = absurd (omega arith)
  byte_in-get_elem? (p ∷ ps) n f h = elim (Bool-cases (leb p.len n)) [
    | inl y ↦ rw y (
        byte_in-get_elem? ps (n - p.len) f.1 (ground arith)
        ∙ ap finished (
            ap (get_elem? (contents st ps)) (omega (arith, length-view f.0))
            ∙ sym (
                get_elem?-append_right (view st p) (contents st ps) n
                  (ground (arith, length-view f.0)))))
    | inr y ↦ rw y (
        ap finished (
          sym (
            get_elem?-append_left (view st p) (contents st ps) n (ground (arith, length-view f.0))
            ∙ get_elem?-take p.len (drop p.off (st.bytes p.raw)) n (ground arith))))
  ]

  -- `operator[](n)` of a valid buffer whose length fits in 32 bits: the byte of the contents at `n`, or
  -- the exception if they end before it.
  pub byte_at-get_elem? :
      (b : Buffer) (n : ℕ)
      → IsValid st b
      → total b.buffers < u32_mod
      → (n < total b.buffers → byte_at st b n ≡ finished (get_elem? (contents st b.buffers) n))
        × (total b.buffers ≤ n → byte_at st b n ≡ threw)
  unfolding byte_at
  byte_at-get_elem? b n valid small =
      let all : b.len ≡ total b.buffers = omega (arith, valid.counted) in
      elim (Bool-cases (leb b.len n)) [
        | inl y ↦
            let over : total b.buffers ≤ n = ground (arith, all) in
            rw y ((λ k. absurd (omega arith)), (λ k. refl))
        | inr y ↦
            let inside : n < total b.buffers = ground (arith, all) in
            rw y
              ((λ k. byte_in-get_elem? b.buffers n valid.fit inside), (λ k. absurd (omega arith)))
      ]
