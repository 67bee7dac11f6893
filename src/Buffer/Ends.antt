-- ===== src/Buffer/Ends.antt =====
-- A list of pieces that is cut in two, and its contents.
use my_git_hub.Common.{
  ℕ, zero, suc, ◌+◌, ◌-◌, ◌≡◌, refl, ap, ◌∙◌, subst, Option, List, [], ◌∷◌, ◌++◌, arith, leb,
  length, take, drop, Bool-cases, inl, inr,
}
use my_git_hub.Buffer.Store.{Ptr, Store}
use my_git_hub.Buffer.Bytes.{
  contents, total, AllFit, length-contents, contents-append, take-append_right, drop-append_right,
}
use my_git_hub.Buffer.Valid.{AllBefore}
use my_git_hub.Buffer.Slice.{skip}
use my_git_hub.Buffer.Splice.{skipped}

pub skipped-append : (off : ℕ) (ps : List Ptr) → ps ≡ skipped off ps ++ (skip off ps).1
unfolding skip skipped
skipped-append zero ps = refl
skipped-append (suc off) [] = refl
skipped-append (suc off) (p ∷ ps) = elim (Bool-cases (leb p.len (suc off))) [
  | inl y ↦ rw y (ap (◌∷◌ p) (skipped-append (suc off - p.len) ps))
  | inr y ↦ rw y refl
]

pub AllBefore-parts :
    (a : Option Ptr) (pre qs : List Ptr)
    → AllBefore a (pre ++ qs)
    → AllBefore a pre × AllBefore a qs
AllBefore-parts a [] qs b = (tt, b)
AllBefore-parts a (p ∷ ps) qs b = let (x, y) = AllBefore-parts a ps qs b.1 in ((b.0, x), y)

pub AllFit-parts :
    (st : Store) (pre qs : List Ptr) → AllFit st (pre ++ qs) → AllFit st pre × AllFit st qs
AllFit-parts st [] qs b = (tt, b)
AllFit-parts st (p ∷ ps) qs b = let (x, y) = AllFit-parts st ps qs b.1 in ((b.0, x), y)

-- The contents of a list that is cut in two at the piece in which the offset `off` is.
module _ (st : Store) (ps pre qs : List Ptr) (fit : AllFit st ps) (j : ps ≡ pre ++ qs) (off o : ℕ)
    (e : total pre + o ≡ off) where
  size : length (contents st pre) ≡ total pre
  size = length-contents st pre (AllFit-parts st pre qs (subst (AllFit st) j fit)).0

  all : contents st ps ≡ contents st pre ++ contents st qs
  all = ap (contents st) j ∙ contents-append st pre qs

  pub take-contents : take off (contents st ps) ≡ contents st pre ++ take o (contents st qs)
  take-contents =
      let left : off - length (contents st pre) ≡ o = omega (arith, size) in
      ap (take off) all
      ∙ take-append_right off (contents st pre) (contents st qs) (omega (arith, size))
      ∙ ap (λ k. contents st pre ++ take k (contents st qs)) left

  pub drop-contents : (n : ℕ) → drop (off + n) (contents st ps) ≡ drop (o + n) (contents st qs)
  drop-contents n =
      let left : off + n - length (contents st pre) ≡ o + n = omega (arith, size) in
      ap (drop (off + n)) all
      ∙ drop-append_right (off + n) (contents st pre) (contents st qs) (omega (arith, size))
      ∙ ap (λ k. drop k (contents st qs)) left
