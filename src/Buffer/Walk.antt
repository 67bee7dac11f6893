-- ===== src/Buffer/Walk.antt =====
-- Where the iterator of a `buffer` stands, and where `advance` and `seek` take it.
use my_git_hub.Common.{
  ℕ, zero, suc, ◌+◌, ◌-◌, ◌≤◌, ◌<◌, ◌≡◌, refl, sym, ap, ◌∙◌, subst, Option, none, some, List, [],
  ◌∷◌, ◌++◌, arith, leb, length, drop, append_assoc, Bool-cases, inl, inr,
}
use my_git_hub.Common.Words.{add32, u32_mod}
use my_git_hub.Buffer.Store.{Ptr, Store}
use my_git_hub.Buffer.Bytes.{
  contents, total, AllFit, contents-append, drop-append_right, drop-drop, length-contents,
}
use my_git_hub.Buffer.Defs.{Cursor, begin}
use my_git_hub.Buffer.Bytes.{total-append}
use my_git_hub.Buffer.Cursor.{
  Run, finished, threw, stuck, at_node, node_of, and_then, walk, walk_node, advance, seek,
}
use my_git_hub.Common.{length-drop}
use my_git_hub.Buffer.Grow.{Inside}
use my_git_hub.Buffer.Place.{Stands, IsOk}

drop-tail : (k : ℕ) (ps qs : List Ptr) (p : Ptr) → drop k ps ≡ p ∷ qs → drop (suc k) ps ≡ qs
drop-tail k ps qs p e =
    let next : suc k ≡ k + 1 = omega arith in
    ap (λ n. drop n ps) next ∙ sym (drop-drop k 1 ps) ∙ ap (drop 1) e

module _ (ps : List Ptr) where
  Stands-node_of :
      (p_off k : ℕ) (pre qs : List Ptr)
      → drop k ps ≡ qs
      → ps ≡ pre ++ qs
      → Inside p_off qs
      → Stands ps (record { off = total pre + p_off; node = node_of k qs; p_off = p_off })
  Stands-node_of p_off k pre [] d j i = record {
    pre = pre;
    joined = j;
    offset = refl;
    inside = i;
    real = tt;
  }
  Stands-node_of p_off k pre (p ∷ qs) d j i = record {
    pre = pre;
    joined = subst (λ z. ps ≡ pre ++ z) (sym d) j;
    offset = refl;
    inside = subst (Inside p_off) (sym d) i;
    real = omega (arith, length-drop k ps, ap length d);
  }

  -- What a walk to the offset `off` comes to.
  abbrev pub Walked : ℕ → Run (Option ℕ × ℕ) → Type 0
  Walked off threw = total ps < off
  Walked off stuck = ⊥
  Walked off (finished (at, q)) = Stands ps (record { off = off; node = at; p_off = q })

  walk-Walked :
      (st : Store) (p_off k : ℕ) (pre qs : List Ptr)
      → drop k ps ≡ qs
      → ps ≡ pre ++ qs
      → AllFit st qs
      → Walked (total pre + p_off) (walk p_off k qs)
  unfolding walk
  walk-Walked st zero k pre [] d j fit = Stands-node_of 0 k pre [] d j refl
  walk-Walked st zero k pre (p ∷ qs) d j fit = Stands-node_of 0 k pre (p ∷ qs) d j fit.0.some_bytes
  walk-Walked st (suc p_off) k pre [] d j fit = omega (arith, ap total j, total-append pre [])
  walk-Walked st (suc p_off) k pre (p ∷ qs) d j fit = elim (Bool-cases (leb p.len (suc p_off))) [
    | inl y ↦
        let rest : ℕ = suc p_off - p.len in
        let off : total (pre ++ p ∷ []) + rest ≡ total pre + suc p_off =
          ground (arith, total-append pre (p ∷ [])) in
        rw y (
          subst (λ z. Walked z (walk rest (suc k) qs)) off
            (walk-Walked st rest (suc k) (pre ++ p ∷ []) qs (drop-tail k ps qs p d)
              (j ∙ sym (append_assoc pre (p ∷ []) qs)) fit.1))
    | inr y ↦ rw y (Stands-node_of (suc p_off) k pre (p ∷ qs) d j (ground arith))
  ]

  walk_node-Walked :
      (st : Store) (p_off : ℕ) (node : Option ℕ) (pre : List Ptr)
      → ps ≡ pre ++ at_node node ps
      → AllFit st (at_node node ps)
      → Walked (total pre + p_off) (walk_node p_off node ps)
  unfolding walk
  walk_node-Walked st zero none pre j fit = record {
    pre = pre;
    joined = j;
    offset = refl;
    inside = refl;
    real = tt;
  }
  walk_node-Walked st (suc p_off) none pre j fit = omega (arith, ap total j, total-append pre [])
  walk_node-Walked st p_off (some k) pre j fit = walk-Walked st p_off k pre (drop k ps) refl j fit

pub AllFit-behind :
    (st : Store) (ps pre qs : List Ptr) → ps ≡ pre ++ qs → AllFit st ps → AllFit st qs
AllFit-behind st ps pre qs j fit = behind pre (subst (AllFit st) j fit)
  where
    behind : (xs : List Ptr) → AllFit st (xs ++ qs) → AllFit st qs
    behind [] f = f
    behind (x ∷ xs) f = behind xs f.1

AllFit-before : (st : Store) (ps pre qs : List Ptr) → ps ≡ pre ++ qs → AllFit st ps → AllFit st pre
AllFit-before st ps pre qs j fit = before pre (subst (AllFit st) j fit)
  where
    before : (xs : List Ptr) → AllFit st (xs ++ qs) → AllFit st xs
    before [] f = tt
    before (x ∷ xs) f = (f.0, before xs f.1)

Stands-front : (st : Store) (ps : List Ptr) → AllFit st ps → Stands ps (begin ps)
Stands-front st [] fit = record {
  pre = [];
  joined = refl;
  offset = omega arith;
  inside = refl;
  real = tt;
}
Stands-front st (p ∷ ps) fit = record {
  pre = [];
  joined = refl;
  offset = omega arith;
  inside = fit.0.some_bytes;
  real = omega arith;
}

pub begin-IsOk : (st : Store) (ps : List Ptr) → AllFit st ps → IsOk ps (begin ps)
begin-IsOk st [] fit = omega arith
begin-IsOk st (p ∷ ps) fit = Stands-front st (p ∷ ps) fit

-- What a move of a cursor to the offset `off` comes to.
abbrev pub Moved : List Ptr → ℕ → Run Cursor → Type 0
Moved ps off threw = total ps < off
Moved ps off stuck = ⊥
Moved ps off (finished c) = Stands ps c × (c.off ≡ off)

module _ (st : Store) (ps : List Ptr) (fit : AllFit st ps) where
  moved :
      (off : ℕ) (r : Run (Option ℕ × ℕ))
      → Walked ps off r
      → Moved ps off
          (and_then r λ (at, p_off). finished (record { off = off; node = at; p_off = p_off }))
  moved off threw h = h
  moved off stuck h = h
  moved off (finished (at, q)) h = (h, refl)

  pub Stands-begin : Stands ps (begin ps)
  Stands-begin = Stands-front st ps fit

  pub advance-Moved :
      (o : ℕ) (c : Cursor)
      → c.off + o < u32_mod
      → Stands ps c
      → Moved ps (c.off + o) (advance o ps c)
  unfolding advance
  advance-Moved zero c small s = (s, omega arith)
  advance-Moved (suc o) c small s =
      let off : add32 c.off (suc o) ≡ c.off + suc o = omega arith in
      let p_off : add32 c.p_off (suc o) ≡ c.p_off + suc o = omega (arith, s.offset) in
      let there : total s.pre + (c.p_off + suc o) ≡ c.off + suc o = omega (arith, s.offset) in
      rw (off, p_off)
        (moved (c.off + suc o) (walk_node (c.p_off + suc o) c.node ps) (
          subst (λ z. Walked ps z (walk_node (c.p_off + suc o) c.node ps)) there
            (walk_node-Walked ps st (c.p_off + suc o) c.node s.pre s.joined
              (AllFit-behind st ps s.pre (at_node c.node ps) s.joined fit))))

  pub seek-Moved : (o : ℕ) → o < u32_mod → Moved ps o (seek o ps)
  unfolding seek
  seek-Moved o small =
      subst (λ z. Moved ps z (advance o ps (begin ps))) (omega arith)
        (advance-Moved o (begin ps) (omega arith) Stands-begin)

  -- What is behind the cursor.
  pub drop-contents :
      (c : Cursor)
      → Stands ps c
      → drop c.off (contents st ps) ≡ drop c.p_off (contents st (at_node c.node ps))
  drop-contents c s =
      let qs : List Ptr = at_node c.node ps in
      let size : length (contents st s.pre) ≡ total s.pre =
        length-contents st s.pre (AllFit-before st ps s.pre qs s.joined fit) in
      ap (λ z. drop c.off (contents st z)) s.joined
      ∙ ap (drop c.off) (contents-append st s.pre qs)
      ∙ drop-append_right c.off (contents st s.pre) (contents st qs) (omega (arith, s.offset))
      ∙ ap (λ n. drop n (contents st qs)) (omega (arith, s.offset))

-- How many bytes are behind the cursor.
pub Stands-remaining :
    (ps : List Ptr) (c : Cursor)
    → Stands ps c
    → (c.off ≤ total ps) × (c.off + total (at_node c.node ps) ≡ total ps + c.p_off)
Stands-remaining ps c s =
    let qs : List Ptr = at_node c.node ps in
    let all : total ps ≡ total s.pre + total qs = ap total s.joined ∙ total-append s.pre qs in
    let low : c.p_off ≤ total qs = inside qs s.inside in
    (omega (arith, s.offset), omega (arith, s.offset))
  where
    inside : (qs : List Ptr) → Inside c.p_off qs → c.p_off ≤ total qs
    inside [] i = omega arith
    inside (q ∷ qs) i = omega arith
