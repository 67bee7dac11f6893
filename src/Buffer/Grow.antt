-- ===== src/Buffer/Grow.antt =====
-- A list of pieces that grows at its end, as `append` has it: new pieces, or a longer last one.
use my_git_hub.Common.{
  ℕ, zero, suc, ◌≤◌, ◌<◌, ◌≡◌, refl, ap, List, [], ◌∷◌, ◌++◌, arith, length, take, drop,
}
use my_git_hub.Buffer.Store.{Ptr}

pub data Grows : List Ptr → List Ptr → Type 0 where
  stop : (qs : List Ptr) → Grows [] qs
  lengthen : (l l' : Ptr) → l.len ≤ l'.len → Grows (l ∷ []) (l' ∷ [])
  behind : (l : Ptr) (ps qs : List Ptr) → Grows ps qs → Grows (l ∷ ps) (l ∷ qs)

pub append-Grows : (ps qs : List Ptr) → Grows ps (ps ++ qs)
append-Grows [] qs = stop qs
append-Grows (l ∷ ps) qs = behind l ps (ps ++ qs) (append-Grows ps qs)

-- A place in the first of the pieces, or at the end of them.
abbrev pub Inside : ℕ → List Ptr → Type 0
Inside p_off [] = p_off ≡ 0
Inside p_off (p ∷ ps) = p_off < p.len

-- What is before a node stays, and its piece does not become shorter.
pub Grows-node :
    (ps qs : List Ptr) (k o : ℕ)
    → Grows ps qs
    → k < length ps
    → Inside o (drop k ps)
    → (take k qs ≡ take k ps) × (k < length qs) × Inside o (drop k qs)
Grows-node ps qs k o (stop _) h i = absurd (omega arith)
Grows-node ps qs zero o (lengthen l l' n) h i = (refl, omega arith, omega arith)
Grows-node ps qs (suc k) o (lengthen l l' n) h i = absurd (omega arith)
Grows-node ps qs zero o (behind l xs ys g) h i = (refl, omega arith, i)
Grows-node ps qs (suc k) o (behind l xs ys g) h i =
    let (front, real, inside) = Grows-node xs ys k o g (omega arith) i in
    (ap (◌∷◌ l) front, omega (arith, real), inside)
