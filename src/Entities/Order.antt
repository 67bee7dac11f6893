-- ===== src/Entities/Order.antt =====
-- The comparisons of trunk/include/net/msg_types.h.
use my_git_hub.Common.{
  ℕ, ◌^◌, ◌<◌, ◌≡◌, refl, sym, ap, ap₂, ◌∙◌, subst, Bool-cases, inl, inr, Bool, true, false, ◌&&◌,
  ◌||◌, not, List, [], ◌∷◌, arith, ◌==◌, ◌-◌, ltb, if◌then◌else◌,
}
use my_git_hub.Common.Int.{ℤ, pos, negsuc, ltb_ℤ}
use my_git_hub.Entities.Defs.{
  EntityName, EntityInst, name_eq, name_ne, name_lt, bytes_eq, bytes_lt, memory_of, addr_eq,
  addr_lt, addr_le, inst_eq, inst_ne, inst_lt, inst_le,
}

-- A strict and total order, up to an equality, of the values with `Ok`.
pub record IsOrder {A : Type 0} (Ok : A → Type 0) (lt eq : A → A → Bool) : Type 0 where
  pub same : (a : A) → Ok a → eq a a ≡ true
  pub symmetric : (a b : A) → Ok a → Ok b → eq a b ≡ true → eq b a ≡ true
  pub joined : (a b c : A) → Ok a → Ok b → Ok c → eq a b ≡ true → eq b c ≡ true → eq a c ≡ true
  pub irreflexive : (a b : A) → Ok a → Ok b → eq a b ≡ true → lt a b ≡ false
  pub asymmetric : (a b : A) → Ok a → Ok b → lt a b ≡ true → lt b a ≡ false
  pub total : (a b : A) → Ok a → Ok b → lt a b ≡ false → lt b a ≡ false → eq a b ≡ true
  pub transitive : (a b c : A) → Ok a → Ok b → Ok c → lt a b ≡ true → lt b c ≡ true → lt a c ≡ true
  pub left : (a b c : A) → Ok a → Ok b → Ok c → eq a b ≡ true → lt b c ≡ true → lt a c ≡ true
  pub right : (a b c : A) → Ok a → Ok b → Ok c → lt a b ≡ true → eq b c ≡ true → lt a c ≡ true

name-IsOrder : IsOrder (λ e. (e.type < 256) × (e.num < 2 ^ 64)) name_lt name_eq
unfolding name_lt name_eq
name-IsOrder = record {
  same = λ a h. ground arith;
  symmetric = λ a b h k e. ground arith;
  joined = λ a b c h k l e f. ground arith;
  irreflexive = λ a b h k e. ground arith;
  asymmetric = λ a b h k e. ground arith;
  total = λ a b h k e f. ground arith;
  transitive = λ a b c h k l e f. ground arith;
  left = λ a b c h k l e f. ground arith;
  right = λ a b c h k l e f. ground arith;
}

-- Where the equality tells all values apart, less is enough.
module _ {A : Type 0} (lt eq : A → A → Bool) (eq→path : (a b : A) → eq a b ≡ true → a ≡ b)
    (same : (a : A) → eq a a ≡ true) (irreflexive : (a : A) → lt a a ≡ false)
    (total : (a b : A) → lt a b ≡ false → lt b a ≡ false → eq a b ≡ true)
    (transitive : (a b c : A) → lt a b ≡ true → lt b c ≡ true → lt a c ≡ true) where
  asymmetric_lem : (a b : A) → lt a b ≡ true → lt b a ≡ false
  asymmetric_lem a b h = elim (Bool-cases (lt b a)) [
    | inl y ↦ absurd (ground (arith, transitive a b a h y, irreflexive a))
    | inr n ↦ n
  ]

  exact-IsOrder : IsOrder (λ a. Unit {0}) lt eq
  exact-IsOrder = record {
    same = λ a h. same a;
    symmetric = λ a b h k e. subst (λ z. eq z a ≡ true) (eq→path a b e) (same a);
    joined = λ a b c h k l e f. subst (λ z. eq a z ≡ true) (eq→path b c f) e;
    irreflexive = λ a b h k e. subst (λ z. lt a z ≡ false) (eq→path a b e) (irreflexive a);
    asymmetric = λ a b h k. asymmetric_lem a b;
    total = λ a b h k. total a b;
    transitive = λ a b c h k l. transitive a b c;
    left = λ a b c h k l e f. subst (λ z. lt z c ≡ true) (sym (eq→path a b e)) f;
    right = λ a b c h k l e f. subst (λ z. lt a z ≡ true) (eq→path b c f) e;
  }

bytes_eq→path : (xs ys : List ℕ) → bytes_eq xs ys ≡ true → xs ≡ ys
bytes_eq→path [] [] h = refl
bytes_eq→path [] (y ∷ ys) h = absurd (ground arith)
bytes_eq→path (x ∷ xs) [] h = absurd (ground arith)
bytes_eq→path (x ∷ xs) (y ∷ ys) h =
    let e : x ≡ y = ground arith in
    let es : xs ≡ ys = bytes_eq→path xs ys (ground arith) in ap₂ ◌∷◌ e es

bytes_eq_same : (xs : List ℕ) → bytes_eq xs xs ≡ true
bytes_eq_same [] = refl
bytes_eq_same (x ∷ xs) = ground (arith, bytes_eq_same xs)

bytes_lt_same : (xs : List ℕ) → bytes_lt xs xs ≡ false
bytes_lt_same [] = refl
bytes_lt_same (x ∷ xs) = ground (arith, bytes_lt_same xs)

bytes_total :
    (xs ys : List ℕ) → bytes_lt xs ys ≡ false → bytes_lt ys xs ≡ false → bytes_eq xs ys ≡ true
bytes_total [] [] h k = refl
bytes_total [] (y ∷ ys) h k = absurd (ground arith)
bytes_total (x ∷ xs) [] h k = absurd (ground arith)
bytes_total (x ∷ xs) (y ∷ ys) h k = ground (arith, bytes_total xs ys)

bytes_transitive :
    (xs ys zs : List ℕ) → bytes_lt xs ys ≡ true → bytes_lt ys zs ≡ true → bytes_lt xs zs ≡ true
bytes_transitive xs [] [] h k = absurd (ground arith)
bytes_transitive [] [] (z ∷ zs) h k = refl
bytes_transitive (x ∷ xs) [] zs h k = absurd (ground arith)
bytes_transitive xs (y ∷ ys) [] h k = absurd (ground arith)
bytes_transitive [] (y ∷ ys) (z ∷ zs) h k = refl
bytes_transitive (x ∷ xs) (y ∷ ys) (z ∷ zs) h k = ground (arith, bytes_transitive xs ys zs)

bytes-IsOrder : IsOrder (λ xs. Unit {0}) bytes_lt bytes_eq
bytes-IsOrder =
    exact-IsOrder bytes_lt bytes_eq bytes_eq→path bytes_eq_same bytes_lt_same bytes_total
      bytes_transitive

-- Two orders, the first one first.
module _ {A B : Type 0} (lt eq : A → A → Bool) (lt' eq' : B → B → Bool) where
  abbrev lex_lt : A × B → A × B → Bool
  lex_lt p q = lt p.0 q.0 || eq p.0 q.0 && lt' p.1 q.1

  abbrev lex_eq : A × B → A × B → Bool
  lex_eq p q = eq p.0 q.0 && eq' p.1 q.1

  lex-IsOrder :
      {Ok : A → Type 0}
      → IsOrder Ok lt eq
      → IsOrder (λ b. Unit {0}) lt' eq'
      → IsOrder (λ p. Ok p.0) lex_lt lex_eq
  lex-IsOrder o o' = record {
    same = λ a h. ground (arith, o.same a.0 h, o'.same a.1 tt);
    symmetric = λ a b h k e. ground (arith, o.symmetric a.0 b.0 h k, o'.symmetric a.1 b.1 tt tt);
    joined = λ a b c h k l e f.
        ground (arith, o.joined a.0 b.0 c.0 h k l, o'.joined a.1 b.1 c.1 tt tt tt);
    irreflexive =
        λ a b h k e. ground (arith, o.irreflexive a.0 b.0 h k, o'.irreflexive a.1 b.1 tt tt);
    asymmetric = λ a b h k e. ground (
      arith,
      o.asymmetric a.0 b.0 h k,
      o'.asymmetric a.1 b.1 tt tt,
      o.irreflexive a.0 b.0 h k,
      o.irreflexive b.0 a.0 k h,
      o.symmetric a.0 b.0 h k,
      o.symmetric b.0 a.0 k h,
    );
    total = λ a b h k e f.
        ground (arith, o.total a.0 b.0 h k, o'.total a.1 b.1 tt tt, o.symmetric a.0 b.0 h k);
    transitive = λ a b c h k l e f. ground (
      arith,
      o.transitive a.0 b.0 c.0 h k l,
      o'.transitive a.1 b.1 c.1 tt tt tt,
      o.left a.0 b.0 c.0 h k l,
      o.right a.0 b.0 c.0 h k l,
      o.joined a.0 b.0 c.0 h k l,
    );
    left = λ a b c h k l e f.
        ground (
          arith,
          o.left a.0 b.0 c.0 h k l,
          o'.left a.1 b.1 c.1 tt tt tt,
          o.joined a.0 b.0 c.0 h k l,
        );
    right = λ a b c h k l e f. ground (
      arith,
      o.right a.0 b.0 c.0 h k l,
      o'.right a.1 b.1 c.1 tt tt tt,
      o.joined a.0 b.0 c.0 h k l,
    );
  }

-- The values of another type, by a function to it.
pull-IsOrder :
    {A C : Type 0} {Ok : A → Type 0} {lt eq : A → A → Bool} (f : C → A)
    → IsOrder Ok lt eq
    → IsOrder (λ c. Ok (f c)) (λ c d. lt (f c) (f d)) (λ c d. eq (f c) (f d))
pull-IsOrder f o = record {
  same = λ a. o.same (f a);
  symmetric = λ a b. o.symmetric (f a) (f b);
  joined = λ a b c. o.joined (f a) (f b) (f c);
  irreflexive = λ a b. o.irreflexive (f a) (f b);
  asymmetric = λ a b. o.asymmetric (f a) (f b);
  total = λ a b. o.total (f a) (f b);
  transitive = λ a b c. o.transitive (f a) (f b) (f c);
  left = λ a b c. o.left (f a) (f b) (f c);
  right = λ a b c. o.right (f a) (f b) (f c);
}

not_and : (x y : Bool) → (not x || not y) ≡ not (x && y)
not_and true true = refl
not_and true false = refl
not_and false true = refl
not_and false false = refl

either : (n e l q : Bool) → (n || e && (l || q)) ≡ (n || e && l || e && q)
either true e l q = refl
either false true l q = refl
either false false l q = refl

name_ne_lem : (a b : EntityName) → name_ne a b ≡ not (name_eq a b)
unfolding name_ne name_eq
name_ne_lem a b = not_and (a.type == b.type) (a.num == b.num)

bytes_le_lem : (xs ys : List ℕ) → not (bytes_lt ys xs) ≡ (bytes_lt xs ys || bytes_eq xs ys)
bytes_le_lem xs ys = elim (Bool-cases (bytes_lt ys xs)) [
  | inl y ↦ elim (Bool-cases (bytes_eq xs ys)) [
    | inl e ↦ absurd (ground (arith, bytes-IsOrder.left xs ys xs tt tt tt e y, bytes_lt_same xs))
    | inr n ↦ rw (y, n, bytes-IsOrder.asymmetric ys xs tt tt y) refl
  ]
  | inr n ↦ ground (arith, bytes_total xs ys)
]

-- The ranges of the members that are compared.
abbrev pub InRange : EntityInst → Type 0
InRange e = (e.name.type < 256) × (e.name.num < 2 ^ 64)

abbrev parts : Bool → EntityInst → EntityName × List ℕ
parts big_endian e = (e.name, memory_of big_endian e.addr)

-- The number that the bit pattern of an `int64_t` stands for.
abbrev pub signed : ℕ → ℤ
signed x = if ltb x (2 ^ 63) then pos x else negsuc (2 ^ 64 - x - 1)

-- Names come by their type, and by their number where the type is the same.
abbrev pub comes_before : EntityName → EntityName → Bool
comes_before a b = ltb a.type b.type || a.type == b.type && ltb_ℤ (signed a.num) (signed b.num)

name_lt_lem : (a b : EntityName) → a.num < 2 ^ 64 → b.num < 2 ^ 64 → name_lt a b ≡ comes_before a b
unfolding name_lt
name_lt_lem a b h k = ground arith

-- Of instances whose name is in its ranges, `<` is a strict order that is total up to `==`, `==` is an
-- equivalence that `<` respects, `!=` is its negation, and `<=` holds where `<` or `==` does. So
-- `std::set` and `std::map` can keep them. A name is before another one by its type, and where the
-- types are the same by `_num`, as the signed numbers that the patterns stand for.
pub inst-IsOrder :
    (big_endian : Bool)
    → IsOrder InRange (inst_lt big_endian) (inst_eq big_endian)
      × ((a b : EntityInst) → inst_ne big_endian a b ≡ not (inst_eq big_endian a b))
      × ((a b : EntityInst)
          → inst_le big_endian a b ≡ (inst_lt big_endian a b || inst_eq big_endian a b))
      × ((a b : EntityName) → a.num < 2 ^ 64 → b.num < 2 ^ 64 → name_lt a b ≡ comes_before a b)
unfolding inst_lt inst_eq inst_ne inst_le addr_lt addr_eq addr_le
inst-IsOrder big_endian = (
  pull-IsOrder (parts big_endian)
      (lex-IsOrder name_lt name_eq bytes_lt bytes_eq name-IsOrder bytes-IsOrder),
  (λ a b.
      ap (λ z. z || not (addr_eq big_endian a.addr b.addr)) (name_ne_lem a.name b.name)
      ∙ not_and (name_eq a.name b.name) (addr_eq big_endian a.addr b.addr)),
  (λ a b.
      ap (λ z. name_lt a.name b.name || name_eq a.name b.name && z)
        (bytes_le_lem (memory_of big_endian a.addr) (memory_of big_endian b.addr))
      ∙ either (name_lt a.name b.name) (name_eq a.name b.name) (addr_lt big_endian a.addr b.addr)
          (addr_eq big_endian a.addr b.addr)),
  name_lt_lem,
)
