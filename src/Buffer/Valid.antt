-- ===== src/Buffer/Valid.antt =====
-- What holds of a buffer and its store between two calls.
use my_git_hub.Common.{
  ℕ, ◌+◌, ◌%◌, ◌≤◌, ◌<◌, ◌≡◌, refl, sym, ap, ◌∙◌, true, false, Option, none, some, List, [], ◌∷◌,
  ◌++◌, arith, ◌==◌, length, append-nil, append_assoc, ==_iff, subst, ap₂, take, drop, Bool-cases,
  inl, inr,
}
use my_git_hub.Common.Words.{add32, u32_mod}
use my_git_hub.Buffer.Store.{Ptr, end_of, Store, view}
use my_git_hub.Buffer.Bytes.{contents, total, Fits, AllFit, contents-append, take-add, drop-drop}
use my_git_hub.Buffer.Defs.{Buffer, push_back, extend_back, append_or_push}
use my_git_hub.Buffer.Grow.{Grows, lengthen, behind, append-Grows}
use my_git_hub.Buffer.Bytes.{total-append}
use my_git_hub.Buffer.Place.{IsOk}

-- A `ptr` that ends before the free tail of the append buffer `a`.
abbrev pub Before : Option Ptr → Ptr → Type 0
Before none p = Unit {0}
Before (some a) p = (p.raw == a.raw) ≡ true → end_of p ≤ a.len

abbrev pub AllBefore : Option Ptr → List Ptr → Type 0
AllBefore a [] = Unit {0}
AllBefore a (p ∷ ps) = Before a p × AllBefore a ps

-- The append buffer begins with its raw and lies in it.
abbrev pub Owned : Store → Option Ptr → Type 0
Owned st none = Unit {0}
Owned st (some a) = (a.off ≡ 0) × (a.raw < st.next) × (a.len ≤ length (st.bytes a.raw))

-- A raw's length is a 32-bit number.
abbrev pub Sized : Store → Type 0
Sized st = (r : ℕ) → length (st.bytes r) < u32_mod

pub record IsValid (st : Store) (b : Buffer) : Type 0 where
  pub fit : AllFit st b.buffers
  pub counted : b.len ≡ total b.buffers % u32_mod
  pub owned : Owned st b.append_buffer
  pub before : AllBefore b.append_buffer b.buffers
  pub cursor : IsOk b.buffers b.last_p

pub AllFit-append :
    (st : Store) (ps qs : List Ptr) → AllFit st ps → AllFit st qs → AllFit st (ps ++ qs)
AllFit-append st [] qs a b = b
AllFit-append st (p ∷ ps) qs a b = (a.0, AllFit-append st ps qs a.1 b)

pub AllBefore-append :
    (a : Option Ptr) (ps qs : List Ptr) → AllBefore a ps → AllBefore a qs → AllBefore a (ps ++ qs)
AllBefore-append a [] qs x y = y
AllBefore-append a (p ∷ ps) qs x y = (x.0, AllBefore-append a ps qs x.1 y)

Before-join :
    (a : Option Ptr) (l p : Ptr)
    → l.raw ≡ p.raw
    → end_of l ≡ p.off
    → Before a p
    → Before a (record l { len = l.len + p.len })
Before-join none l p r e b = tt
Before-join (some a) l p r e b = λ t. ground (arith, b (ground arith))

-- What a list of pieces has become when `p` was added: its bytes stand at the end.
pub record Added (st : Store) (a : Option Ptr) (p : Ptr) (ps qs : List Ptr) : Type 0 where
  pub fit : AllFit st qs
  pub before : AllBefore a qs
  pub total_len : total qs ≡ total ps + p.len
  pub bytes : contents st qs ≡ contents st ps ++ view st p
  pub grows : Grows ps qs

module _ (st : Store) (sized : Sized st) (a : Option Ptr) (p : Ptr) (fit : Fits st p)
    (before : Before a p) where
  pushed-Added : (ps : List Ptr) → AllFit st ps → AllBefore a ps → Added st a p ps (ps ++ p ∷ [])
  pushed-Added ps f b = record {
    fit = AllFit-append st ps (p ∷ []) f (fit, tt);
    before = AllBefore-append a ps (p ∷ []) b (before, tt);
    total_len = omega (arith, total-append ps (p ∷ []));
    bytes = contents-append st ps (p ∷ []) ∙ ap (λ z. contents st ps ++ z) (append-nil (view st p));
    grows = append-Grows ps (p ∷ []);
  }

  cons-Added :
      (l : Ptr) (ps qs : List Ptr)
      → Fits st l
      → Before a l
      → Added st a p ps qs
      → Added st a p (l ∷ ps) (l ∷ qs)
  cons-Added l ps qs f b h = record {
    fit = (f, h.fit);
    before = (b, h.before);
    total_len = omega (arith, h.total_len);
    bytes =
        ap (λ z. view st l ++ z) h.bytes
        ∙ sym (append_assoc (view st l) (contents st ps) (view st p));
    grows = behind l ps qs h.grows;
  }

  -- One piece that is made longer.
  joined-Added :
      (l : Ptr)
      → Fits st l
      → Before a l
      → (l.raw == p.raw) ≡ true
      → (end_of l == p.off) ≡ true
      → Added st a p (l ∷ []) (record l { len = add32 l.len p.len } ∷ [])
  joined-Added l f b same next =
      let r : l.raw ≡ p.raw = (==_iff l.raw p.raw).0 same in
      let e : end_of l ≡ p.off = (==_iff (end_of l) p.off).0 next in
      let w : end_of p ≤ length (st.bytes l.raw) =
        subst (λ k. end_of p ≤ length (st.bytes k)) (sym r) fit.within in
      let s = sized l.raw in
      let sum : add32 l.len p.len ≡ l.len + p.len = omega arith in
      rw sum (record {
        fit = (
          record { made = f.made; some_bytes = omega (arith, f.some_bytes); within = omega arith },
          tt,
        );
        before = (Before-join a l p r e before, tt);
        total_len = omega arith;
        bytes =
            append-nil (take (l.len + p.len) (drop l.off (st.bytes l.raw)))
            ∙ take-add l.len p.len (drop l.off (st.bytes l.raw))
            ∙ ap (λ z. view st l ++ z)
                (ap (take p.len) (drop-drop l.off l.len (st.bytes l.raw))
                  ∙ ap₂ (λ k q. take p.len (drop k (st.bytes q))) e r)
            ∙ ap (λ z. z ++ view st p) (sym (append-nil (view st l)));
        grows = lengthen l (record l { len = l.len + p.len }) (omega arith);
      })

  abbrev pub ExtendsTo : List Ptr → Option (List Ptr) → Type 0
  ExtendsTo ps none = Unit {0}
  ExtendsTo ps (some qs) = Added st a p ps qs

  pub extend_back-Added :
      (ps : List Ptr) → AllFit st ps → AllBefore a ps → ExtendsTo ps (extend_back p ps)
  unfolding extend_back
  extend_back-Added [] f b = tt
  extend_back-Added (l ∷ []) f b = elim (Bool-cases (l.raw == p.raw)) [
    | inl x ↦ elim (Bool-cases (end_of l == p.off)) [
      | inl y ↦ rw (x, y) (joined-Added l f.0 b.0 x y)
      | inr y ↦ rw (x, y) tt
    ]
    | inr x ↦ rw x tt
  ]
  extend_back-Added (l ∷ l' ∷ ps) f b =
      go (extend_back p (l' ∷ ps)) (extend_back-Added (l' ∷ ps) f.1 b.1)
    where
      go :
          (o : Option (List Ptr))
          → ExtendsTo (l' ∷ ps) o
          → ExtendsTo (l ∷ l' ∷ ps) (elim o [ none ↦ none | some qs ↦ some (l ∷ qs) ])
      go none h = tt
      go (some qs) h = cons-Added l (l' ∷ ps) qs f.0 b.0 h

  -- The piece `p` goes to the end of a valid buffer.
  pub append_or_push-Added :
      (o : Option (List Ptr)) (b : Buffer)
      → ExtendsTo b.buffers o
      → AllFit st b.buffers
      → AllBefore a b.buffers
      → b.len ≡ total b.buffers % u32_mod
      → Added st a p b.buffers (append_or_push p o b).buffers
        × ((append_or_push p o b).len ≡ total (append_or_push p o b).buffers % u32_mod)
        × ((append_or_push p o b).append_buffer ≡ b.append_buffer)
        × ((append_or_push p o b).last_p ≡ b.last_p)
  unfolding push_back
  append_or_push-Added none b h f l c =
      let some_len : (p.len == 0) ≡ false = ground (arith, fit.some_bytes) in
      let done = pushed-Added b.buffers f l in
      rw some_len (done, omega (arith, done.total_len), refl, refl)
  append_or_push-Added (some qs) b h f l c = (h, omega (arith, h.total_len), refl, refl)
