-- ===== src/ByteOrder/Swaps.antt =====
-- A swap reverses the bytes, so that it is its own inverse and the types keep their values.
use my_git_hub.Common.{
  ℕ, zero, suc, ◌+◌, ◌*◌, ◌/◌, ◌%◌, ◌^◌, ◌<◌, ◌≡◌, refl, sym, ap, ◌∙◌, arith, Bool, true, false,
  ◌==◌, List, [], ◌∷◌, reverse, length, AllBelow, Bool-cases, inl, inr, subst, ==_iff,
}
use my_git_hub.ByteOrder.Defs.{swab16, swab32, swab64, assign, convert, equal}

-- The `n` lowest bytes of a number, the lowest first.
unfoldable pub bytes : ℕ → ℕ → List ℕ
bytes zero x = []
bytes (suc n) x = x % 256 ∷ bytes n (x / 256)

abbrev pub join : List ℕ → ℕ
join [] = 0
join (b ∷ bs) = b + 256 * join bs

bytes-join : (bs : List ℕ) → AllBelow 256 bs → bytes (length bs) (join bs) ≡ bs
unfolding bytes
bytes-join [] h = refl
bytes-join (b ∷ bs) h =
    let low : (b + 256 * join bs) % 256 ≡ b = omega (arith, h.0) in
    let rest : (b + 256 * join bs) / 256 ≡ join bs = omega (arith, h.0) in
    rw (low, rest) (ap (◌∷◌ b) (bytes-join bs h.1))

swab16-join : (x : ℕ) → x < 2 ^ 16 → swab16 x ≡ join (reverse (bytes 2 x))
unfolding bytes swab16
swab16-join x h = omega arith

swab32-join : (x : ℕ) → x < 2 ^ 32 → swab32 x ≡ join (reverse (bytes 4 x))
unfolding bytes swab32
swab32-join x h = omega arith

sum_of_eight :
    (a b c d e f g h : ℕ)
    → a + b * 2 ^ 8 + c * 2 ^ 16 + d * 2 ^ 24 + e * 2 ^ 32 + f * 2 ^ 40 + g * 2 ^ 48 + h * 2 ^ 56
      ≡ join (a ∷ b ∷ c ∷ d ∷ e ∷ f ∷ g ∷ h ∷ [])
sum_of_eight a b c d e f g h = omega arith

swab64-join : (x : ℕ) → x < 2 ^ 64 → swab64 x ≡ join (reverse (bytes 8 x))
unfolding bytes swab64
swab64-join x h =
    let b₇ : x / 2 ^ 56 ≡ x / 256 / 256 / 256 / 256 / 256 / 256 / 256 % 256 = omega arith in
    let b₆ : x / 2 ^ 40 / 2 ^ 8 % 2 ^ 8 ≡ x / 256 / 256 / 256 / 256 / 256 / 256 % 256 =
      omega arith in
    let b₅ : x / 2 ^ 24 / 2 ^ 16 % 2 ^ 8 ≡ x / 256 / 256 / 256 / 256 / 256 % 256 = omega arith in
    let b₄ : x / 2 ^ 8 / 2 ^ 24 % 2 ^ 8 ≡ x / 256 / 256 / 256 / 256 % 256 = omega arith in
    let b₃ : x * 2 ^ 8 % 2 ^ 64 / 2 ^ 32 % 2 ^ 8 ≡ x / 256 / 256 / 256 % 256 = omega arith in
    let b₂ : x * 2 ^ 24 % 2 ^ 64 / 2 ^ 40 % 2 ^ 8 ≡ x / 256 / 256 % 256 = omega arith in
    let b₁ : x * 2 ^ 40 % 2 ^ 64 / 2 ^ 48 % 2 ^ 8 ≡ x / 256 % 256 = omega arith in
    let b₀ : x * 2 ^ 56 % 2 ^ 64 ≡ x % 256 * 2 ^ 56 = omega arith in
    rw (b₇, b₆, b₅, b₄, b₃, b₂, b₁, b₀) (sum_of_eight _ _ _ _ _ _ _ _)

-- The widths of the three types.
pub data Width : Type 0 where
  w16 w32 w64 : Width

abbrev pub size : Width → ℕ
size w16 = 2
size w32 = 4
size w64 = 8

abbrev pub limit : Width → ℕ
limit w16 = 2 ^ 16
limit w32 = 2 ^ 32
limit w64 = 2 ^ 64

abbrev pub swab : Width → ℕ → ℕ
swab w16 = swab16
swab w32 = swab32
swab w64 = swab64

bytes-below : (n x : ℕ) → AllBelow 256 (bytes n x)
unfolding bytes
bytes-below zero x = tt
bytes-below (suc n) x = (omega arith, bytes-below n (x / 256))

pub swab-join : (w : Width) (x : ℕ) → x < limit w → swab w x ≡ join (reverse (bytes (size w) x))
swab-join w16 x h = swab16-join x h
swab-join w32 x h = swab32-join x h
swab-join w64 x h = swab64-join x h

reverse-below : (w : Width) (x : ℕ) → AllBelow 256 (reverse (bytes (size w) x))
unfolding bytes
reverse-below w16 x = (omega arith, (omega arith, tt))
reverse-below w32 x = (omega arith, (omega arith, (omega arith, (omega arith, tt))))
reverse-below w64 x = (
  omega arith,
  (
    omega arith,
    (omega arith, (omega arith, (omega arith, (omega arith, (omega arith, (omega arith, tt)))))),
  ),
)

pub length-reverse-bytes : (w : Width) (x : ℕ) → length (reverse (bytes (size w) x)) ≡ size w
unfolding bytes
length-reverse-bytes w16 x = refl
length-reverse-bytes w32 x = refl
length-reverse-bytes w64 x = refl

-- A swap of 16, 32 or 64 bits reverses the bytes of the number.
pub bytes-swab :
    (w : Width) (x : ℕ) → x < limit w → bytes (size w) (swab w x) ≡ reverse (bytes (size w) x)
bytes-swab w x h =
    ap (bytes (size w)) (swab-join w x h)
    ∙ ap (λ n. bytes n (join (reverse (bytes (size w) x)))) (sym (length-reverse-bytes w x))
    ∙ bytes-join (reverse (bytes (size w) x)) (reverse-below w x)

abbrev scale : List ℕ → ℕ
scale [] = 1
scale (b ∷ bs) = 256 * scale bs

join-below : (bs : List ℕ) → AllBelow 256 bs → join bs < scale bs
join-below [] h = omega arith
join-below (b ∷ bs) h = omega (arith, h.0, join-below bs h.1)

scale-reverse : (w : Width) (x : ℕ) → scale (reverse (bytes (size w) x)) ≡ limit w
unfolding bytes
scale-reverse w16 x = refl
scale-reverse w32 x = refl
scale-reverse w64 x = refl

swab-below : (w : Width) (x : ℕ) → x < limit w → swab w x < limit w
swab-below w x h =
    let swapped = reverse (bytes (size w) x) in
    subst (λ n. swab w x < n) (scale-reverse w x)
      (subst (λ n. n < scale swapped) (sym (swab-join w x h))
        (join-below swapped (reverse-below w x)))

pub join-bytes : (w : Width) (x : ℕ) → x < limit w → join (bytes (size w) x) ≡ x
unfolding bytes
join-bytes w16 x h = omega arith
join-bytes w32 x h = omega arith
join-bytes w64 x h = omega arith

pub reverse_twice : (w : Width) (x : ℕ) → reverse (reverse (bytes (size w) x)) ≡ bytes (size w) x
unfolding bytes
reverse_twice w16 x = refl
reverse_twice w32 x = refl
reverse_twice w64 x = refl

pub swab_twice : (w : Width) (x : ℕ) → x < limit w → swab w (swab w x) ≡ x
swab_twice w x h =
    swab-join w (swab w x) (swab-below w x h)
    ∙ ap (λ bs. join (reverse bs)) (bytes-swab w x h)
    ∙ ap join (reverse_twice w x)
    ∙ join-bytes w x h

-- A function that is its own inverse at two numbers tells them apart.
inverse-== : (f : ℕ → ℕ) (x y : ℕ) → f (f x) ≡ x → f (f y) ≡ y → (f x == f y) ≡ (x == y)
inverse-== f x y p q = elim (Bool-cases (x == y)) [
  | inl e ↦ (==_iff (f x) (f y)).1 (ap f ((==_iff x y).0 e)) ∙ sym e
  | inr n ↦ elim (Bool-cases (f x == f y)) [
    | inl m ↦
        let same : x ≡ y = sym p ∙ ap f ((==_iff (f x) (f y)).0 m) ∙ q in absurd (ground arith)
    | inr m ↦ m ∙ sym n
  ]
]

-- A value that is assigned to a little-endian type and converted back is the same, and two such
-- values are equal where the numbers are, whether `BIG_ENDIAN` is defined or not.
pub convert-assign :
    (big_endian : Bool) (w : Width) (x y : ℕ)
    → x < limit w
    → y < limit w
    → (convert big_endian (swab w) (assign big_endian (swab w) x) ≡ x)
      × (equal (assign big_endian (swab w) x) (assign big_endian (swab w) y) ≡ (x == y))
unfolding convert assign equal
convert-assign true w x y h k =
    (swab_twice w x h, inverse-== (swab w) x y (swab_twice w x h) (swab_twice w y k))
convert-assign false w x y h k = (refl, refl)
