-- ===== src/Common/Xor.antt =====
-- Laws of the exclusive or.
use Prim.Native.Nat.{
  ℕ, zero, suc, ◌+◌, ◌*◌, ◌/◌, ◌%◌, ◌≤◌, ◌<◌, ◌^◌, bit_xor, digits, differ, bit_xor-bitwise,
}
use mathlib.Core.Path.{◌≡◌, refl, sym, ap, ◌∙◌}
use native.Mathlib.Omega.{arith}

abbrev xor_digits : ℕ → ℕ → ℕ → ℕ
xor_digits n a b = digits (λ y. y) differ n a b

differ_bits : (x y : ℕ) → x < 2 → y < 2 → differ x y ≡ (x + y) % 2
differ_bits zero y p q = omega arith
differ_bits (suc zero) zero p q = refl
differ_bits (suc zero) (suc zero) p q = refl
differ_bits (suc zero) (suc (suc y)) p q = absurd (omega arith)
differ_bits (suc (suc x)) y p q = absurd (omega arith)

zero-bit_xor : (b : ℕ) → bit_xor 0 b ≡ b
zero-bit_xor b = bit_xor-bitwise 0 b

-- More digits than the first number has change nothing.
digits_enough : (n m a b : ℕ) → a ≤ n → a ≤ m → xor_digits n a b ≡ xor_digits m a b
digits_enough zero zero a b p q = refl
digits_enough zero (suc m) zero b p q = refl
digits_enough zero (suc m) (suc a) b p q = absurd (omega arith)
digits_enough (suc n) zero zero b p q = refl
digits_enough (suc n) zero (suc a) b p q = absurd (omega arith)
digits_enough (suc n) (suc m) zero b p q = refl
digits_enough (suc n) (suc m) (suc a) b p q =
    omega (arith, digits_enough n m (suc a / 2) (b / 2) (omega arith) (omega arith))

-- The lowest digit, and the others.
pub bit_xor_step : (a b : ℕ) → bit_xor a b ≡ bit_xor (a / 2) (b / 2) * 2 + (a % 2 + b % 2) % 2
bit_xor_step zero b = omega (arith, zero-bit_xor b, zero-bit_xor (b / 2))
bit_xor_step (suc a) b = omega (
  arith,
  bit_xor-bitwise (suc a) b,
  bit_xor-bitwise (suc a / 2) (b / 2),
  digits_enough a (suc a / 2) (suc a / 2) (b / 2) (omega arith) (omega arith),
  differ_bits (suc a % 2) (b % 2) (omega arith) (omega arith),
)

pub bit_xor_half : (a b : ℕ) → bit_xor a b / 2 ≡ bit_xor (a / 2) (b / 2)
bit_xor_half a b = omega (arith, bit_xor_step a b)

pub bit_xor_parity : (a b : ℕ) → bit_xor a b % 2 ≡ (a % 2 + b % 2) % 2
bit_xor_parity a b = omega (arith, bit_xor_step a b)

xor_comm_to : (n a b : ℕ) → a + b ≤ n → bit_xor a b ≡ bit_xor b a
xor_comm_to zero zero zero h = refl
xor_comm_to zero (suc a) b h = absurd (omega arith)
xor_comm_to zero zero (suc b) h = absurd (omega arith)
xor_comm_to (suc n) zero zero h = refl
xor_comm_to (suc n) zero (suc b) h = omega (
  arith,
  bit_xor_step 0 (suc b),
  bit_xor_step (suc b) 0,
  xor_comm_to n 0 (suc b / 2) (omega arith),
)
xor_comm_to (suc n) (suc a) b h = omega (
  arith,
  bit_xor_step (suc a) b,
  bit_xor_step b (suc a),
  xor_comm_to n (suc a / 2) (b / 2) (omega arith),
)

pub bit_xor_comm : (a b : ℕ) → bit_xor a b ≡ bit_xor b a
bit_xor_comm a b = xor_comm_to (a + b) a b (omega arith)

pub bit_xor-zero : (a : ℕ) → bit_xor a 0 ≡ a
bit_xor-zero a = bit_xor_comm a 0 ∙ zero-bit_xor a

xor_self_to : (n a : ℕ) → a ≤ n → bit_xor a a ≡ 0
xor_self_to n zero h = refl
xor_self_to zero (suc a) h = absurd (omega arith)
xor_self_to (suc n) (suc a) h =
    omega (arith, bit_xor_step (suc a) (suc a), xor_self_to n (suc a / 2) (omega arith))

pub bit_xor_self : (a : ℕ) → bit_xor a a ≡ 0
bit_xor_self a = xor_self_to a a (omega arith)

xor_assoc_to : (n a b c : ℕ) → a ≤ n → bit_xor (bit_xor a b) c ≡ bit_xor a (bit_xor b c)
xor_assoc_to n zero b c h =
    ap (λ x. bit_xor x c) (zero-bit_xor b) ∙ sym (zero-bit_xor (bit_xor b c))
xor_assoc_to zero (suc a) b c h = absurd (omega arith)
xor_assoc_to (suc n) (suc a) b c h = omega (
  arith,
  bit_xor_step (bit_xor (suc a) b) c,
  bit_xor_step (suc a) (bit_xor b c),
  ap (λ x. bit_xor x (c / 2)) (bit_xor_half (suc a) b),
  ap (bit_xor (suc a / 2)) (bit_xor_half b c),
  bit_xor_parity (suc a) b,
  bit_xor_parity b c,
  xor_assoc_to n (suc a / 2) (b / 2) (c / 2) (omega arith),
)

pub bit_xor_assoc : (a b c : ℕ) → bit_xor (bit_xor a b) c ≡ bit_xor a (bit_xor b c)
bit_xor_assoc a b c = xor_assoc_to a a b c (omega arith)

pub bit_xor_left_comm : (a b c : ℕ) → bit_xor a (bit_xor b c) ≡ bit_xor b (bit_xor a c)
bit_xor_left_comm a b c =
    sym (bit_xor_assoc a b c) ∙ ap (λ x. bit_xor x c) (bit_xor_comm a b) ∙ bit_xor_assoc b a c

abbrev double : ℕ → ℕ → ℕ
double zero m = m
double (suc k) m = 2 * double k m

-- Disjoint digits: the exclusive or is the sum.
low_digits : (k a m : ℕ) → a < double k 1 → bit_xor a (double k m) ≡ a + double k m
low_digits zero zero m h = omega (arith, zero-bit_xor m)
low_digits zero (suc a) m h = absurd (omega arith)
low_digits (suc k) a m h = omega (
  arith,
  bit_xor_step a (2 * double k m),
  ap (bit_xor (a / 2)) (half_double (double k m)),
  low_digits k (a / 2) m (omega arith),
)
  where
    half_double : (x : ℕ) → (2 * x) / 2 ≡ x
    half_double x = omega arith

pub bit_xor_byte : (a m : ℕ) → a < 256 → bit_xor a (256 * m) ≡ a + 256 * m
bit_xor_byte a m h =
    let same : 256 * m ≡ double 8 m = omega arith in
    ap (bit_xor a) same ∙ low_digits 8 a m h ∙ ap (λ x. a + x) (sym same)

below_digits : (k a b : ℕ) → a < double k 1 → b < double k 1 → bit_xor a b < double k 1
below_digits zero zero zero p q = omega arith
below_digits zero (suc a) b p q = absurd (omega arith)
below_digits zero zero (suc b) p q = absurd (omega arith)
below_digits (suc k) a b p q =
    omega (arith, bit_xor_step a b, below_digits k (a / 2) (b / 2) (omega arith) (omega arith))

pub bit_xor_below32 : (a b : ℕ) → a < 2 ^ 32 → b < 2 ^ 32 → bit_xor a b < 2 ^ 32
bit_xor_below32 a b p q = below_digits 32 a b p q

pub bit_xor_below8 : (a b : ℕ) → a < 256 → b < 256 → bit_xor a b < 256
bit_xor_below8 a b p q = below_digits 8 a b p q

-- A byte changes the lowest byte only.
pub bit_xor_low : (a x : ℕ) → x < 256 → bit_xor a x ≡ bit_xor (a % 256) x + 256 * (a / 256)
bit_xor_low a x h =
    let parts : a ≡ bit_xor (a % 256) (256 * (a / 256)) =
      omega (arith, bit_xor_byte (a % 256) (a / 256) (omega arith)) in
    let low = bit_xor_below8 (a % 256) x (omega arith) h in
    ap (λ y. bit_xor y x) parts
    ∙ bit_xor_assoc (a % 256) (256 * (a / 256)) x
    ∙ ap (bit_xor (a % 256)) (bit_xor_comm (256 * (a / 256)) x)
    ∙ sym (bit_xor_assoc (a % 256) x (256 * (a / 256)))
    ∙ bit_xor_byte (bit_xor (a % 256) x) (a / 256) low

pub bit_xor_word : (a m : ℕ) → a < 65536 → bit_xor a (m * 65536) ≡ a + m * 65536
bit_xor_word a m h =
    let same : m * 65536 ≡ double 16 m = omega arith in
    ap (bit_xor a) same ∙ low_digits 16 a m h ∙ ap (λ x. a + x) (sym same)

pub bit_xor_triple : (a m : ℕ) → a < 16777216 → bit_xor a (m * 16777216) ≡ a + m * 16777216
bit_xor_triple a m h =
    let same : m * 16777216 ≡ double 24 m = omega arith in
    ap (bit_xor a) same ∙ low_digits 24 a m h ∙ ap (λ x. a + x) (sym same)
