-- ===== src/StringUtils/Digits.antt =====
-- Each byte is the value of its two digits.
use my_git_hub.Common.{
  ℕ, ◌<◌, ◌≡◌, refl, Bool, true, false, ◌&&◌, arith, ◌==◌, holds_up_to, holds_up_to_lem, ==_iff,
}
use my_git_hub.StringUtils.Defs.{
  hex_digit, is_xdigit, digit_value, char2hex, hex2char, hex2char_loop,
}

digit_test : ℕ → Bool
digit_test n = is_xdigit (hex_digit n) && digit_value (hex_digit n) == n

digits_right : holds_up_to digit_test 16 ≡ true
unfolding holds_up_to digit_test
digits_right = refl

pub hex_digit_lem :
    (n : ℕ) → n < 16 → (is_xdigit (hex_digit n) ≡ true) × (digit_value (hex_digit n) ≡ n)
unfolding digit_test
hex_digit_lem n h =
    let right : digit_test n ≡ true = holds_up_to_lem digit_test 16 n h digits_right in
    let (digit, same) = both (is_xdigit (hex_digit n)) (digit_value (hex_digit n) == n) right in
    (digit, (==_iff (digit_value (hex_digit n)) n).0 same)
  where
    both : (a b : Bool) → (a && b) ≡ true → (a ≡ true) × (b ≡ true)
    both true b e = (refl, e)
    both false b e = absurd (ground arith)

hex_test : ℕ → Bool
hex_test c = hex2char (char2hex c) == c

hex_right : holds_up_to hex_test 256 ≡ true
unfolding holds_up_to hex_test hex2char char2hex hex2char_loop
hex_right = refl

-- `hex2char` reads back every byte that `char2hex` wrote.
pub hex2char-char2hex : (c : ℕ) → c < 256 → hex2char (char2hex c) ≡ c
unfolding hex_test
hex2char-char2hex c h =
    (==_iff (hex2char (char2hex c)) c).0 (holds_up_to_lem hex_test 256 c h hex_right)
