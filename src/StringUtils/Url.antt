-- ===== src/StringUtils/Url.antt =====
-- What `encode_url` writes is read back by `decode_url`.
use my_git_hub.Common.{
  ℕ, zero, suc, ◌+◌, ◌*◌, ◌/◌, ◌%◌, ◌<◌, ◌≡◌, refl, sym, ap, ◌∙◌, Bool, true, false, List, [], ◌∷◌,
  ◌++◌, arith, ◌==◌, Bool-cases, inl, inr, ==_iff, if◌then◌else◌,
}
use my_git_hub.StringUtils.Defs.{
  hex_digit, is_unreserved, is_xdigit, digit_value, url_char, encode_url, decode_url, plain,
  char2hex, hex2char,
}
use my_git_hub.StringUtils.Digits.{hex_digit_lem, hex2char-char2hex}

-- Bytes, none of them zero.
abbrev pub IsText : List ℕ → Type 0
IsText [] = Unit {0}
IsText (c ∷ s) = (0 < c) × (c < 256) × IsText s

decode-plain :
    (c : ℕ) (s : List ℕ)
    → (suc c == 37) ≡ false
    → decode_url (suc c ∷ s) ≡ plain (suc c) ∷ decode_url s
unfolding decode_url
decode-plain c [] n = refl
decode-plain c (h ∷ []) n = refl
decode-plain c (h ∷ l ∷ s) n = rw n refl

decode-escape :
    (h l : ℕ) (s : List ℕ)
    → is_xdigit h ≡ true
    → is_xdigit l ≡ true
    → decode_url (37 ∷ h ∷ l ∷ s) ≡ (digit_value h * 16 + digit_value l) ∷ decode_url s
unfolding decode_url
decode-escape h l s p q = rw (p, q) refl

decode-escaped :
    (c : ℕ) (s : List ℕ)
    → c < 256
    → decode_url (37 ∷ hex_digit (c / 16) ∷ hex_digit (c % 16) ∷ s) ≡ c ∷ decode_url s
decode-escaped c s h =
    let (digit_high, high) = hex_digit_lem (c / 16) (omega arith) in
    let (digit_low, low) = hex_digit_lem (c % 16) (omega arith) in
    let whole : digit_value (hex_digit (c / 16)) * 16 + digit_value (hex_digit (c % 16)) ≡ c =
      omega (arith, high, low) in
    decode-escape (hex_digit (c / 16)) (hex_digit (c % 16)) s digit_high digit_low
    ∙ ap (λ z. z ∷ decode_url s) whole

decode-url_char :
    (space2plus : Bool) (c : ℕ) (s : List ℕ)
    → suc c < 256
    → decode_url (url_char space2plus (suc c) ++ s) ≡ suc c ∷ decode_url s
unfolding url_char
decode-url_char space2plus c s h = elim (Bool-cases (suc c == 32)) [
  | inl y ↦
      let space : 32 ≡ suc c = sym ((==_iff (suc c) 32).0 y) in
      rw y (go space2plus ∙ ap (λ z. z ∷ decode_url s) space)
  | inr n ↦ elim (Bool-cases (is_unreserved (suc c))) [
    | inl y ↦
        let no_percent : (suc c == 37) ≡ false = ground arith in
        let no_plus : (suc c == 43) ≡ false = ground arith in
        rw (n, y) (decode-plain c s no_percent ∙ rw no_plus refl)
    | inr m ↦ rw (n, m) (decode-escaped (suc c) s h)
  ]
]
  where
    go :
        (b : Bool)
        → decode_url ((if b then 43 ∷ [] else 37 ∷ 50 ∷ 48 ∷ []) ++ s) ≡ 32 ∷ decode_url s
    go true = decode-plain 42 s refl
    go false = decode-escape 50 48 s refl refl

decode_url-encode_url :
    (space2plus : Bool) (s : List ℕ) → IsText s → decode_url (encode_url space2plus s) ≡ s
unfolding encode_url decode_url
decode_url-encode_url space2plus [] h = refl
decode_url-encode_url space2plus (zero ∷ s) h = absurd (omega (arith, h.0))
decode_url-encode_url space2plus (suc c ∷ s) h =
    decode-url_char space2plus c (encode_url space2plus s) h.1
    ∙ ap (◌∷◌ (suc c)) (decode_url-encode_url space2plus s h.2)

-- A text of bytes that are not zero is read back by `decode_url` from what `encode_url` wrote, whichever of
-- its two codes the space got, and a byte by `hex2char` from the two digits of `char2hex`.
pub codes_read_back :
    (space2plus : Bool) (s : List ℕ) (c : ℕ)
    → IsText s
    → c < 256
    → (decode_url (encode_url space2plus s) ≡ s) × (hex2char (char2hex c) ≡ c)
codes_read_back space2plus s c h k = (decode_url-encode_url space2plus s h, hex2char-char2hex c k)
