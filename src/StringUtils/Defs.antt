-- ===== src/StringUtils/Defs.antt =====
-- The URL and the hexadecimal codes of trunk/src/common/string_utils.cpp. A text is its bytes, which
-- end where a zero comes.
use my_git_hub.Common.{
  ℕ, zero, suc, ◌+◌, ◌-◌, ◌*◌, ◌/◌, ◌%◌, Bool, ◌&&◌, ◌||◌, List, [], ◌∷◌, ◌++◌, ◌==◌, leb,
  if◌then◌else◌, take, get_or, get_elem?, codes,
}

abbrev pub between : ℕ → ℕ → ℕ → Bool
between low high c = leb low c && leb c high

-- `hex[n]`, of sixteen upper-case digits
abbrev pub hex_digit : ℕ → ℕ
hex_digit n = get_or (get_elem? (codes "0123456789ABCDEF") n) 0

-- What stays as it is in a URL: digits, letters and `-`, `_`, `.`, `~`.
abbrev pub is_unreserved : ℕ → Bool
is_unreserved c =
    between 48 57 c
    || between 97 122 c
    || between 65 90 c
    || c == 45
    || c == 95
    || c == 46
    || c == 126

-- A round of `encode_url`: 32 is the space, 43 `+`, 37 `%`.
unfoldable pub url_char : Bool → ℕ → List ℕ
url_char space2plus c =
    if c == 32
    then (if space2plus then 43 ∷ [] else 37 ∷ 50 ∷ 48 ∷ [])
    else if is_unreserved c
    then c ∷ []
    else 37 ∷ hex_digit (c / 16) ∷ hex_digit (c % 16) ∷ []

unfoldable pub encode_url : Bool → List ℕ → List ℕ
unfolding url_char
encode_url space2plus [] = []
encode_url space2plus (zero ∷ s) = []
encode_url space2plus (suc c ∷ s) = url_char space2plus (suc c) ++ encode_url space2plus s

-- `isxdigit`, and the value of a digit to `strtol`
abbrev pub is_xdigit : ℕ → Bool
is_xdigit c = between 48 57 c || between 65 70 c || between 97 102 c

abbrev pub digit_value : ℕ → ℕ
digit_value c = if leb c 57 then c - 48 else if leb c 70 then c - 55 else c - 87

-- The character that `decode_url` puts for the next one; `%` before two digits is read by itself.
abbrev pub plain : ℕ → ℕ
plain c = if c == 43 then 32 else c

abbrev pub is_escape : ℕ → ℕ → ℕ → Bool
is_escape c h l = c == 37 && (is_xdigit h && is_xdigit l)

unfoldable pub decode_url : List ℕ → List ℕ
decode_url [] = []
decode_url (zero ∷ s) = []
decode_url (suc c ∷ []) = plain (suc c) ∷ []
decode_url (suc c ∷ h ∷ []) = plain (suc c) ∷ decode_url (h ∷ [])
decode_url (suc c ∷ h ∷ l ∷ s) =
    let escaped = decode_url s in
    let next = decode_url (h ∷ l ∷ s) in
    if is_escape (suc c) h l
    then (digit_value h * 16 + digit_value l) ∷ escaped
    else plain (suc c) ∷ next

unfoldable pub char2hex : ℕ → List ℕ
char2hex c = hex_digit (c / 16 % 16) ∷ hex_digit (c % 16) ∷ []

abbrev pub to_upper : ℕ → ℕ
to_upper c = if between 97 122 c then c - 32 else c

-- The loop of `hex2char`, over the first two characters; `c` is an `unsigned char`.
unfoldable pub hex2char_loop : ℕ → List ℕ → ℕ
hex2char_loop c [] = c
hex2char_loop c (d ∷ ds) =
    let c1 = to_upper d in
    let c2 = if leb 65 c1 then c1 - 55 else (c1 + 256 - 48) % 256 in
    hex2char_loop ((c * 16 % 256 + c2) % 256) ds

unfoldable pub hex2char : List ℕ → ℕ
unfolding hex2char_loop
hex2char hex = hex2char_loop 0 (take 2 hex)
