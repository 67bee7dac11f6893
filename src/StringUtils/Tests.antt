-- ===== src/StringUtils/Tests.antt =====
-- Runs of the codes of trunk/src/common/string_utils.cpp.
use my_git_hub.Common.{◌≡◌, refl, true, false, [], ◌∷◌, arith, codes}
use my_git_hub.StringUtils.Defs.{url_char, encode_url, decode_url, char2hex, hex2char}
use my_git_hub.StringUtils.Url.{codes_read_back}

coded : encode_url true (codes "a b+%") ≡ codes "a+b%2B%25"
unfolding encode_url url_char
coded = refl

-- A `%` that no two digits follow stands for itself.
lone_percent : decode_url (codes "1%zz%4") ≡ codes "1%zz%4"
unfolding decode_url
lone_percent = refl

codes_read_back_example :
    (decode_url (encode_url false (32 ∷ 200 ∷ [])) ≡ 32 ∷ 200 ∷ [])
    × (hex2char (char2hex 171) ≡ 171)
codes_read_back_example =
    codes_read_back false (32 ∷ 200 ∷ []) 171
      (omega arith, omega arith, (omega arith, omega arith, tt)) (omega arith)
