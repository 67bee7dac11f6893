-- ===== src/Armor/Encode.antt =====
-- What `armor_line_break` writes, as one text that does not depend on the room.
use my_git_hub.Common.{
  ℕ, zero, suc, ◌+◌, ◌*◌, ◌/◌, ◌%◌, ◌≡◌, refl, ap, ◌∙◌, Bool, ◌&&◌, not, List, [], ◌∷◌, ◌++◌, arith,
  leb, ◌==◌, if◌then◌else◌, length, take, Bool-cases, inl, inr,
}
use my_git_hub.Armor.Defs.{
  done, erange, Output, encode_bits, set_dst, set_quad, end_round, armor_loop, armor_line_break,
}

-- whether a line is full after the round that begins at column `line`
abbrev pub breaks : ℕ → ℕ → Bool
breaks lw line = not (lw == 0) && line + 4 == lw

abbrev pub line_end : ℕ → ℕ → List ℕ
line_end lw line = if breaks lw line then 10 ∷ [] else []

abbrev pub next_line : ℕ → ℕ → ℕ
next_line lw line = if breaks lw line then 0 else line + 4

-- One round of four characters, the line break that may follow, and the text behind it.
abbrev pub round_text : ℕ → ℕ → ℕ → ℕ → ℕ → ℕ → List ℕ → List ℕ
round_text lw line c₁ c₂ c₃ c₄ t = c₁ ∷ c₂ ∷ c₃ ∷ c₄ ∷ (line_end lw line ++ t)

-- The armored text of `src`, from the column `line` on.
unfoldable pub text : ℕ → ℕ → List ℕ → List ℕ
text lw line [] = []
text lw line (a ∷ []) =
    round_text lw line (encode_bits (a / 4)) (encode_bits (a % 4 * 16)) b'=' b'=' []
text lw line (a ∷ b ∷ []) =
    round_text lw line (encode_bits (a / 4)) (encode_bits (a % 4 * 16 + b / 16))
      (encode_bits (b % 16 * 4)) b'=' []
text lw line (a ∷ b ∷ c ∷ src) =
    round_text lw line (encode_bits (a / 4)) (encode_bits (a % 4 * 16 + b / 16))
      (encode_bits (b % 16 * 4 + c / 64)) (encode_bits (c % 64)) (text lw (next_line lw line) src)

-- A call that writes the text `t` and returns `n`, or as much of it as there is room for.
abbrev pub write_out : ℕ → List ℕ → ℕ → Output
write_out room t n = (take room t, if leb (length t) room then done n else erange)

pub set_dst-write_out :
    (c room n : ℕ) (t : List ℕ) (k : ℕ → Output)
    → ((r : ℕ) → k r ≡ write_out r t n)
    → set_dst c room k ≡ write_out room (c ∷ t) n
unfolding set_dst
set_dst-write_out c zero n t k h = ground arith
set_dst-write_out c (suc room) n t k h = rw (h room) (ground arith)

set_quad-write_out :
    (c₁ c₂ c₃ c₄ room n : ℕ) (t : List ℕ) (k : ℕ → Output)
    → ((r : ℕ) → k r ≡ write_out r t n)
    → set_quad c₁ c₂ c₃ c₄ room k ≡ write_out room (c₁ ∷ c₂ ∷ c₃ ∷ c₄ ∷ t) n
set_quad-write_out c₁ c₂ c₃ c₄ room n t k h = set_dst-write_out c₁ room n _ _ λ r₁.
    set_dst-write_out c₂ r₁ n _ _
      λ r₂. set_dst-write_out c₃ r₂ n _ _ λ r₃. set_dst-write_out c₄ r₃ n t k h

end_round-write_out :
    (lw room olen line : ℕ) (t : List ℕ) (k : ℕ → ℕ → ℕ → Output)
    → ((r o : ℕ) → k r o (next_line lw line) ≡ write_out r t (o + length t))
    → end_round lw room olen line k
      ≡ write_out room (line_end lw line ++ t) (olen + 4 + length (line_end lw line ++ t))
unfolding end_round
end_round-write_out lw room olen line t k h = elim (Bool-cases (breaks lw line)) [
  | inl y ↦ rw y (
      set_dst-write_out 10 room _ t _ λ r.
        let e : olen + 5 + length t ≡ olen + 4 + suc (length t) = omega arith in
        rw (← e) (rw y at (h r (olen + 5))))
  | inr n ↦ rw n (rw n at (h room (olen + 4)))
]

round-write_out :
    (lw c₁ c₂ c₃ c₄ room olen line : ℕ) (t : List ℕ) (k : ℕ → ℕ → ℕ → Output)
    → ((r o : ℕ) → k r o (next_line lw line) ≡ write_out r t (o + length t))
    → set_quad c₁ c₂ c₃ c₄ room (λ r. end_round lw r olen line k)
      ≡ write_out room
          (round_text lw line c₁ c₂ c₃ c₄ t)
          (olen + length (round_text lw line c₁ c₂ c₃ c₄ t))
round-write_out lw c₁ c₂ c₃ c₄ room olen line t k h =
    let rest : List ℕ = line_end lw line ++ t in
    let e : olen + 4 + length rest ≡ olen + suc (suc (suc (suc (length rest)))) = omega arith in
    rw (← e)
      (set_quad-write_out c₁ c₂ c₃ c₄ room _ rest _ λ r. end_round-write_out lw r olen line t k h)

finish : (r o : ℕ) → ◌≡◌ {A = Output} ([], done o) (write_out r [] (o + length {A = ℕ} []))
finish zero o = ap (λ n. ([], done n)) (omega arith)
finish (suc r) o = ground arith

-- The loop writes the text as far as there is room, and returns how far `olen` has come.
armor_loop-write_out :
    (lw room olen line : ℕ) (src : List ℕ)
    → armor_loop lw room olen line src
      ≡ write_out room (text lw line src) (olen + length (text lw line src))
unfolding armor_loop text
armor_loop-write_out lw room olen line [] = finish room olen
armor_loop-write_out lw room olen line (a ∷ []) =
    round-write_out lw _ _ _ _ room olen line [] (λ r o l. ([], done o)) finish
armor_loop-write_out lw room olen line (a ∷ b ∷ []) =
    round-write_out lw _ _ _ _ room olen line [] (λ r o l. ([], done o)) finish
armor_loop-write_out lw room olen line (a ∷ b ∷ c ∷ src) =
    round-write_out lw _ _ _ _ room olen line (text lw (next_line lw line) src)
      (λ r o l. armor_loop lw r o l src) λ r o. armor_loop-write_out lw r o (next_line lw line) src

-- `armor_line_break` writes a text that depends on the bytes and the line width only: with room for the whole text it is written and
-- its length returned, and with less the call fails and has written the part that fits.
pub armor_line_break_lem :
    (room lw : ℕ) (src : List ℕ)
    → armor_line_break room src lw ≡ write_out room (text lw 0 src) (length (text lw 0 src))
unfolding armor_line_break
armor_line_break_lem room lw src =
    armor_loop-write_out lw room 0 0 src ∙ ap (write_out room (text lw 0 src)) (omega arith)

-- Without line breaks each three bytes, and what is left of them, take four characters.
pub length-text : (line : ℕ) (src : List ℕ) → length (text 0 line src) ≡ (length src + 2) / 3 * 4
unfolding text
length-text line [] = refl
length-text line (a ∷ []) = refl
length-text line (a ∷ b ∷ []) = refl
length-text line (a ∷ b ∷ c ∷ src) = omega (arith, length-text (line + 4) src)
