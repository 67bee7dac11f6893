-- ===== src/Armor/Decode.antt =====
-- `unarmor` reads back what `armor_line_break` wrote.
use my_git_hub.Common.{
  ℕ, zero, suc, ◌+◌, ◌*◌, ◌/◌, ◌%◌, ◌≤◌, ◌<◌, ◌≡◌, refl, sym, ap, ◌∙◌, false, List, [], ◌∷◌, ◌++◌,
  arith, ◌==◌, length, take, Bool-cases, inl, inr, AllBelow,
}
use my_git_hub.Armor.Defs.{
  done, Output, encode_bits, set_dst, unarmor_bits, unarmor_quad, unarmor_loop, unarmor,
  armor_line_break,
}
use my_git_hub.Armor.Bits.{bits_round_trip, padding}
use my_git_hub.Armor.Encode.{
  breaks, line_end, next_line, text, write_out, set_dst-write_out, armor_line_break_lem,
}

-- A line break is passed over.
unarmor_line_end :
    (room olen lw line : ℕ) (t : List ℕ)
    → unarmor_loop room olen (line_end lw line ++ t) ≡ unarmor_loop room olen t
unfolding unarmor_loop
unarmor_line_end room olen lw line t = elim (Bool-cases (breaks lw line)) [
  | inl y ↦ rw y (skip t)
  | inr n ↦ rw n refl
]
  where
    skip : (u : List ℕ) → unarmor_loop room olen (10 ∷ u) ≡ unarmor_loop room olen u
    skip [] = refl
    skip (a ∷ []) = refl
    skip (a ∷ b ∷ []) = refl
    skip (a ∷ b ∷ c ∷ u) = refl

-- One round of the loop at four characters that are not led by a line break.
unarmor_round :
    (room olen w x y z : ℕ) (src : List ℕ)
    → (w == 10) ≡ false
    → unarmor_loop room olen (w ∷ x ∷ y ∷ z ∷ src)
      ≡ unarmor_quad room olen w x y z (λ r. unarmor_loop r (olen + 3) src)
unfolding unarmor_loop
unarmor_round room olen w x y z src h = rw (h, unarmor_loop)

three_bytes :
    (room olen a c d : ℕ) (k : ℕ → Output)
    → a < 256
    → c < 256
    → d < 256
    → unarmor_quad room olen
        (encode_bits (a / 4))
        (encode_bits (a % 4 * 16 + c / 16))
        (encode_bits (c % 16 * 4 + d / 64))
        (encode_bits (d % 64))
        k
      ≡ set_dst a room (λ r₁. set_dst c r₁ (λ r₂. set_dst d r₂ k))
unfolding unarmor_bits
three_bytes room olen a c d k ha hc hd =
    let e₁ = bits_round_trip (a / 4) (omega arith) in
    let e₂ = bits_round_trip (a % 4 * 16 + c / 16) (omega arith) in
    let e₃ = bits_round_trip (c % 16 * 4 + d / 64) (omega arith) in
    let e₄ = bits_round_trip (d % 64) (omega arith) in
    let b₁ : a / 4 * 4 + (a % 4 * 16 + c / 16) / 16 ≡ a = omega arith in
    let b₂ : (a % 4 * 16 + c / 16) % 16 * 16 + (c % 16 * 4 + d / 64) / 4 ≡ c = omega arith in
    let b₃ : (c % 16 * 4 + d / 64) % 4 * 64 + d % 64 ≡ d = omega arith in
    rw (e₁.0, e₂.0, e₃.0, e₄.0, e₃.2, e₄.2, b₁, b₂, b₃)

two_bytes :
    (room olen a c : ℕ) (k : ℕ → Output)
    → a < 256
    → c < 256
    → unarmor_quad room olen
        (encode_bits (a / 4))
        (encode_bits (a % 4 * 16 + c / 16))
        (encode_bits (c % 16 * 4))
        b'='
        k
      ≡ set_dst a room (λ r₁. set_dst c r₁ (λ r₂. ([], done (olen + 2))))
unfolding unarmor_bits
two_bytes room olen a c k ha hc =
    let e₁ = bits_round_trip (a / 4) (omega arith) in
    let e₂ = bits_round_trip (a % 4 * 16 + c / 16) (omega arith) in
    let e₃ = bits_round_trip (c % 16 * 4) (omega arith) in
    let b₁ : a / 4 * 4 + (a % 4 * 16 + c / 16) / 16 ≡ a = omega arith in
    let b₂ : (a % 4 * 16 + c / 16) % 16 * 16 + c % 16 * 4 / 4 ≡ c = omega arith in
    rw (e₁.0, e₂.0, e₃.0, padding, e₃.2, b₁, b₂)

one_byte :
    (room olen a : ℕ) (k : ℕ → Output)
    → a < 256
    → unarmor_quad room olen (encode_bits (a / 4)) (encode_bits (a % 4 * 16)) b'=' b'=' k
      ≡ set_dst a room (λ r₁. ([], done (olen + 1)))
unfolding unarmor_bits
one_byte room olen a k ha =
    let e₁ = bits_round_trip (a / 4) (omega arith) in
    let e₂ = bits_round_trip (a % 4 * 16) (omega arith) in
    let b₁ : a / 4 * 4 + a % 4 * 16 / 16 ≡ a = omega arith in rw (e₁.0, e₂.0, padding, b₁)

finished : (r n : ℕ) → ◌≡◌ {A = Output} ([], done n) (write_out r [] n)
finished zero n = refl
finished (suc r) n = ground arith

not_break : (i : ℕ) → i < 64 → (encode_bits i == 10) ≡ false
not_break i h = (bits_round_trip i h).1

-- From the text of `src` its bytes come back, as many as there is room for.
unarmor_loop-text :
    (room olen lw line : ℕ) (src : List ℕ)
    → AllBelow 256 src
    → unarmor_loop room olen (text lw line src) ≡ write_out room src (olen + length src)
unfolding text unarmor_loop
unarmor_loop-text room olen lw line [] b = finished room olen ∙ ap (write_out room []) (omega arith)
unarmor_loop-text room olen lw line (a ∷ []) b =
    unarmor_round room olen _ _ _ _ (line_end lw line ++ []) (not_break (a / 4) (omega arith))
    ∙ one_byte room olen a _ b.0
    ∙ set_dst-write_out a room _ [] _ (λ r. finished r (olen + 1))
unarmor_loop-text room olen lw line (a ∷ c ∷ []) b =
    unarmor_round room olen _ _ _ _ (line_end lw line ++ []) (not_break (a / 4) (omega arith))
    ∙ two_bytes room olen a c _ b.0 b.1.0
    ∙ set_dst-write_out a room _ (c ∷ []) _
        (λ r. set_dst-write_out c r _ [] _ (λ r₂. finished r₂ (olen + 2)))
unarmor_loop-text room olen lw line (a ∷ c ∷ d ∷ src) b =
    unarmor_round room olen _ _ _ _ (line_end lw line ++ text lw (next_line lw line) src)
      (not_break (a / 4) (omega arith))
    ∙ three_bytes room olen a c d _ b.0 b.1.0 b.1.1.0
    ∙ set_dst-write_out a room _ (c ∷ d ∷ src) _ (λ r₁. set_dst-write_out c r₁ _ (d ∷ src) _ (λ r₂.
      set_dst-write_out d r₂ _ src _ (λ r₃.
        unarmor_line_end r₃ (olen + 3) lw line (text lw (next_line lw line) src)
        ∙ unarmor_loop-text r₃ (olen + 3) lw (next_line lw line) src b.1.1.1
        ∙ ap (write_out r₃ src) (omega arith))))

take_all : (r : ℕ) (t : List ℕ) → length t ≤ r → take r t ≡ t
take_all zero [] h = refl
take_all zero (x ∷ t) h = absurd (omega arith)
take_all (suc r) [] h = refl
take_all (suc r) (x ∷ t) h = ap (◌∷◌ x) (take_all r t (omega arith))

write_out-done :
    (room m : ℕ) (t w : List ℕ) (n : ℕ) → write_out room t m ≡ (w, done n) → (w ≡ t) × (m ≡ n)
write_out-done room m t w n h = ground (arith, take_all room t)

-- Whatever the line width, what `armor_line_break` wrote in full is read back: `unarmor` returns
-- the number of the bytes and writes them, if there is room for them.
pub unarmor-armor_line_break :
    (room room' lw n : ℕ) (src t : List ℕ)
    → AllBelow 256 src
    → armor_line_break room src lw ≡ (t, done n)
    → length src ≤ room'
    → unarmor room' t ≡ (src, done (length src))
unfolding unarmor
unarmor-armor_line_break room room' lw n src t b h enough =
    let written : t ≡ text lw 0 src =
      (write_out-done room _ (text lw 0 src) t n (sym (armor_line_break_lem room lw src) ∙ h)).0 in
    rw written (unarmor_loop-text room' 0 lw 0 src b ∙ ground (arith, take_all room' src enough))
