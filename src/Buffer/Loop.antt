-- ===== src/Buffer/Loop.antt =====
-- The loop of `append(const char*, len)`, two rounds of which are enough, and `append(char)`.
use my_git_hub.Common.{
  ℕ, suc, ◌+◌, ◌-◌, ◌%◌, ◌≤◌, ◌<◌, ◌≡◌, refl, sym, ap, ◌∙◌, subst, Option, none, some, List, [],
  ◌∷◌, ◌++◌, arith, ◌==◌, length, take, drop, min, append-nil, ==_iff, take-append-drop,
  length-take, length-drop, Bool-cases, inl, inr,
}
use my_git_hub.Common.Words.{u32_mod}
use my_git_hub.Buffer.Store.{Ptr, Store, unused_tail_length}
use my_git_hub.Buffer.Bytes.{take_all, drop_all}
use my_git_hub.Buffer.Defs.{
  Buffer, fill_char, append_char, fill_gap, make_room, new_append_buffer, append_loop, alloc_length,
  round_up_to,
}
use my_git_hub.Buffer.Valid.{Owned, Sized, IsValid}
use my_git_hub.Buffer.Append.{Appended, both-Appended, fill-Appended}
use my_git_hub.Buffer.Room.{nothing-Appended, room-made, new_append_buffer-Appended}

-- How much of `src` the gap of the append buffer takes.
abbrev pub gap : Store → Option Ptr → List ℕ → ℕ
gap st o src = min (unused_tail_length st o) (length src)

fill_gap-Appended :
    (st : Store) (b : Buffer) (o : Option Ptr) (src : List ℕ)
    → IsValid st b
    → Sized st
    → b.append_buffer ≡ o
    → ((fill_gap src o st b).0 ≡ drop (gap st o src) src)
      × Appended st b (take (gap st o src) src) (fill_gap src o st b).1 (fill_gap src o st b).2
unfolding fill_gap
fill_gap-Appended st b none src valid sized own =
    let g : gap st none src ≡ 0 = omega arith in rw g (refl, nothing-Appended st b valid sized)
fill_gap-Appended st b (some a) src valid sized own = elim (Bool-cases (gap st (some a) src == 0)) [
  | inl y ↦
      let g : gap st (some a) src ≡ 0 = (==_iff (gap st (some a) src) 0).0 y in
      rw (y, g) (refl, nothing-Appended st b valid sized)
  | inr y ↦
      let (start, made, within) = subst (Owned st) own valid.owned in
      let some_bytes : 0 < gap st (some a) src = ground arith in
      let size : length (take (gap st (some a) src) src) ≡ gap st (some a) src =
        omega (arith, length-take (gap st (some a) src) src) in
      rw y (
        refl,
        fill-Appended st a (take (gap st (some a) src) src) start made (omega arith) (omega arith) b
            valid sized own,
      )
]

-- What is said of the bytes that a loop of `append` was given, if it comes to an end.
abbrev pub Returns : Store → Buffer → List ℕ → Option (Store × Buffer) → Type 0
Returns st b src none = ⊥
Returns st b src (some (st', b')) = Appended st b src st' b'

both-Returns :
    {st st' : Store} {b b' : Buffer} (xs ys : List ℕ) (o : Option (Store × Buffer))
    → Appended st b xs st' b'
    → Returns st' b' ys o
    → Returns st b (xs ++ ys) o
both-Returns xs ys none f g = g
both-Returns xs ys (some r) f g = both-Appended xs ys f g

returned :
    {st : Store} {b : Buffer} (src : List ℕ) (o : Option (Store × Buffer))
    → Returns st b src o
    → (r : Store × Buffer) × (o ≡ some r) × Appended st b src r.0 r.1
returned src none h = absurd h
returned src (some r) h = (r, refl, h)

fill_char-Returns :
    (c : ℕ) (st : Store) (b : Buffer) (o : Option Ptr)
    → IsValid st b
    → Sized st
    → b.append_buffer ≡ o
    → 0 < unused_tail_length st o
    → Returns st b (c ∷ []) (fill_char c o st b)
unfolding fill_char
fill_char-Returns c st b none valid sized own room = absurd (omega arith)
fill_char-Returns c st b (some a) valid sized own room =
    let (start, made, within) = subst (Owned st) own valid.owned in
    fill-Appended st a (c ∷ []) start made (omega arith) (omega arith) b valid sized own

module _ (header unit : ℕ) where
  -- A round that has room for everything is the last.
  last_round :
      (rounds : ℕ) (st : Store) (b : Buffer) (src : List ℕ)
      → IsValid st b
      → Sized st
      → length src ≤ unused_tail_length st b.append_buffer
      → Returns st b src (append_loop header unit (suc rounds) src st b)
  unfolding append_loop make_room
  last_round rounds st b [] valid sized room = nothing-Appended st b valid sized
  last_round rounds st b (x ∷ xs) valid sized room =
      let src : List ℕ = x ∷ xs in
      let all : gap st b.append_buffer src ≡ length src = omega arith in
      let (left, h) = fill_gap-Appended st b b.append_buffer src valid sized refl in
      go (fill_gap src b.append_buffer st b).0 (fill_gap src b.append_buffer st b).1
        (fill_gap src b.append_buffer st b).2
        (left ∙ drop_all (gap st b.append_buffer src) src (omega arith))
        (subst
          (λ z.
            Appended st b z (fill_gap src b.append_buffer st b).1
              (fill_gap src b.append_buffer st b).2)
          (take_all (gap st b.append_buffer src) src (omega arith)) h)
    where
      go :
          (rest : List ℕ) (st' : Store) (b' : Buffer)
          → rest ≡ []
          → Appended st b (x ∷ xs) st' b'
          → Returns st b (x ∷ xs) (
              append_loop header unit rounds rest
                (make_room header unit rest st' b').0
                (make_room header unit rest st' b').1)
      go [] st' b' e h = h
      go (y ∷ ys) st' b' e h = absurd (ground (arith, ap length e))

  round_up_to-bounds : (n d : ℕ) → 0 < d → (n ≤ round_up_to n d) × (round_up_to n d < n + d)
  round_up_to-bounds n d h = elim (Bool-cases (n % d == 0)) [
    | inl y ↦ rw y (omega arith, omega arith)
    | inr y ↦ let some_left : 0 < n % d = ground arith in rw y (omega arith, omega arith)
  ]

  alloc_length-bounds :
      (n : ℕ)
      → 0 < unit
      → (n ≤ alloc_length header unit n) × (alloc_length header unit n < n + 8 + unit)
  alloc_length-bounds n h =
      let (low, high) = round_up_to-bounds n 8 (omega arith) in
      let (low', high') = round_up_to-bounds (round_up_to n 8 + header) unit h in
      (omega arith, omega arith)

  module _ (pos_unit : 0 < unit) (st : Store) (b : Buffer) (valid : IsValid st b)
      (sized : Sized st) where
    -- After the first round there is room for what is left.
    then_last :
        (rounds : ℕ) (taken rest : List ℕ) (st' : Store) (b' : Buffer)
        → length rest + 8 + unit ≤ u32_mod
        → Appended st b taken st' b'
        → Returns st b (taken ++ rest) (
            append_loop header unit
              (suc rounds)
              rest
              (make_room header unit rest st' b').0
              (make_room header unit rest st' b').1)
    unfolding append_loop make_room new_append_buffer
    then_last rounds taken [] st' b' small f =
        subst (λ z. Appended st b z st' b') (sym (append-nil taken)) f
    then_last rounds taken (y ∷ ys) st' b' small f =
        let rest : List ℕ = y ∷ ys in
        let n : ℕ = alloc_length header unit (length rest) % u32_mod in
        let (low, high) = alloc_length-bounds (length rest) pos_unit in
        let fits : n < u32_mod = omega arith in
        let g = new_append_buffer-Appended header unit n fits st' b' f.valid f.sized in
        both-Returns taken rest _ f (
          both-Returns [] rest _ g (
            last_round rounds _ _ rest g.valid g.sized
              (omega (arith, room-made header unit n fits st' b'))))

    append_loop-Returns :
        (rounds : ℕ) (src : List ℕ)
        → length src + 8 + unit ≤ u32_mod
        → Returns st b src (append_loop header unit (suc (suc rounds)) src st b)
    unfolding append_loop
    append_loop-Returns rounds [] small = nothing-Appended st b valid sized
    append_loop-Returns rounds (x ∷ xs) small =
        let src : List ℕ = x ∷ xs in
        let (left, h) = fill_gap-Appended st b b.append_buffer src valid sized refl in
        let n : ℕ = gap st b.append_buffer src in
        let r = fill_gap src b.append_buffer st b in
        subst (λ z. Returns st b z (append_loop header unit (suc (suc rounds)) src st b))
          (ap (λ z. take n src ++ z) left ∙ take-append-drop n src)
          (then_last rounds (take n src) r.0 r.1 r.2
            (omega (arith, ap length left, length-drop n src)) h)

    -- What `append` of bytes does: it comes to an end, two rounds being enough, the bytes stand at
    -- the end, the buffer stays valid, and every piece apart from its free tail, also one of
    -- another buffer, keeps its bytes. The conditions: the lengths fit in 32 bits.
    pub append_loop-Appended :
        (rounds : ℕ) (src : List ℕ)
        → length src + 8 + unit ≤ u32_mod
        → (r : Store × Buffer) × (append_loop header unit (2 + rounds) src st b ≡ some r)
          × Appended st b src r.0 r.1
    append_loop-Appended rounds src small = returned src _ (
        subst (λ k. Returns st b src (append_loop header unit k src st b)) (omega arith)
          (append_loop-Returns rounds src small))

    -- What `append` of a character does when `sizeof(raw_combined) < BUFFER_ALLOC_UNIT` and that is
    -- a 32-bit number: it has an append buffer to write to, the character stands at the end, the buffer
    -- stays valid, and every piece apart from its free tail keeps its bytes.
    append_char-Appended :
        (c : ℕ)
        → header < unit
        → unit < u32_mod
        → (r : Store × Buffer) × (append_char header unit c st b ≡ some r)
          × Appended st b (c ∷ []) r.0 r.1
    unfolding append_char new_append_buffer
    append_char-Appended c smaller small =
        returned (c ∷ []) (append_char header unit c st b)
          (elim (Bool-cases (unused_tail_length st b.append_buffer == 0)) [
            | inl y ↦
                let n : ℕ = unit - header in
                let g = new_append_buffer-Appended header unit n (omega arith) st b valid sized in
                let r = new_append_buffer header unit n st b in
                rw y (
                  both-Returns [] (c ∷ []) (fill_char c r.1.append_buffer r.0 r.1) g (
                    fill_char-Returns c _ _ _ g.valid g.sized refl
                      (omega (arith, room-made header unit n (omega arith) st b))))
            | inr y ↦
                rw y (fill_char-Returns c st b b.append_buffer valid sized refl (ground arith))
          ])
