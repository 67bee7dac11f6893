-- ===== src/Encoding/Sets.antt =====
-- `std::set` of trunk/include/common/encoding.h: the members in their order, which `decode` inserts
-- one by one.
use my_git_hub.Common.{
  ℕ, ◌+◌, ◌%◌, ◌≤◌, ◌<◌, ◌≡◌, refl, sym, ap, ◌∙◌, subst, Bool, true, false, List, [], ◌∷◌, ◌++◌,
  arith, length, append_assoc, append-nil,
}
use my_git_hub.Common.Words.{u32_mod}
use my_git_hub.ByteOrder.Swaps.{w32}
use my_git_hub.Encoding.Defs.{
  Host, Encoder, Decoder, insert, encode_members, decode_members, encode_int, decode_int,
  encode_set, decode_set,
}
use my_git_hub.Encoding.Laws.{Writes, Reads, done-Writes, then-Writes, value-Reads, then-Reads}
use my_git_hub.Encoding.Values.{int_image, encode_int-Writes, decode_int-Reads}
use my_git_hub.Encoding.Codec.{IsCodec}

abbrev pub AllOk : {A : Type 0} → (A → Type 0) → List A → Type 0
AllOk Ok [] = Unit {0}
AllOk Ok (x ∷ xs) = Ok x × AllOk Ok xs

abbrev pub Ascending : {A : Type 0} → (A → A → Bool) → List A → Type 0
Ascending lt [] = Unit {0}
Ascending lt (x ∷ xs) = AllOk (λ y. lt x y ≡ true) xs × Ascending lt xs

abbrev pub images : {A : Type 0} → (A → List ℕ) → List A → List ℕ
images image [] = []
images image (x ∷ xs) = image x ++ images image xs

abbrev pub set_image : {A : Type 0} → Host → (A → List ℕ) → List A → List ℕ
set_image host image s = int_image host 4 (length s) ++ images image s

module _ {A : Type 0} (lt : A → A → Bool)
    (asymmetric : (x y : A) → lt x y ≡ true → lt y x ≡ false) where
  -- A new greatest member goes to the end.
  insert_last : (x : A) (s : List A) → AllOk (λ y. lt y x ≡ true) s → insert lt x s ≡ s ++ x ∷ []
  insert_last x [] h = refl
  insert_last x (y ∷ s) h = rw (asymmetric y x h.0, h.0) (ap (◌∷◌ y) (insert_last x s h.1))

module _ {A : Type 0} (lt : A → A → Bool) where
  before_next :
      (s : List A) (x : A) (xs : List A) → Ascending lt (s ++ x ∷ xs) → AllOk (λ y. lt y x ≡ true) s
  before_next [] x xs h = tt
  before_next (y ∷ s) x xs h = (meeting s h.0, before_next s x xs h.1)
    where
      meeting : (t : List A) → AllOk (λ z. lt y z ≡ true) (t ++ x ∷ xs) → lt y x ≡ true
      meeting [] k = k.0
      meeting (z ∷ t) k = meeting t k.1

module _ {A : Type 0} (encode : A → Encoder) (decode : Decoder A) (image : A → List ℕ)
    (Ok : A → Type 0) (codec : IsCodec encode decode image Ok) where
  encode_members-Writes :
      (xs : List A) → AllOk Ok xs → Writes (encode_members encode xs) (images image xs)
  unfolding encode_members
  encode_members-Writes [] h = done-Writes
  encode_members-Writes (x ∷ xs) h =
      then-Writes (encode x) (encode_members encode xs) (image x) (images image xs)
        (codec.writes x h.0) (encode_members-Writes xs h.1)

  module _ (lt : A → A → Bool) (asymmetric : (x y : A) → lt x y ≡ true → lt y x ≡ false) where
    decode_members-Reads :
        (s xs : List A)
        → AllOk Ok xs
        → Ascending lt (s ++ xs)
        → Reads (decode_members lt decode (length xs) s) (images image xs) (s ++ xs)
    unfolding decode_members
    decode_members-Reads s [] h k =
        subst (Reads (decode_members lt decode 0 s) []) (sym (append-nil s)) (value-Reads s)
    decode_members-Reads s (x ∷ xs) h k =
        let joined : insert lt x s ++ xs ≡ s ++ x ∷ xs =
          ap (λ z. z ++ xs) (insert_last lt asymmetric x s (before_next lt s x xs k))
          ∙ append_assoc s (x ∷ []) xs in
        then-Reads decode _ (image x) (images image xs) x (s ++ x ∷ xs) (codec.reads x h.0) (
          subst (Reads (decode_members lt decode (length xs) (insert lt x s)) (images image xs))
            joined
            (decode_members-Reads (insert lt x s) xs h.1 (subst (Ascending lt) (sym joined) k)))

    -- A set of fewer than 2 ^ 32 members, each of a type that keeps the promises of a codec and in a
    -- strict order, keeps them too: the number of its members in four bytes and its members in their
    -- order are written, and read back to the same set; bytes that end too early make `decode` throw.
    pub set-IsCodec :
        (header unit : ℕ)
        → 0 < unit
        → unit + 16 ≤ u32_mod
        → (host : Host)
        → IsCodec
            (encode_set header unit host encode)
            (decode_set host lt decode)
            (set_image host image)
            (λ s. Ascending lt s × AllOk Ok s × (length s < u32_mod))
    unfolding encode_set decode_set
    set-IsCodec header unit pos_unit small_unit host = record {
      writes = λ s (sorted, ok, short).
          let n : length s % u32_mod ≡ length s = omega (arith, short) in
          rw n (
            then-Writes (encode_int header unit host w32 (length s)) (encode_members encode s)
              (int_image host 4 (length s)) (images image s)
              (encode_int-Writes header unit pos_unit small_unit host w32 (length s) short)
              (encode_members-Writes s ok));
      reads = λ s (sorted, ok, short).
          then-Reads (decode_int host w32) _ (int_image host 4 (length s)) (images image s)
            (length s) s (decode_int-Reads host w32 (length s) short)
            (decode_members-Reads [] s ok sorted);
    }
