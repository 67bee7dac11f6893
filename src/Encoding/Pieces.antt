-- ===== src/Encoding/Pieces.antt =====
-- `encode` of a `ptr` and of a `buffer`: their bytes are not copied, the pieces are shared.
use my_git_hub.Common.{
  ℕ, ◌+◌, ◌%◌, ◌≤◌, ◌<◌, ◌≡◌, refl, ◌∙◌, subst, List, [], ◌∷◌, ◌++◌, arith, ◌==◌, Bool-cases, inl,
  inr, append-nil,
}
use my_git_hub.Common.Words.{add32, u32_mod}
use my_git_hub.ByteOrder.Swaps.{w32}
use my_git_hub.Buffer.Store.{Ptr, Store, view}
use my_git_hub.Buffer.Bytes.{contents, total, Fits, AllFit, contents-append, total-append}
use my_git_hub.Buffer.Defs.{Buffer, push_back, append_buffers}
use my_git_hub.Buffer.Grow.{append-Grows}
use my_git_hub.Buffer.Valid.{Before, AllBefore, Sized, IsValid, AllFit-append, AllBefore-append}
use my_git_hub.Buffer.Append.{Appended, all_same}
use my_git_hub.Buffer.Place.{Grows-IsOk}
use my_git_hub.Encoding.Defs.{Host, encode_int, encode_ptr, encode_buffer}
use my_git_hub.Encoding.Laws.{WritesAt, done-Writes, then-WritesAt}
use my_git_hub.Encoding.Values.{int_image, encode_int-Writes}

-- Pieces that fit and do not lie in the free tail go to the end.
pieces-Appended :
    (st : Store) (b : Buffer) (ps : List Ptr) (n : ℕ)
    → IsValid st b
    → Sized st
    → AllFit st ps
    → AllBefore b.append_buffer ps
    → n ≡ total ps % u32_mod
    → Appended st b
        (contents st ps)
        st
        (record b { buffers = b.buffers ++ ps; len = add32 b.len n })
pieces-Appended st b ps n v s fit before e = record {
  valid = record {
    fit = AllFit-append st b.buffers ps v.fit fit;
    counted = omega (arith, v.counted, total-append b.buffers ps);
    owned = v.owned;
    before = AllBefore-append b.append_buffer b.buffers ps v.before before;
    cursor = Grows-IsOk b.buffers (b.buffers ++ ps) b.last_p (append-Grows b.buffers ps) v.cursor;
  };
  sized = s;
  bytes = contents-append st b.buffers ps;
  kept = λ q f h. (f, h, refl);
}

module _ (header unit : ℕ) (pos_unit : 0 < unit) (small_unit : unit + 16 ≤ u32_mod) (host : Host)
    (st : Store) (b : Buffer) (valid : IsValid st b) (sized : Sized st) where
  -- `encode` of a `ptr` of fewer than 2 ^ 32 bytes writes its length and its bytes.
  encode_ptr-WritesAt :
      (p : Ptr)
      → p.len < u32_mod
      → (0 < p.len → Fits st p × Before b.append_buffer p)
      → WritesAt (encode_ptr header unit host p) (int_image host 4 p.len ++ view st p) st b
  unfolding encode_ptr push_back
  encode_ptr-WritesAt p short h =
      then-WritesAt (encode_int header unit host w32 p.len) _ (int_image host 4 p.len) (view st p)
        st b
        (encode_int-Writes header unit pos_unit small_unit host w32 p.len short st b valid sized)
        (λ st' b' a. elim (Bool-cases (p.len == 0)) [
          | inl y ↦
              let none_left : p.len ≡ 0 = ground arith in
              rw (y, none_left) (done-Writes st' b' a.valid a.sized)
          | inr n ↦
              let (fit, before) = h (ground arith) in
              let (fit', before', same) = a.kept p fit before in
              rw n (
                (st', record b' { buffers = b'.buffers ++ p ∷ []; len = add32 b'.len p.len }),
                refl,
                subst
                    (λ z.
                      Appended st' b' z st'
                        (record b' { buffers = b'.buffers ++ p ∷ []; len = add32 b'.len p.len }))
                    (append-nil (view st' p) ∙ same)
                    (pieces-Appended st' b' (p ∷ []) p.len a.valid a.sized (fit', tt) (before', tt)
                      (omega arith)),
              )
        ])

  -- `encode` of a `buffer` writes its length and its bytes.
  encode_buffer-WritesAt :
      (s : Buffer)
      → IsValid st s
      → AllBefore b.append_buffer s.buffers
      → WritesAt
          (encode_buffer header unit host s)
          (int_image host 4 s.len ++ contents st s.buffers)
          st
          b
  unfolding encode_buffer append_buffers
  encode_buffer-WritesAt s v before =
      then-WritesAt (encode_int header unit host w32 s.len) _ (int_image host 4 s.len)
        (contents st s.buffers) st b
        (encode_int-Writes header unit pos_unit small_unit host w32 s.len (omega (arith, v.counted))
          st b valid sized)
        (λ st' b' a.
          let (fit', before', same) =
            all_same b.append_buffer b'.append_buffer s.buffers v.fit before a.kept in
          (
            (st', record b' { buffers = b'.buffers ++ s.buffers; len = add32 b'.len s.len }),
            refl,
            subst
                (λ z.
                  Appended st' b' z st'
                    (record b' { buffers = b'.buffers ++ s.buffers; len = add32 b'.len s.len }))
                same
                (pieces-Appended st' b' s.buffers s.len a.valid a.sized fit' before' v.counted),
          ))

  -- `encode` of a `ptr` of fewer than 2 ^ 32 bytes, which lie in its raw, and of a valid buffer, to a
  -- valid buffer in whose free tail their bytes do not lie: it comes to an end, the length and the bytes
  -- stand at the end, and the buffer is valid. The length has four bytes, the lowest first where
  -- `BIG_ENDIAN` is defined just on the hosts that keep the highest byte first, and else the highest
  -- first.
  pub pieces_written :
      (p : Ptr) (s : Buffer)
      → p.len < u32_mod
      → (0 < p.len → Fits st p × Before b.append_buffer p)
      → IsValid st s
      → AllBefore b.append_buffer s.buffers
      → WritesAt (encode_ptr header unit host p) (int_image host 4 p.len ++ view st p) st b
        × WritesAt
            (encode_buffer header unit host s)
            (int_image host 4 s.len ++ contents st s.buffers)
            st
            b
  pieces_written p s short h v before =
      (encode_ptr-WritesAt p short h, encode_buffer-WritesAt s v before)
