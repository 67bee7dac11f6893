-- ===== src/Buffer/Gather.antt =====
-- The operations that put whole pieces into a `buffer`: `claim_append`, `claim_prepend`, `append` of a
-- buffer and `share`.
use my_git_hub.Common.{
  ℕ, ◌≡◌, refl, sym, ap₂, ◌∙◌, subst, false, List, [], ◌∷◌, ◌++◌, arith, ◌==◌, append-nil,
  append_assoc,
}
use my_git_hub.Common.Words.{add32}
use my_git_hub.Buffer.Store.{Ptr, Store, view}
use my_git_hub.Buffer.Bytes.{contents, AllFit, contents-append}
use my_git_hub.Buffer.Defs.{
  Buffer, clear, push_back, append_buffers, claim_append, claim_prepend, push_back_all, share, swap,
  begin,
}
use my_git_hub.Buffer.Bytes.{total-append}
use my_git_hub.Buffer.Walk.{begin-IsOk}
use my_git_hub.Buffer.Valid.{AllBefore, IsValid, AllFit-append, AllBefore-append}
use my_git_hub.Buffer.Substr.{AllBefore-none}
use my_git_hub.Buffer.Grow.{append-Grows}
use my_git_hub.Buffer.Place.{Grows-IsOk}

-- A valid buffer of the bytes `xs`.
abbrev pub Holds : Store → List ℕ → Buffer → Type 0
Holds st xs b = IsValid st b × (contents st b.buffers ≡ xs)

module _ (st : Store) (b bl : Buffer) (valid : IsValid st b) (valid_bl : IsValid st bl)
    (free : AllBefore b.append_buffer bl.buffers) where
  append_buffers-Holds :
      Holds st (contents st b.buffers ++ contents st bl.buffers) (append_buffers bl b)
  unfolding append_buffers
  append_buffers-Holds = (
    record {
      fit = AllFit-append st b.buffers bl.buffers valid.fit valid_bl.fit;
      counted = omega (arith, valid.counted, valid_bl.counted, total-append b.buffers bl.buffers);
      owned = valid.owned;
      before = AllBefore-append b.append_buffer b.buffers bl.buffers valid.before free;
      cursor =
          Grows-IsOk b.buffers (b.buffers ++ bl.buffers) b.last_p
            (append-Grows b.buffers bl.buffers) valid.cursor;
    },
    contents-append st b.buffers bl.buffers,
  )

  taken-Holds : Holds st [] (claim_append bl b).1
  unfolding claim_append
  taken-Holds = (
    record {
      fit = tt;
      counted = omega arith;
      owned = valid_bl.owned;
      before = tt;
      cursor = omega arith;
    },
    refl,
  )

  push_back_all-Holds :
      (ps : List Ptr) (c : Buffer) (xs : List ℕ)
      → AllFit st ps
      → AllBefore c.append_buffer ps
      → Holds st xs c
      → Holds st (xs ++ contents st ps) (push_back_all ps c)
  unfolding push_back_all push_back
  push_back_all-Holds [] c xs f a h = subst (λ z. Holds st z c) (sym (append-nil xs)) h
  push_back_all-Holds (p ∷ ps) c xs f a (v, e) =
      let some_len : (p.len == 0) ≡ false = ground (arith, f.0.some_bytes) in
      let c' : Buffer = record c { buffers = c.buffers ++ p ∷ []; len = add32 c.len p.len } in
      let pushed : IsValid st c' = record {
        fit = AllFit-append st c.buffers (p ∷ []) v.fit (f.0, tt);
        counted = omega (arith, v.counted, total-append c.buffers (p ∷ []));
        owned = v.owned;
        before = AllBefore-append c.append_buffer c.buffers (p ∷ []) v.before (a.0, tt);
        cursor =
            Grows-IsOk c.buffers c'.buffers c.last_p (append-Grows c.buffers (p ∷ [])) v.cursor;
      } in
      let bytes : contents st c'.buffers ≡ xs ++ view st p =
        contents-append st c.buffers (p ∷ []) ∙ ap₂ ◌++◌ e (append-nil (view st p)) in
      let push : push_back p c ≡ c' = rw some_len refl in
      subst (λ z. Holds st (xs ++ contents st (p ∷ ps)) (push_back_all ps z)) (sym push)
        (subst (λ z. Holds st z (push_back_all ps c'))
          (append_assoc xs (view st p) (contents st ps))
          (push_back_all-Holds ps c' (xs ++ view st p) f.1 a.1 (pushed, bytes)))

  swapped-Holds :
      (c : Buffer)
      → IsValid st c
      → Holds st (contents st c.buffers) (record c { last_p = begin c.buffers })
  swapped-Holds c v = (
    record {
      fit = v.fit;
      counted = v.counted;
      owned = v.owned;
      before = v.before;
      cursor = begin-IsOk st c.buffers v.fit;
    },
    refl,
  )

  -- What becomes of a valid buffer `b` and a valid one `bl` whose pieces do not lie in the free tail of
  -- `b`: `append` and `claim_append` put the bytes of `bl` behind those of `b`, `claim_prepend` puts them
  -- before, and the claims leave `bl` without any; `share` and `swap` take them over. Each result is valid, but for that of `claim_prepend`,
  -- of which only the contents are said.
  pub gathered :
      Holds st (contents st b.buffers ++ contents st bl.buffers) (append_buffers bl b)
      × Holds st (contents st b.buffers ++ contents st bl.buffers) (claim_append bl b).0
      × Holds st [] (claim_append bl b).1
      × (contents st (claim_prepend bl b).0.buffers
          ≡ contents st bl.buffers ++ contents st b.buffers)
      × Holds st [] (claim_prepend bl b).1
      × Holds st (contents st bl.buffers) (share bl b)
      × Holds st (contents st bl.buffers) (swap b bl).0
      × Holds st (contents st b.buffers) (swap b bl).1
  unfolding append_buffers claim_append claim_prepend share clear swap
  gathered = (
    append_buffers-Holds,
    append_buffers-Holds,
    taken-Holds,
    contents-append st bl.buffers b.buffers,
    taken-Holds,
    push_back_all-Holds bl.buffers (clear b) [] valid_bl.fit (AllBefore-none st bl.buffers) (
      record { fit = tt; counted = omega arith; owned = tt; before = tt; cursor = omega arith },
      refl,
    ),
    swapped-Holds bl valid_bl,
    swapped-Holds b valid,
  )
