-- ===== src/Buffer/Room.antt =====
-- A new append buffer: the pieces keep their bytes, and all of it is free.
use my_git_hub.Common.{
  ℕ, ◌<◌, ◌≡◌, refl, sym, ◌∙◌, true, false, some, [], arith, ◌==◌, append-nil, ==_iff, Bool-cases,
  inl, inr,
}
use my_git_hub.Common.Words.{u32_mod}
use my_git_hub.Buffer.Store.{Ptr, Store, create, raw_length}
use my_git_hub.Buffer.Bytes.{contents, Fits, length-fresh_bytes}
use my_git_hub.Buffer.Defs.{Buffer, new_append_buffer}
use my_git_hub.Buffer.Valid.{Sized, IsValid}
use my_git_hub.Buffer.Append.{Same, Appended, all_same}

pub nothing-Appended : (st : Store) (b : Buffer) → IsValid st b → Sized st → Appended st b [] st b
nothing-Appended st b valid sized = record {
  valid = valid;
  sized = sized;
  bytes = sym (append-nil (contents st b.buffers));
  kept = λ q f h. (f, h, refl);
}

module _ (header unit : ℕ) where
  -- A new append buffer of `n` bytes, all of them free.
  module _ (n : ℕ) (small : n < u32_mod) (st : Store) (b : Buffer) where
    abbrev pub made : Store
    made = (create n st).0

    abbrev pub whole : Ptr
    whole = record { raw = st.next; off = 0; len = 0 }

    pub made-kept : (q : Ptr) → Fits st q → Same st made (some whole) q
    unfolding create
    made-kept q f =
        let old : (q.raw == st.next) ≡ false = ground (arith, f.made) in
        rw old (
          record {
            made = omega (arith, f.made);
            some_bytes = f.some_bytes;
            within = rw old f.within;
          },
          (λ t. ground arith),
          refl,
        )

    pub made-Sized : Sized st → Sized made
    unfolding create
    made-Sized sized r = elim (Bool-cases (r == st.next)) [
      | inl y ↦ rw y (omega (arith, length-fresh_bytes st.junk n))
      | inr y ↦ rw y (sized r)
    ]

    pub room-made : raw_length made whole ≡ n
    unfolding create
    room-made =
        let own : (st.next == st.next) ≡ true = (==_iff st.next st.next).1 refl in
        rw own (length-fresh_bytes st.junk n)

    pub new_append_buffer-Appended :
        IsValid st b
        → Sized st
        → Appended st b []
            (new_append_buffer header unit n st b).0
            (new_append_buffer header unit n st b).1
    unfolding new_append_buffer create
    new_append_buffer-Appended valid sized =
        let (fits', before', same) =
          all_same b.append_buffer (some whole) b.buffers valid.fit valid.before
            (λ q f h. made-kept q f) in
        record {
          valid = record {
            fit = fits';
            counted = valid.counted;
            owned = (refl, omega arith, omega arith);
            before = before';
            cursor = valid.cursor;
          };
          sized = made-Sized sized;
          bytes = same ∙ sym (append-nil (contents st b.buffers));
          kept = λ q f h. made-kept q f;
        }
