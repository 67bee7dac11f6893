-- ===== src/Buffer/Tests.antt =====
-- Runs of trunk/src/common/buffer.cpp on a small buffer.
use my_git_hub.Common.{
  ℕ, zero, suc, ◌+◌, ◌<◌, ◌≤◌, ◌≡◌, refl, sym, some, List, [], ◌∷◌, arith, AllBelow, get_elem?,
}
use my_git_hub.Crc.Reference.{reference-Documented, intel_host}
use my_git_hub.Buffer.Store.{Store}
use my_git_hub.Buffer.Bytes.{contents, total}
use my_git_hub.Buffer.Defs.{Buffer, begin, empty_buffer, append_loop}
use my_git_hub.Buffer.Valid.{IsValid, Sized}
use my_git_hub.Buffer.Append.{Appended}
use my_git_hub.Buffer.Loop.{append_loop-Appended}
use my_git_hub.Buffer.Cursor.{finished, threw, copy}
use my_git_hub.Buffer.Copy.{IsCopy, copy-IsCopy}
use my_git_hub.Buffer.Place.{IsOk}
use my_git_hub.Buffer.CrcCache.{Checksum, CrcMaps, crc32}
use my_git_hub.Buffer.Crc32.{MapsOk}
use my_git_hub.Buffer.Chosen.{over, chosen, run_lem, crc32-over}
use my_git_hub.Buffer.Slice.{byte_at, substr_of, same_bytes, contents_equal}
use my_git_hub.Buffer.Substr.{IsSubstr, substr_of-IsSubstr}
use my_git_hub.Buffer.Index.{byte_at-get_elem?}
use my_git_hub.Buffer.Equal.{contents_equal-same_bytes}
use my_git_hub.Buffer.Splice.{splice}
use my_git_hub.Buffer.Spliced.{IsSplice, splice-IsSplice}
use my_git_hub.Common.{◌++◌}
use my_git_hub.Buffer.Defs.{append_buffers, claim_append, claim_prepend, share, swap}
use my_git_hub.Buffer.Gather.{Holds, gathered}

abbrev raws : ℕ → List ℕ
raws zero = 1 ∷ 2 ∷ 3 ∷ 4 ∷ []
raws (suc zero) = 5 ∷ 6 ∷ 0 ∷ 0 ∷ []
raws (suc (suc r)) = []

abbrev store : Store
store = record { bytes = raws; next = 2; junk = λ i. 0 }

-- Two pieces, the second in an append buffer with two free bytes.
abbrev five : Buffer
five = record {
  buffers = record { raw = 0; off = 1; len = 3 } ∷ record { raw = 1; off = 0; len = 2 } ∷ [];
  len = 5;
  memcopy_count = 0;
  append_buffer = some (record { raw = 1; off = 0; len = 2 });
  last_p = begin (record { raw = 0; off = 1; len = 3 } ∷ []);
}

store-Sized : Sized store
store-Sized zero = omega arith
store-Sized (suc zero) = omega arith
store-Sized (suc (suc r)) = omega arith

store-bytes : (r : ℕ) → AllBelow 256 (raws r)
store-bytes zero = (omega arith, (omega arith, (omega arith, (omega arith, tt))))
store-bytes (suc zero) = (omega arith, (omega arith, (omega arith, (omega arith, tt))))
store-bytes (suc (suc r)) = tt

five-IsOk : IsOk five.buffers five.last_p
five-IsOk = record {
  pre = [];
  joined = refl;
  offset = omega arith;
  inside = omega arith;
  real = omega arith;
}

five-IsValid : IsValid store five
five-IsValid = record {
  fit = (
    record { made = omega arith; some_bytes = omega arith; within = omega arith },
    (record { made = omega arith; some_bytes = omega arith; within = omega arith }, tt),
  );
  counted = omega arith;
  owned = (refl, omega arith, omega arith);
  before = ((λ t. ground arith), ((λ t. omega arith), tt));
  cursor = five-IsOk;
}

abbrev kept : CrcMaps
kept zero = record { from = 1; to = 4; base = 7; crc = over (2 ∷ 3 ∷ 4 ∷ []) 7 } ∷ []
kept (suc r) = []

append_loop-Appended_example :
    (r : Store × Buffer) × (append_loop 48 4096 (2 + 0) (7 ∷ 8 ∷ 9 ∷ []) store five ≡ some r)
    × Appended store five (7 ∷ 8 ∷ 9 ∷ []) r.0 r.1
append_loop-Appended_example =
    append_loop-Appended 48 4096 (omega arith) store five five-IsValid store-Sized 0
      (7 ∷ 8 ∷ 9 ∷ []) (omega arith)

copy-IsCopy_example : IsCopy store five 2 2 (copy 2 2 2 store five)
copy-IsCopy_example =
    copy-IsCopy store five five-IsValid (omega arith) 2 2 2 (omega arith) (omega arith)

substr_of-IsSubstr_example : IsSubstr store five 1 3 (substr_of five 1 3 empty_buffer)
substr_of-IsSubstr_example =
    substr_of-IsSubstr store five five-IsValid (omega arith) 1 3 empty_buffer (omega arith)

empty_buffer-IsValid : IsValid store empty_buffer
empty_buffer-IsValid = record {
  fit = tt;
  counted = omega arith;
  owned = tt;
  before = tt;
  cursor = omega arith;
}

splice-IsSplice_example :
    IsSplice store five (some empty_buffer) 2 2 (splice 2 2 five (some empty_buffer))
splice-IsSplice_example =
    splice-IsSplice store store-Sized five five-IsValid (some empty_buffer)
      (empty_buffer-IsValid, (tt, (tt, tt))) 2 2 (omega arith) (omega arith)

byte_at-get_elem?_example :
    (3 < total five.buffers
      → byte_at store five 3 ≡ finished (get_elem? (contents store five.buffers) 3))
    × (total five.buffers ≤ 3 → byte_at store five 3 ≡ threw)
byte_at-get_elem?_example = byte_at-get_elem? store five 3 five-IsValid (omega arith)

-- The same bytes in three pieces.
abbrev cut_up : Buffer
cut_up = record five {
  buffers =
      record { raw = 0; off = 1; len = 1 }
      ∷ record { raw = 0; off = 2; len = 2 }
      ∷ record { raw = 1; off = 0; len = 2 }
      ∷ [];
}

cut_up-IsValid : IsValid store cut_up
cut_up-IsValid = record {
  fit = (
    record { made = omega arith; some_bytes = omega arith; within = omega arith },
    (
      record { made = omega arith; some_bytes = omega arith; within = omega arith },
      (record { made = omega arith; some_bytes = omega arith; within = omega arith }, tt),
    ),
  );
  counted = omega arith;
  owned = (refl, omega arith, omega arith);
  before = ((λ t. ground arith), ((λ t. ground arith), ((λ t. omega arith), tt)));
  cursor = record {
    pre = [];
    joined = refl;
    offset = omega arith;
    inside = omega arith;
    real = omega arith;
  };
}

contents_equal-same_bytes_example :
    contents_equal 5 store five cut_up
    ≡ finished (same_bytes (contents store five.buffers) (contents store cut_up.buffers))
contents_equal-same_bytes_example =
    contents_equal-same_bytes 5 store five cut_up five-IsValid cut_up-IsValid (omega arith)
      (omega arith) (omega arith)

abbrev intel_checksum : Checksum
intel_checksum = chosen reference-Documented intel_host (λ e. absurd (ground arith))

kept-MapsOk : MapsOk intel_checksum store five.append_buffer kept
kept-MapsOk zero = (
  record {
    fit = record { made = omega arith; some_bytes = omega arith; within = omega arith };
    before = λ t. ground arith;
    base_below = omega arith;
    right = sym (
        run_lem reference-Documented intel_host (λ e. absurd (ground arith)) (2 ∷ 3 ∷ 4 ∷ []) 7
          (omega arith, (omega arith, (omega arith, tt))) (omega arith));
  },
  tt,
)
kept-MapsOk (suc r) = tt

crc32-over_example :
    ((crc32 intel_checksum store five.buffers kept 9).0 ≡ over (2 ∷ 3 ∷ 4 ∷ 5 ∷ 6 ∷ []) 9)
    × MapsOk intel_checksum store five.append_buffer
        (crc32 intel_checksum store five.buffers kept 9).1
crc32-over_example =
    crc32-over reference-Documented intel_host (λ e. absurd (ground arith)) store five kept 9
      five-IsValid store-bytes (omega arith) kept-MapsOk

gathered_example :
    Holds store
      (contents store five.buffers ++ contents store cut_up.buffers)
      (append_buffers cut_up five)
    × Holds store
        (contents store five.buffers ++ contents store cut_up.buffers)
        (claim_append cut_up five).0
    × Holds store [] (claim_append cut_up five).1
    × (contents store (claim_prepend cut_up five).0.buffers
        ≡ contents store cut_up.buffers ++ contents store five.buffers)
    × Holds store [] (claim_prepend cut_up five).1
    × Holds store (contents store cut_up.buffers) (share cut_up five)
    × Holds store (contents store cut_up.buffers) (swap five cut_up).0
    × Holds store (contents store five.buffers) (swap five cut_up).1
gathered_example = gathered store five cut_up five-IsValid cut_up-IsValid cut_up-IsValid.before
