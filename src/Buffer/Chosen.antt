-- ===== src/Buffer/Chosen.antt =====
-- The function that `choose_crc32` returns has the laws that `buffer::crc32` relies on.
use my_git_hub.Common.{
  ℕ, zero, suc, ◌+◌, ◌-◌, ◌^◌, ◌<◌, ◌≡◌, refl, sym, ap, ap₂, ◌∙◌, subst, true, List, [], ◌∷◌, ◌++◌,
  arith, length, get_elem?, get_or, AllBelow,
}
use my_git_hub.Common.Xor.{bit_xor_below32, bit_xor_assoc, bit_xor_comm, bit_xor_self, bit_xor-zero}
use Prim.Native.Nat.{bit_xor}
use my_git_hub.Crc.Bitwise.{byte_step, crc32c, byte_step-bit_xor, byte_step-below, bit_xor_medial}
use my_git_hub.Crc.Machine.{Machine, Host, choose_crc32, crc32c_func}
use my_git_hub.Crc.Choice.{Documented, AllBytes, choose_crc32-crc32c}
use my_git_hub.Crc.Checksum.{zeros}
use my_git_hub.Buffer.Store.{Store}
use my_git_hub.Buffer.Bytes.{contents}
use my_git_hub.Buffer.Defs.{Buffer}
use my_git_hub.Buffer.Valid.{IsValid}
use my_git_hub.Buffer.CrcCache.{Checksum, CrcMaps, crc32}
use my_git_hub.Buffer.Crc32.{MapsOk, AllBelow-append, bytes-contents, crc32-contents}

-- The CRC-32C of a list of bytes.
unfoldable pub over : List ℕ → ℕ → ℕ
over [] crc = crc
over (x ∷ xs) crc = over xs (byte_step (bit_xor crc x))

pub over-nil : (crc : ℕ) → over [] crc ≡ crc
unfolding over
over-nil crc = refl

pub over-append : (xs ys : List ℕ) (crc : ℕ) → over (xs ++ ys) crc ≡ over ys (over xs crc)
unfolding over
over-append [] ys crc = refl
over-append (x ∷ xs) ys crc = over-append xs ys (byte_step (bit_xor crc x))

pub over-below : (xs : List ℕ) (crc : ℕ) → AllBelow 256 xs → crc < 2 ^ 32 → over xs crc < 2 ^ 32
unfolding over
over-below [] crc h s = s
over-below (x ∷ xs) crc h s =
    over-below xs (byte_step (bit_xor crc x)) h.1
      (byte_step-below (bit_xor crc x) (bit_xor_below32 crc x s (omega (arith, h.0))))

-- The bytes of `xs` in memory, from the address 1 on.
abbrev placed : List ℕ → ℕ → ℕ
placed xs p = get_or (get_elem? xs (p - 1)) 0

over_lem :
    (mem : ℕ → ℕ) (xs : List ℕ) (p crc : ℕ)
    → ((i : ℕ) → i < length xs → mem (p + i) ≡ get_or (get_elem? xs i) 0)
    → crc32c mem (length xs) crc p ≡ over xs crc
unfolding over crc32c
over_lem mem [] p crc h = refl
over_lem mem (x ∷ xs) p crc h =
    let first : mem p ≡ x = ap mem (omega arith) ∙ h 0 (omega arith) in
    over_lem mem xs (p + 1) (byte_step (bit_xor crc (mem p)))
      (λ i k. ap mem (omega arith) ∙ h (suc i) (omega arith))
    ∙ ap (λ z. over xs (byte_step (bit_xor crc z))) first

over-bit_xor :
    (xs : List ℕ) (p a b : ℕ)
    → over xs (bit_xor a b) ≡ bit_xor (over xs a) (crc32c zeros (length xs) b p)
unfolding over crc32c
over-bit_xor [] p a b = refl
over-bit_xor (x ∷ xs) p a b =
    let split : bit_xor (bit_xor a b) x ≡ bit_xor (bit_xor a x) (bit_xor b 0) =
      ap (bit_xor (bit_xor a b)) (sym (bit_xor-zero x)) ∙ bit_xor_medial a b x 0 in
    ap (λ z. over xs (byte_step z)) split
    ∙ ap (over xs) (byte_step-bit_xor (bit_xor a x) (bit_xor b 0))
    ∙ over-bit_xor xs (p + 1) (byte_step (bit_xor a x)) (byte_step (bit_xor b 0))

placed-AllBytes : (xs : List ℕ) → AllBelow 256 xs → AllBytes (placed xs)
placed-AllBytes xs h p = below xs (p - 1) h
  where
    below : (ys : List ℕ) (i : ℕ) → AllBelow 256 ys → get_or (get_elem? ys i) 0 < 256
    below [] i k = omega arith
    below (y ∷ ys) zero k = k.0
    below (y ∷ ys) (suc i) k = below ys i k.1

pub other_base_lem :
    (xs : List ℕ) (p base crc : ℕ)
    → over xs crc ≡ bit_xor (over xs base) (crc32c zeros (length xs) (bit_xor base crc) p)
other_base_lem xs p base crc =
    let back : crc ≡ bit_xor base (bit_xor base crc) = sym (
      sym (bit_xor_assoc base base crc)
      ∙ ap (λ z. bit_xor z crc) (bit_xor_self base)
      ∙ bit_xor_comm 0 crc
      ∙ bit_xor-zero crc) in
    ap (over xs) back ∙ over-bit_xor xs p base (bit_xor base crc)

module _ {machine : Machine} (doc : Documented machine) (host : Host)
    (built : host.arch_aarch64_crc32 ≡ true → host.armv8 ≡ true) where
  abbrev pub run : List ℕ → ℕ → ℕ
  run xs crc = crc32c_func machine host (choose_crc32 host) (placed xs) crc 1 (length xs)

  abbrev pub run_null : ℕ → ℕ → ℕ
  run_null n crc = crc32c_func machine host (choose_crc32 host) zeros crc 0 n

  pub run_lem : (xs : List ℕ) (crc : ℕ) → AllBelow 256 xs → crc < 2 ^ 32 → run xs crc ≡ over xs crc
  run_lem xs crc h s =
      choose_crc32-crc32c doc (placed xs) (placed-AllBytes xs h) host crc 1 (length xs) s built
      ∙ over_lem (placed xs) xs 1 crc (λ i k. ap (λ j. get_or (get_elem? xs j) 0) (omega arith))

  -- The chosen function as `buffer::crc32` uses it.
  abbrev pub chosen : Checksum
  chosen = record {
    crc32c = run;
    crc32c_null = run_null;
    below =
        λ xs crc h s. subst (λ z. z < 2 ^ 32) (sym (run_lem xs crc h s)) (over-below xs crc h s);
    nothing = λ crc s. run_lem [] crc tt s ∙ over-nil crc;
    in_two = λ xs ys crc h k s.
        run_lem (xs ++ ys) crc (AllBelow-append xs ys h k) s
        ∙ over-append xs ys crc
        ∙ sym (run_lem ys (over xs crc) k (over-below xs crc h s))
        ∙ ap (run ys) (sym (run_lem xs crc h s));
    other_base = λ xs base crc h b s.
        run_lem xs crc h s
        ∙ other_base_lem xs 0 base crc
        ∙ ap₂ bit_xor (sym (run_lem xs base h b)) (
            sym (
              choose_crc32-crc32c doc zeros (λ a. omega arith) host (bit_xor base crc) 0 (length xs)
                (bit_xor_below32 base crc b s) built));
  }

  -- `crc32` of a valid buffer, whose bytes are bytes, from a 32-bit `crc` on, with the function that
  -- `choose_crc32` returns: whatever right checksums of its raws are kept, it is the bitwise CRC-32C of the
  -- contents, and those that are kept after it are right too. The conditions on the processor are those of
  -- that function.
  pub crc32-over :
      (st : Store) (b : Buffer) (maps : CrcMaps) (crc : ℕ)
      → IsValid st b
      → ((r : ℕ) → AllBelow 256 (st.bytes r))
      → crc < 2 ^ 32
      → MapsOk chosen st b.append_buffer maps
      → ((crc32 chosen st b.buffers maps crc).0 ≡ over (contents st b.buffers) crc)
        × MapsOk chosen st b.append_buffer (crc32 chosen st b.buffers maps crc).1
  crc32-over st b maps crc valid bytes small ok =
      let (value, oks) = crc32-contents chosen st b maps crc valid bytes small ok in
      (
        value
            ∙ run_lem (contents st b.buffers) crc
                (bytes-contents chosen st b.append_buffer bytes b.buffers) small,
        oks,
      )
