-- ===== src/Encoding/Codec.antt =====
-- What a pair of `encode` and `decode` promises to the code that uses them, and the pairs of
-- trunk/include/common/encoding.h that keep it.
use my_git_hub.Common.{
  ℕ, ◌+◌, ◌-◌, ◌≤◌, ◌<◌, ◌≡◌, sym, ap, ◌∙◌, some, List, [], ◌++◌, arith, length, drop, append-nil,
  length-append,
}
use my_git_hub.Common.Words.{u32_mod}
use my_git_hub.ByteOrder.Swaps.{Width, size, limit}
use my_git_hub.Buffer.Store.{Store}
use my_git_hub.Buffer.Bytes.{contents, total, length-contents, drop-append_right}
use my_git_hub.Buffer.Defs.{Cursor, Buffer}
use my_git_hub.Buffer.Valid.{IsValid, Sized}
use my_git_hub.Buffer.Cursor.{finished}
use my_git_hub.Buffer.Place.{IsOk}
use my_git_hub.Encoding.Defs.{
  Host, Encoder, Decoder, encode_bool, decode_bool, encode_int, decode_int, encode_string,
  decode_string,
}
use my_git_hub.Encoding.Laws.{Writes, Reads, Reader}
use my_git_hub.Encoding.Values.{
  int_image, bool_image, text_image, encode_bool-Writes, decode_bool-Reads, encode_int-Writes,
  decode_int-Reads, encode_string-Writes, decode_string-Reads,
}

-- The values `a` with `Ok a` are written as the bytes `image a` and read back; where the bytes end
-- too early, `decode` throws.
pub record IsCodec {A : Type 0} (encode : A → Encoder) (decode : Decoder A) (image : A → List ℕ)
    (Ok : A → Type 0) : Type 0 where
  pub writes : (a : A) → Ok a → Writes (encode a) (image a)
  pub reads : (a : A) → Ok a → Reads decode (image a) a

-- What comes of `encode` of a value at the end of a buffer: it comes to an end, and from an iterator
-- that stands there, `decode` gives the value and comes to the new end.
abbrev pub RoundTrip : {A : Type 0} → (A → Encoder) → Decoder A → A → Store → Buffer → Type 0
RoundTrip encode decode a st b =
    (r : Store × Buffer) × (encode a st b ≡ some r)
    × IsValid r.0 r.1
    × (total r.1.buffers < u32_mod
        → (c : Cursor) → IsOk r.1.buffers c
        → c.off ≡ total b.buffers
        → (c' : Cursor) × (decode r.0 r.1.buffers c ≡ finished (a, c'))
          × IsOk r.1.buffers c'
          × (c'.off ≡ total r.1.buffers))

module _ {A : Type 0} (encode : A → Encoder) (decode : Decoder A) (image : A → List ℕ)
    (Ok : A → Type 0) (codec : IsCodec encode decode image Ok) where
  -- `encode` to a valid buffer and then `decode` by an iterator at the old end give the value again, for
  -- all that keep the promises of a codec, if the new length fits in 32 bits; the iterator comes to the
  -- new end, and the buffer is valid.
  pub decode-encode :
      (a : A) (st : Store) (b : Buffer)
      → Ok a
      → IsValid st b
      → Sized st
      → RoundTrip encode decode a st b
  decode-encode a st b ok v s =
      let (r, e, added) = codec.writes a ok st b v s in
      let sum : total r.1.buffers ≡ total b.buffers + length (image a) = omega (
        arith,
        length-contents r.0 r.1.buffers added.valid.fit,
        length-contents st b.buffers v.fit,
        ap length added.bytes,
        length-append (contents st b.buffers) (image a),
      ) in
      (
        r,
        e,
        added.valid,
        λ small c k at.
            let start : c.off - length (contents st b.buffers) ≡ 0 =
              omega (arith, length-contents st b.buffers v.fit) in
            let behind : drop c.off (contents r.0 r.1.buffers) ≡ image a ++ [] =
              ap (drop c.off) added.bytes
              ∙ drop-append_right c.off (contents st b.buffers) (image a)
                  (omega (arith, length-contents st b.buffers v.fit))
              ∙ ap (λ n. drop n (image a)) start
              ∙ sym (append-nil (image a)) in
            let reader : Reader r.0 r.1.buffers c = record {
              fit = added.valid.fit;
              small = small;
              ok = k;
              inside = omega arith;
            } in
            let (c', e', r', left, off) = (codec.reads a ok r.0 r.1.buffers c reader).0 [] behind in
            (c', e', r'.ok, omega arith),
      )

module _ (header unit : ℕ) (pos_unit : 0 < unit) (small_unit : unit + 16 ≤ u32_mod)
    (host : Host) where
  -- The pairs for a flag, for a number of 16, 32 or 64 bits, and for a text that `append` can take keep
  -- the promises of a codec: a flag is one byte, 1 or 0, a number its bytes, a text its length in four
  -- bytes and then its bytes. The lowest byte of a number is first where `BIG_ENDIAN` is defined just
  -- on the hosts that keep the highest byte first, and else the highest byte is.
  pub scalars-IsCodec :
      IsCodec (encode_bool header unit) decode_bool bool_image (λ v. Unit {0})
      × ((w : Width)
          → IsCodec
              (encode_int header unit host w)
              (decode_int host w)
              (int_image host (size w))
              (λ x. x < limit w))
      × IsCodec
          (encode_string header unit host)
          (decode_string host)
          (text_image host)
          (λ s. length s + 8 + unit ≤ u32_mod)
  scalars-IsCodec = (
    record {
      writes = λ v ok. encode_bool-Writes header unit pos_unit small_unit host v;
      reads = λ v ok. decode_bool-Reads v;
    },
    (λ w. record {
      writes = λ x ok. encode_int-Writes header unit pos_unit small_unit host w x ok;
      reads = λ x ok. decode_int-Reads host w x ok;
    }),
    record {
      writes = λ s ok. encode_string-Writes header unit pos_unit small_unit host s ok;
      reads = λ s ok. decode_string-Reads host s (omega (arith, ok));
    },
  )
