-- ===== src/Encoding/RoundTrips.antt =====
-- What `encode` wrote at the end of a buffer is read back from there by `decode`.
use my_git_hub.Common.{ℕ, ◌+◌, ◌≤◌, ◌<◌, ◌≡◌, Bool, true, false, List, arith, ltb, length}
use my_git_hub.Common.Words.{u32_mod}
use my_git_hub.ByteOrder.Swaps.{Width, size, limit}
use my_git_hub.Buffer.Store.{Store}
use my_git_hub.Buffer.Defs.{Buffer}
use my_git_hub.Buffer.Valid.{IsValid, Sized}
use my_git_hub.Encoding.Defs.{
  Host, encode_bool, decode_bool, encode_int, decode_int, encode_string, decode_string, encode_set,
  decode_set,
}
use my_git_hub.Encoding.Values.{int_image, bool_image, text_image}
use my_git_hub.Encoding.Codec.{RoundTrip, decode-encode, scalars-IsCodec}
use my_git_hub.Encoding.Sets.{AllOk, Ascending, set_image, set-IsCodec}

less_asymmetric : (x y : ℕ) → ltb x y ≡ true → ltb y x ≡ false
less_asymmetric x y h = ground arith

module _ (header unit : ℕ) (pos_unit : 0 < unit) (small_unit : unit + 16 ≤ u32_mod) (host : Host)
    (st : Store) (b : Buffer) (valid : IsValid st b) (sized : Sized st) where
  -- A flag, a number of any width, a text that `append` can take and a set of numbers, each encoded at the
  -- end of a valid buffer: `encode` comes to an end with a valid buffer, and if its length fits in 32
  -- bits, `decode` by an iterator at the old end, on a host of the same kind, gives the same value and
  -- comes to the new end.
  pub values_read_back :
      (v : Bool) (w : Width) (x : ℕ) (s xs : List ℕ)
      → x < limit w
      → length s + 8 + unit ≤ u32_mod
      → Ascending ltb xs
      → AllOk (λ y. y < limit w) xs
      → length xs < u32_mod
      → RoundTrip (encode_bool header unit) decode_bool v st b
        × RoundTrip (encode_int header unit host w) (decode_int host w) x st b
        × RoundTrip (encode_string header unit host) (decode_string host) s st b
        × RoundTrip
            (encode_set header unit host (encode_int header unit host w))
            (decode_set host ltb (decode_int host w))
            xs
            st
            b
  values_read_back v w x s xs below short sorted all_below few =
      let (flags, numbers, texts) = scalars-IsCodec header unit pos_unit small_unit host in
      (
        decode-encode (encode_bool header unit) decode_bool bool_image (λ f. Unit {0}) flags v st b
            tt valid sized,
        decode-encode (encode_int header unit host w) (decode_int host w) (int_image host (size w))
            (λ y. y < limit w) (numbers w) x st b below valid sized,
        decode-encode (encode_string header unit host) (decode_string host) (text_image host)
            (λ t. length t + 8 + unit ≤ u32_mod) texts s st b short valid sized,
        decode-encode (encode_set header unit host (encode_int header unit host w))
            (decode_set host ltb (decode_int host w)) (set_image host (int_image host (size w)))
            (λ ys. Ascending ltb ys × AllOk (λ y. y < limit w) ys × (length ys < u32_mod))
            (set-IsCodec (encode_int header unit host w) (decode_int host w)
              (int_image host (size w)) (λ y. y < limit w) (numbers w) ltb less_asymmetric header
              unit pos_unit small_unit host)
            xs st b (sorted, all_below, few) valid sized,
      )
