-- ===== src/Entities/Wire.antt =====
-- The bytes of an entity of trunk/include/net/msg_types.h, and what they are read back to.
use my_git_hub.Common.{
  ℕ, zero, suc, ◌+◌, ◌-◌, ◌^◌, ◌≤◌, ◌<◌, ◌≡◌, refl, sym, ap, ◌∙◌, subst, Bool, true, false, List,
  [], ◌∷◌, ◌++◌, arith, length, take, drop, reverse, length-append,
}
use my_git_hub.Common.Words.{u32_mod}
use my_git_hub.ByteOrder.Defs.{swab16}
use my_git_hub.ByteOrder.Swaps.{
  bytes, w16, w32, w64, bytes-swab, swab_twice, swab-join, join-bytes, reverse_twice,
  length-reverse-bytes,
}
use my_git_hub.Buffer.Store.{overwrite, zeros}
use my_git_hub.Buffer.Bytes.{take-append_right}
use my_git_hub.Encoding.Defs.{
  Host, ◌>>=◌, value, to_memory, from_memory, before_nul, encode_raw, decode_raw, encode_int,
  decode_int, encode_c_string, decode_c_string,
}
use my_git_hub.Encoding.Laws.{
  Writes, Reads, then-Writes, then-Reads, map-Reads, encode_raw-Writes, decode_raw-Reads,
}
use my_git_hub.Encoding.Values.{
  int_image, text_image, c_memory, encode_int-Writes, decode_int-Reads, encode_c_string-Writes,
  decode_c_string-Reads,
}
use my_git_hub.Entities.Defs.{
  EntityName, SockaddrStorage, EntityAddr, EntityInst, network_order, addr_memory, decode_reserved,
  decode_name, decode_sockaddr, decode_addr, decode_inst, encode_name, encode_sockaddr, encode_addr,
  encode_inst,
}

-- A text in an array: the bytes before the zero, and zeros.
abbrev pub padded : ℕ → List ℕ → List ℕ
padded n s = s ++ zeros (n - length s)

before_nul-append :
    (xs ys : List ℕ) → length (before_nul xs) < length xs → before_nul (xs ++ ys) ≡ before_nul xs
before_nul-append [] ys h = absurd (omega arith)
before_nul-append (zero ∷ xs) ys h = refl
before_nul-append (suc x ∷ xs) ys h = ap (◌∷◌ (suc x)) (before_nul-append xs ys (omega arith))

slice-zeros : (n k m : ℕ) (ys : List ℕ) → k + m ≤ n → take m (drop k (zeros n ++ ys)) ≡ zeros m
slice-zeros n zero zero ys h = refl
slice-zeros zero zero (suc m) ys h = absurd (omega arith)
slice-zeros (suc n) zero (suc m) ys h = ap (◌∷◌ 0) (slice-zeros n zero m ys (omega arith))
slice-zeros zero (suc k) m ys h = absurd (omega arith)
slice-zeros (suc n) (suc k) m ys h = slice-zeros n k m ys (omega arith)

-- What `decode` leaves in the array, whatever was there.
c_memory-padded :
    (n : ℕ) (old s : List ℕ) → n ≤ 8 → length s ≤ n → take n (c_memory 8 old s) ≡ padded n s
c_memory-padded n old s small fits =
    let start : 0 + length s ≡ length s = omega arith in
    ap (λ k. take n (s ++ drop k (overwrite 0 (zeros 8) old))) start
    ∙ take-append_right n s (drop (length s) (overwrite 0 (zeros 8) old)) fits
    ∙ ap (λ z. s ++ z) (slice-zeros 8 (length s) (n - length s) (drop 8 old) (omega arith))

module _ (host : Host) where
  decode_reserved-Reads :
      (n : ℕ) (old behind s : List ℕ)
      → n ≤ 8
      → length s ≤ n
      → Reads (decode_reserved host n old behind) (text_image host s) (padded n s)
  unfolding decode_reserved
  decode_reserved-Reads n old behind s small fits =
      subst (Reads (decode_reserved host n old behind) (text_image host s))
        (c_memory-padded n (old ++ behind) s small fits)
        (map-Reads (decode_c_string host 8 (old ++ behind)) (take n) (text_image host s)
          (c_memory 8 (old ++ behind) s)
          (decode_c_string-Reads host 8 (old ++ behind) s (omega arith)))

  network_bytes :
      (x : ℕ)
      → x < 2 ^ 16
      → to_memory host.big_endian 2 (network_order host.big_endian x) ≡ reverse (bytes 2 x)
  network_bytes x h = go host.big_endian
    where
      go : (e : Bool) → to_memory e 2 (network_order e x) ≡ reverse (bytes 2 x)
      go true = refl
      go false = bytes-swab w16 x h

  network_back :
      (x : ℕ)
      → x < 2 ^ 16
      → network_order host.big_endian (from_memory host.big_endian (reverse (bytes 2 x))) ≡ x
  network_back x h = go host.big_endian
    where
      go : (e : Bool) → network_order e (from_memory e (reverse (bytes 2 x))) ≡ x
      go true = ap (from_memory false) (reverse_twice w16 x) ∙ join-bytes w16 x h
      go false = ap swab16 (sym (swab-join w16 x h)) ∙ swab_twice w16 x h

-- The field `_reserved` ends with a zero.
abbrev pub Ends : List ℕ → Type 0
Ends xs = length (before_nul xs) < length xs

-- What the members of an entity may be.
pub record IsName (e : EntityName) : Type 0 where
  pub type : e.type < 256
  pub reserved : length e.reserved ≡ 7
  pub ends : Ends e.reserved
  pub num : e.num < 2 ^ 64

pub record IsAddr (e : EntityAddr) : Type 0 where
  pub type : e.type < 2 ^ 32
  pub reserved : length e.reserved ≡ 4
  pub ends : Ends e.reserved
  pub ss_family : e.addr.ss_family < 2 ^ 16
  pub rest : length e.addr.rest ≡ 126

-- What is written.
abbrev pub name_image : Host → EntityName → List ℕ
name_image host e =
    e.type ∷ [] ++ (text_image host (before_nul e.reserved) ++ int_image host 8 e.num)

abbrev pub sockaddr_image : SockaddrStorage → List ℕ
sockaddr_image a = reverse (bytes 2 a.ss_family) ++ a.rest

abbrev pub addr_image : Host → EntityAddr → List ℕ
addr_image host e =
    int_image host 4 e.type ++ (text_image host (before_nul e.reserved) ++ sockaddr_image e.addr)

abbrev pub inst_image : Host → EntityInst → List ℕ
inst_image host e = name_image host e.name ++ addr_image host e.addr

-- What is read: the array behind its zero is cleared.
abbrev pub received_name : EntityName → EntityName
received_name e = record e { reserved = padded 7 (before_nul e.reserved) }

abbrev pub received_addr : EntityAddr → EntityAddr
received_addr e = record e { reserved = padded 4 (before_nul e.reserved) }

abbrev pub received : EntityInst → EntityInst
received e = record { name = received_name e.name; addr = received_addr e.addr }

module _ (host : Host) where
  decode_name-Reads :
      (old e : EntityName)
      → IsName e
      → Reads (decode_name host old) (name_image host e) (received_name e)
  unfolding decode_name
  decode_name-Reads old e v =
      then-Reads (decode_raw 1) _ (e.type ∷ []) _ (e.type ∷ []) (received_name e)
        (decode_raw-Reads (e.type ∷ []))
        (then-Reads (decode_reserved host 7 old.reserved (to_memory host.big_endian 8 old.num)) _
          (text_image host (before_nul e.reserved)) (int_image host 8 e.num)
          (padded 7 (before_nul e.reserved)) (received_name e)
          (decode_reserved-Reads host 7 old.reserved (to_memory host.big_endian 8 old.num)
            (before_nul e.reserved) (omega arith) (omega (arith, v.ends, v.reserved)))
          (subst
            (λ t.
              Reads {A = EntityName}
                (decode_int host w64 >>= λ num. value (record {
                  type = from_memory host.big_endian (e.type ∷ []);
                  reserved = padded 7 (before_nul e.reserved);
                  num = num;
                }))
                (int_image host 8 e.num)
                (record { type = t; reserved = padded 7 (before_nul e.reserved); num = e.num }))
            (one_byte host.big_endian)
            (map-Reads (decode_int host w64) _ (int_image host 8 e.num) e.num
              (decode_int-Reads host w64 e.num v.num))))
    where
      one_byte : (b : Bool) → from_memory b (e.type ∷ []) ≡ e.type
      one_byte true = omega arith
      one_byte false = omega arith

  decode_sockaddr-Reads :
      (a : SockaddrStorage)
      → a.ss_family < 2 ^ 16
      → length a.rest ≡ 126
      → Reads (decode_sockaddr host) (sockaddr_image a) a
  unfolding decode_sockaddr bytes
  decode_sockaddr-Reads a small long =
      let family = reverse (bytes 2 a.ss_family) in
      let all : length (sockaddr_image a) ≡ 128 =
        omega (arith, long, length-append family a.rest, length-reverse-bytes w16 a.ss_family) in
      subst
        (λ f.
          Reads {A = SockaddrStorage} (decode_sockaddr host) (sockaddr_image a)
            (record { ss_family = f; rest = a.rest }))
        (network_back host a.ss_family small)
        (map-Reads (decode_raw 128) _ (sockaddr_image a) (sockaddr_image a) (
          subst (λ n. Reads (decode_raw n) (sockaddr_image a) (sockaddr_image a)) all
            (decode_raw-Reads (sockaddr_image a))))

  decode_addr-Reads :
      (old e : EntityAddr)
      → IsAddr e
      → Reads (decode_addr host old) (addr_image host e) (received_addr e)
  unfolding decode_addr
  decode_addr-Reads old e v =
      then-Reads (decode_int host w32) _ (int_image host 4 e.type) _ e.type (received_addr e)
        (decode_int-Reads host w32 e.type v.type)
        (then-Reads (decode_reserved host 4 old.reserved (addr_memory host.big_endian old.addr)) _
          (text_image host (before_nul e.reserved)) (sockaddr_image e.addr)
          (padded 4 (before_nul e.reserved)) (received_addr e)
          (decode_reserved-Reads host 4 old.reserved (addr_memory host.big_endian old.addr)
            (before_nul e.reserved) (omega arith) (omega (arith, v.ends, v.reserved)))
          (map-Reads (decode_sockaddr host) _ (sockaddr_image e.addr) e.addr
            (decode_sockaddr-Reads e.addr v.ss_family v.rest)))

  module _ (header unit : ℕ) (pos_unit : 0 < unit) (small_unit : unit + 256 ≤ u32_mod) where
    encode_reserved-Writes :
        (reserved behind : List ℕ)
        → Ends reserved
        → length reserved ≤ 7
        → Writes
            (encode_c_string header unit host (reserved ++ behind))
            (text_image host (before_nul reserved))
    encode_reserved-Writes reserved behind ends short =
        let same = before_nul-append reserved behind ends in
        subst
          (λ s. Writes (encode_c_string header unit host (reserved ++ behind)) (text_image host s))
          same
          (encode_c_string-Writes header unit pos_unit (omega arith) host (reserved ++ behind)
            (omega (arith, ap length same)))

    encode_name-Writes :
        (e : EntityName) → IsName e → Writes (encode_name host header unit e) (name_image host e)
    unfolding encode_name
    encode_name-Writes e v =
        then-Writes (encode_raw header unit (e.type ∷ [])) _ (e.type ∷ []) _
          (encode_raw-Writes header unit pos_unit (e.type ∷ []) (omega arith))
          (then-Writes _ (encode_int header unit host w64 e.num)
            (text_image host (before_nul e.reserved)) (int_image host 8 e.num)
            (encode_reserved-Writes e.reserved (to_memory host.big_endian 8 e.num) v.ends
              (omega (arith, v.reserved)))
            (encode_int-Writes header unit pos_unit (omega arith) host w64 e.num v.num))

    encode_sockaddr-Writes :
        (a : SockaddrStorage)
        → a.ss_family < 2 ^ 16
        → length a.rest ≡ 126
        → Writes (encode_sockaddr host header unit a) (sockaddr_image a)
    unfolding encode_sockaddr
    encode_sockaddr-Writes a small long =
        let family = reverse (bytes 2 a.ss_family) in
        subst (λ z. Writes (encode_raw header unit (z ++ a.rest)) (sockaddr_image a))
          (sym (network_bytes host a.ss_family small))
          (encode_raw-Writes header unit pos_unit (sockaddr_image a) (
            omega (arith, long, length-append family a.rest, length-reverse-bytes w16 a.ss_family)))

    encode_addr-Writes :
        (e : EntityAddr) → IsAddr e → Writes (encode_addr host header unit e) (addr_image host e)
    unfolding encode_addr
    encode_addr-Writes e v =
        then-Writes (encode_int header unit host w32 e.type) _ (int_image host 4 e.type) _
          (encode_int-Writes header unit pos_unit (omega arith) host w32 e.type v.type)
          (then-Writes _ (encode_sockaddr host header unit e.addr)
            (text_image host (before_nul e.reserved)) (sockaddr_image e.addr)
            (encode_reserved-Writes e.reserved (addr_memory host.big_endian e.addr) v.ends
              (omega (arith, v.reserved)))
            (encode_sockaddr-Writes e.addr v.ss_family v.rest))

    -- An instance whose members are in their ranges, and whose arrays `_reserved` hold a zero, is written
    -- as its name and its address, the numbers with the lowest byte first where `BIG_ENDIAN` is defined
    -- just on the hosts that keep the highest byte first, and else with the highest first; the family of the
    -- address has the highest byte first on all hosts. Over any instance `old` that is read back to
    -- the same members, but for the arrays, which are cleared behind their zero; where the bytes end
    -- too early, `decode` throws.
    pub inst-wire :
        (old e : EntityInst)
        → IsName e.name
        → IsAddr e.addr
        → Writes (encode_inst host header unit e) (inst_image host e)
          × Reads (decode_inst host old) (inst_image host e) (received e)
    unfolding encode_inst decode_inst
    inst-wire old e v w = (
      then-Writes (encode_name host header unit e.name) (encode_addr host header unit e.addr)
          (name_image host e.name) (addr_image host e.addr) (encode_name-Writes e.name v)
          (encode_addr-Writes e.addr w),
      then-Reads (decode_name host old.name) _ (name_image host e.name) (addr_image host e.addr)
          (received_name e.name) (received e) (decode_name-Reads old.name e.name v)
          (map-Reads (decode_addr host old.addr) _ (addr_image host e.addr) (received_addr e.addr)
            (decode_addr-Reads old.addr e.addr w)),
    )
