-- ===== src/Entities/Defs.antt =====
-- The entities of trunk/include/net/msg_types.h. An array of `char` is its bytes; the bytes of a
-- `sockaddr_storage` behind the family are a list, and so is what stands in memory behind an array.
use my_git_hub.Common.{
  ℕ, ◌+◌, ◌-◌, ◌^◌, Bool, true, false, ◌&&◌, ◌||◌, not, List, [], ◌∷◌, ◌++◌, ◌==◌, ltb,
  if◌then◌else◌, take, drop,
}
use my_git_hub.ByteOrder.Defs.{swab16}
use my_git_hub.ByteOrder.Swaps.{w32, w64}
use my_git_hub.Encoding.Defs.{
  Host, Encoder, Decoder, ◌>>◌, ◌>>=◌, value, to_memory, from_memory, encode_raw, decode_raw,
  encode_int, decode_int, encode_c_string, decode_c_string,
}

-- `_num` is the bit pattern of an `int64_t`.
pub record EntityName : Type 0 where
  pub type : ℕ
  pub reserved : List ℕ
  pub num : ℕ

pub record SockaddrStorage : Type 0 where
  pub ss_family : ℕ
  pub rest : List ℕ

-- `_type` is the bit pattern of an `int32_t`.
pub record EntityAddr : Type 0 where
  pub type : ℕ
  pub reserved : List ℕ
  pub addr : SockaddrStorage

pub record EntityInst : Type 0 where
  pub name : EntityName
  pub addr : EntityAddr

-- The order of two `int64_t`s that are given by their patterns.
abbrev pub flip_sign : ℕ → ℕ
flip_sign x = if ltb x (2 ^ 63) then x + 2 ^ 63 else x - 2 ^ 63

abbrev pub less_signed : ℕ → ℕ → Bool
less_signed x y = ltb (flip_sign x) (flip_sign y)

unfoldable pub name_eq : EntityName → EntityName → Bool
name_eq l r = l.type == r.type && l.num == r.num

unfoldable pub name_ne : EntityName → EntityName → Bool
name_ne l r = not (l.type == r.type) || not (l.num == r.num)

unfoldable pub name_lt : EntityName → EntityName → Bool
name_lt l r = ltb l.type r.type || l.type == r.type && less_signed l.num r.num

-- `is_new`
unfoldable pub is_new : EntityName → Bool
is_new n = less_signed n.num 0

-- `memcmp` of two lists of bytes, which are equally long there: whether they are equal, and in order.
abbrev pub bytes_eq : List ℕ → List ℕ → Bool
bytes_eq [] [] = true
bytes_eq [] (y ∷ ys) = false
bytes_eq (x ∷ xs) [] = false
bytes_eq (x ∷ xs) (y ∷ ys) = x == y && bytes_eq xs ys

abbrev pub bytes_lt : List ℕ → List ℕ → Bool
bytes_lt [] [] = false
bytes_lt [] (y ∷ ys) = true
bytes_lt (x ∷ xs) [] = false
bytes_lt (x ∷ xs) (y ∷ ys) = ltb x y || x == y && bytes_lt xs ys

module _ (big_endian : Bool) where
  -- `htons` and `ntohs`
  abbrev pub network_order : ℕ → ℕ
  network_order x = if big_endian then x else swab16 x

  abbrev pub addr_memory : SockaddrStorage → List ℕ
  addr_memory a = to_memory big_endian 2 a.ss_family ++ a.rest

  -- All the bytes of an address, which its comparisons read.
  unfoldable pub memory_of : EntityAddr → List ℕ
  memory_of a = to_memory big_endian 4 a.type ++ (a.reserved ++ addr_memory a.addr)

  unfoldable pub addr_eq : EntityAddr → EntityAddr → Bool
  unfolding memory_of
  addr_eq a b = bytes_eq (memory_of a) (memory_of b)

  unfoldable pub addr_lt : EntityAddr → EntityAddr → Bool
  unfolding memory_of
  addr_lt a b = bytes_lt (memory_of a) (memory_of b)

  -- `memcmp(a, b) <= 0`
  unfoldable pub addr_le : EntityAddr → EntityAddr → Bool
  unfolding memory_of
  addr_le a b = not (bytes_lt (memory_of b) (memory_of a))

  unfoldable pub inst_eq : EntityInst → EntityInst → Bool
  unfolding name_eq addr_eq
  inst_eq a b = name_eq a.name b.name && addr_eq a.addr b.addr

  unfoldable pub inst_ne : EntityInst → EntityInst → Bool
  unfolding name_ne addr_eq
  inst_ne a b = name_ne a.name b.name || not (addr_eq a.addr b.addr)

  unfoldable pub inst_lt : EntityInst → EntityInst → Bool
  unfolding name_lt name_eq addr_lt
  inst_lt a b = name_lt a.name b.name || name_eq a.name b.name && addr_lt a.addr b.addr

  unfoldable pub inst_le : EntityInst → EntityInst → Bool
  unfolding name_lt name_eq addr_le
  inst_le a b = name_lt a.name b.name || name_eq a.name b.name && addr_le a.addr b.addr

module _ (host : Host) where
  -- `decode` to an array of `char` of `n` bytes: the array after it. Behind it stands `behind`, which
  -- the eight bytes that are cleared reach, and which is decoded next.
  unfoldable pub decode_reserved : ℕ → List ℕ → List ℕ → Decoder (List ℕ)
  unfolding decode_c_string
  decode_reserved n reserved behind = do
    memory ← decode_c_string host 8 (reserved ++ behind)
    value (take n memory)

  -- `entity_name_t::decode` over the name `old`
  unfoldable pub decode_name : EntityName → Decoder EntityName
  unfolding decode_reserved
  decode_name old = do
    type ← decode_raw 1
    reserved ← decode_reserved 7 old.reserved (to_memory host.big_endian 8 old.num)
    num ← decode_int host w64
    value (record { type = from_memory host.big_endian type; reserved = reserved; num = num })

  unfoldable pub decode_sockaddr : Decoder SockaddrStorage
  decode_sockaddr = do
    a ← decode_raw 128
    value (record {
      ss_family = network_order host.big_endian (from_memory host.big_endian (take 2 a));
      rest = drop 2 a;
    })

  -- `entity_addr_t::decode` over the address `old`
  unfoldable pub decode_addr : EntityAddr → Decoder EntityAddr
  unfolding decode_reserved decode_sockaddr
  decode_addr old = do
    type ← decode_int host w32
    reserved ← decode_reserved 4 old.reserved (addr_memory host.big_endian old.addr)
    addr ← decode_sockaddr
    value (record { type = type; reserved = reserved; addr = addr })

  unfoldable pub decode_inst : EntityInst → Decoder EntityInst
  unfolding decode_name decode_addr
  decode_inst old = do
    name ← decode_name old.name
    addr ← decode_addr old.addr
    value (record { name = name; addr = addr })

  module _ (header unit : ℕ) where
    -- `::encode(_reserved, buf)` is that of a `const char*`: it ends at a zero, wherever that is.
    unfoldable pub encode_name : EntityName → Encoder
    encode_name e = do
      encode_raw header unit (e.type ∷ [])
      encode_c_string header unit host (e.reserved ++ to_memory host.big_endian 8 e.num)
      encode_int header unit host w64 e.num

    unfoldable pub encode_sockaddr : SockaddrStorage → Encoder
    encode_sockaddr a = encode_raw header unit (
        addr_memory host.big_endian
          (record a { ss_family = network_order host.big_endian a.ss_family }))

    unfoldable pub encode_addr : EntityAddr → Encoder
    unfolding encode_sockaddr
    encode_addr e = do
      encode_int header unit host w32 e.type
      encode_c_string header unit host (e.reserved ++ addr_memory host.big_endian e.addr)
      encode_sockaddr e.addr

    unfoldable pub encode_inst : EntityInst → Encoder
    unfolding encode_name encode_addr
    encode_inst e = do encode_name e.name; encode_addr e.addr
