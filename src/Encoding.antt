-- ===== src/Encoding.antt =====
-- include/wshttp/encoding.hpp: the conversions between host order and network (big-endian) order.
-- `std::endian::native == std::endian::big` is the argument `big_endian`, and an integer is its
-- unsigned bit pattern. The swap builtins of the compiler are written out by shifts.
pub mod RoundTrip
pub mod Memory
use wshttp.Prelude.{ℕ, zero, suc, ◌+◌, ◌*◌, ◌/◌, ◌%◌, ◌^◌, Bool, List, [], ◌∷◌, if◌then◌else◌}

-- The sizes that `endian_swappable_type` admits.
pub data Width : Type 0 where
  one two four eight : Width

abbrev pub bytes : Width → ℕ
bytes one = 1
bytes two = 2
bytes four = 4
bytes eight = 8

-- The values of a type of that width are below this.
abbrev pub modulus : Width → ℕ
modulus one = 0x100
modulus two = 0x10000
modulus four = 0x100000000
modulus eight = 0x10000000000000000

unfoldable pub bswap_16 : ℕ → ℕ
bswap_16 x = x % 256 * 256 + x / 256 % 256

unfoldable pub bswap_32 : ℕ → ℕ
bswap_32 x = bswap_16 (x % 65536) * 65536 + bswap_16 (x / 65536 % 65536)

unfoldable pub bswap_64 : ℕ → ℕ
bswap_64 x = bswap_32 (x % 0x100000000) * 0x100000000 + bswap_32 (x / 0x100000000 % 0x100000000)

-- A type of one byte is left as it is.
unfoldable pub byteswap_inplace : Width → ℕ → ℕ
byteswap_inplace one val = val
byteswap_inplace two val = bswap_16 val
byteswap_inplace four val = bswap_32 val
byteswap_inplace eight val = bswap_64 val

unfoldable pub host_to_big_inplace : Bool → Width → ℕ → ℕ
host_to_big_inplace big_endian w val = if big_endian then val else byteswap_inplace w val

unfoldable pub big_to_host_inplace : Bool → Width → ℕ → ℕ
big_to_host_inplace big_endian w val = if big_endian then val else byteswap_inplace w val

unfoldable pub host_to_big : Bool → Width → ℕ → ℕ
unfolding host_to_big_inplace
host_to_big big_endian w val = host_to_big_inplace big_endian w val

unfoldable pub big_to_host : Bool → Width → ℕ → ℕ
unfolding big_to_host_inplace
big_to_host big_endian w val = big_to_host_inplace big_endian w val
