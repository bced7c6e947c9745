-- ===== src/Address/Ipv4.antt =====
-- `struct ipv4` of address.hpp and address.cpp, and `detail::parse_addr` of src/internal.hpp.
pub mod Wire
use wshttp.Prelude.{
  ℕ, ◌*◌, ◌%◌, ◌^◌, bit_or, String, Bool, List, Option, none, some, ◌==◌, nat_eq, if◌then◌else◌,
}
use wshttp.Prelude.Outcome.{Result, ok, throw, invalid_argument, system_error}
use wshttp.Encoding.{four, big_to_host, host_to_big}
use wshttp.Encoding.Memory.{stored, loaded}

-- What `inet_pton` does: it writes the address to memory in network order, finds the text invalid,
-- or fails with an `errno`.
pub data Parsed : Type 0 where
  written : List ℕ → Parsed
  invalid : Parsed
  failed : ℕ → Parsed

-- The memory at `dest`, or the exception.
unfoldable pub parse_addr : (String → Parsed) → String → Result (List ℕ)
parse_addr inet_pton from = elim (inet_pton from) [
  | written dest ↦ ok dest
  | invalid ↦ throw invalid_argument
  | failed errno ↦ throw (system_error errno)
]

-- The address in host order, a `uint32_t`.
pub record Ipv4 : Type 0 where
  pub addr : ℕ

-- `uint32_t{a} << 24 | uint32_t{b} << 16 | uint32_t{c} << 8 | uint32_t{d}`
unfoldable pub of_quad : (a b c d : ℕ) → Ipv4
of_quad a b c d = record {
  addr =
      bit_or (bit_or (bit_or (a * 2 ^ 24 % 2 ^ 32) (b * 2 ^ 16 % 2 ^ 32)) (c * 2 ^ 8 % 2 ^ 32)) d;
}

-- `ipv4{struct in_addr*}`, from the field `s_addr`.
unfoldable pub of_in4 : Bool → ℕ → Ipv4
of_in4 big_endian s_addr = record { addr = big_to_host big_endian four s_addr }

unfoldable pub of_string : Bool → (String → Parsed) → String → Result Ipv4
unfolding parse_addr
of_string big_endian inet_pton str = elim (parse_addr inet_pton str) [
  | ok dest ↦ ok (record { addr = big_to_host big_endian four (loaded big_endian dest) })
  | throw e ↦ throw e
]

unfoldable pub to_in4 : Bool → Ipv4 → ℕ
to_in4 big_endian a = host_to_big big_endian four a.addr

abbrev pub anyaddr : Ipv4
unfolding of_quad
anyaddr = of_quad 0 0 0 0

-- `operator==` of two addresses, through `<=>`.
unfoldable pub equal : Ipv4 → Ipv4 → Bool
equal a b = a.addr == b.addr

-- `operator==(const in_addr&)`.
unfoldable pub equal_in4 : Ipv4 → ℕ → Bool
equal_in4 a s_addr = a.addr == s_addr

unfoldable pub is_anyaddr : Ipv4 → Bool
unfolding equal
is_anyaddr a = equal a anyaddr

-- `inet_ntop` is given the memory of the address in network order.
unfoldable pub to_string : Bool → (List ℕ → String) → Ipv4 → String
to_string big_endian inet_ntop a =
    inet_ntop (stored big_endian 4 (host_to_big big_endian four a.addr))
