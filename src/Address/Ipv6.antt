-- ===== src/Address/Ipv6.antt =====
-- `struct ipv6` of address.hpp and address.cpp. An `in6_addr` is its sixteen bytes in memory.
pub mod Wire
use wshttp.Prelude.{
  ℕ, zero, suc, String, Bool, List, [], ◌∷◌, ◌++◌, map, ◌==◌, ◌&&◌, false, true, nat_eq, replicate,
}
use wshttp.Prelude.Outcome.{Result, ok, throw}
use wshttp.Encoding.{one, two, big_to_host, host_to_big}
use wshttp.Encoding.Memory.{stored, loaded}
use wshttp.Address.Ipv4.{Parsed, parse_addr}

-- `std::array<uint16_t, 8>` in host order.
pub record Ipv6 : Type 0 where
  pub addr : List ℕ

unfoldable pub of_words : (a b c d e f g h : ℕ) → Ipv6
of_words a b c d e f g h = record { addr = a ∷ b ∷ c ∷ d ∷ e ∷ f ∷ g ∷ h ∷ [] }

-- Copying sixteen bytes over the array, and the array over sixteen bytes.
unfoldable pub load_words : Bool → List ℕ → List ℕ
load_words big_endian [] = []
load_words big_endian (a ∷ []) = []
load_words big_endian (a ∷ b ∷ bs) = loaded big_endian (a ∷ b ∷ []) ∷ load_words big_endian bs

unfoldable pub store_words : Bool → List ℕ → List ℕ
store_words big_endian [] = []
store_words big_endian (w ∷ ws) = stored big_endian 2 w ++ store_words big_endian ws

-- `ipv6{const in6_addr*}`
unfoldable pub of_in6 : Bool → List ℕ → Ipv6
unfolding load_words
of_in6 big_endian s6_addr = record {
  addr = map (big_to_host big_endian two) (load_words big_endian s6_addr);
}

unfoldable pub of_string : Bool → (String → Parsed) → String → Result Ipv6
of_string big_endian inet_pton str = elim (parse_addr inet_pton str) [
  | ok dest ↦ ok (record { addr = map (big_to_host big_endian two) (load_words big_endian dest) })
  | throw e ↦ throw e
]

-- The first `n` bytes, each converted: `big_to_host_inplace(ret.s6_addr[i])`.
unfoldable pub convert_bytes : Bool → ℕ → List ℕ → List ℕ
convert_bytes big_endian zero bs = bs
convert_bytes big_endian (suc n) [] = []
convert_bytes big_endian (suc n) (b ∷ bs) =
    big_to_host big_endian one b ∷ convert_bytes big_endian n bs

unfoldable pub to_in6 : Bool → Ipv6 → List ℕ
to_in6 big_endian a = convert_bytes big_endian 8 (store_words big_endian a.addr)

-- `inet_ntop` is given the memory of a converted copy.
unfoldable pub to_string : Bool → (List ℕ → String) → Ipv6 → String
to_string big_endian inet_ntop a =
    inet_ntop (store_words big_endian (map (host_to_big big_endian two) a.addr))

abbrev pub anyaddr : Ipv6
unfolding of_words
anyaddr = of_words 0 0 0 0 0 0 0 0

unfoldable pub equal_words : List ℕ → List ℕ → Bool
equal_words [] [] = true
equal_words (a ∷ as') (b ∷ bs) = a == b && equal_words as' bs
equal_words _ _ = false

unfoldable pub equal : Ipv6 → Ipv6 → Bool
equal a b = equal_words a.addr b.addr

unfoldable pub is_anyaddr : Ipv6 → Bool
is_anyaddr a = equal a anyaddr
