-- ===== src/Address/Ip.antt =====
-- `struct ip_address`, `struct path` and the hashes of address.hpp and address.cpp.
-- `fmt` is an argument where a number or a pair is printed.
pub mod Coherent
pub mod Keys
use Prim.Native.Nat.{compare, Ordering}
use wshttp.Prelude.{
  ℕ, zero, ◌+◌, ◌*◌, ◌/◌, ◌%◌, ◌^◌, bit_xor, String, Bool, true, false, not, ◌&&◌, List, [], ◌∷◌,
  ◌==◌, nat_eq,
}
use wshttp.Prelude.Outcome.{Result, ok, throw, runtime_error, bad_variant_access, ◌>>=◌}
use wshttp.Encoding.{two, big_to_host}
use wshttp.Address.Ipv4
use wshttp.Address.Ipv4.{Ipv4}
use wshttp.Address.Ipv6
use wshttp.Address.Ipv6.{Ipv6}

-- `std::variant<ipv4, ipv6>`
pub data IpV : Type 0 where
  v4 : Ipv4 → IpV
  v6 : Ipv6 → IpV

pub record IpAddress : Type 0 where
  pub ip : IpV
  pub port : ℕ
  pub is_v4 : Bool

-- `not _ip.index()`
abbrev pub holds_v4 : IpV → Bool
holds_v4 (v4 _) = true
holds_v4 (v6 _) = false

-- `ip_address(uint16_t p = 0)`
unfoldable pub of_port : ℕ → IpAddress
of_port p = record { ip = v4 (record { addr = 0 }); port = p; is_v4 = true }

-- `ip_address(T ip, uint16_t p)`
unfoldable pub of_ip : IpV → ℕ → IpAddress
of_ip ip p = record { ip = ip; port = p; is_v4 = holds_v4 ip }

-- `struct sockaddr`, by its family; the port is in network order.
pub data Sockaddr : Type 0 where
  inet : (s_addr sin_port : ℕ) → Sockaddr
  inet6 : (s6_addr : List ℕ) (sin6_port : ℕ) → Sockaddr
  other : (sa_family : ℕ) → Sockaddr

-- `ip_address(struct sockaddr*)`. The members are initialised first: `_ip` to its first
-- alternative, and `_is_v4` from that; the body then assigns `_ip` and `_port`.
unfoldable pub of_sockaddr : Bool → Sockaddr → Result IpAddress
of_sockaddr big_endian (inet s_addr sin_port) = ok (record {
  ip = v4 (Ipv4.of_in4 big_endian s_addr);
  port = big_to_host big_endian two sin_port;
  is_v4 = true;
})
of_sockaddr big_endian (inet6 s6_addr sin6_port) = ok (record {
  ip = v6 (Ipv6.of_in6 big_endian s6_addr);
  port = big_to_host big_endian two sin6_port;
  is_v4 = true;
})
of_sockaddr big_endian (other _) = throw runtime_error

-- The copy constructors and assignments.
unfoldable pub copy_internals : IpAddress → IpAddress
copy_internals a = record { ip = a.ip; port = a.port; is_v4 = a.is_v4 }

-- `std::get<ipv4>(_ip)` and `std::get<ipv6>(_ip)`
unfoldable pub get_ipv4 : IpV → Result Ipv4
get_ipv4 (v4 a) = ok a
get_ipv4 (v6 _) = throw bad_variant_access

unfoldable pub get_ipv6 : IpV → Result Ipv6
get_ipv6 (v4 _) = throw bad_variant_access
get_ipv6 (v6 a) = ok a

unfoldable pub set_port : ℕ → IpAddress → IpAddress
set_port p a = record a { port = p }

-- `_is_v4 ? f(_ipv4()) : g(_ipv6())`
by_family {ℓ} : {A : Type ℓ} → (Ipv4 → A) → (Ipv6 → A) → IpAddress → Result A
unfolding get_ipv4 get_ipv6
by_family f g a = elim a.is_v4 [
  | true ↦ get_ipv4 a.ip >>= λ x. ok (f x)
  | false ↦ get_ipv6 a.ip >>= λ x. ok (g x)
]

unfoldable pub is_anyaddr : IpAddress → Result Bool
unfolding by_family
is_anyaddr a = do any ← by_family Ipv4.is_anyaddr Ipv6.is_anyaddr a; ok (any && a.port == 0)

-- What `inet_ntop` and `fmt::format("{}:{}", …)` do.
pub record Printer : Type 0 where
  pub ntop4 : List ℕ → String
  pub ntop6 : List ℕ → String
  pub with_port : String → ℕ → String
  pub local_remote : String → String → String

unfoldable pub to_string : Bool → Printer → IpAddress → Result String
unfolding by_family
to_string big_endian p a = do
  host ← by_family (Ipv4.to_string big_endian p.ntop4) (Ipv6.to_string big_endian p.ntop6) a
  ok (p.with_port host a.port)

-- `operator in_addr` and `operator in6_addr`
unfoldable pub as_in_addr : Bool → IpAddress → Result ℕ
unfolding get_ipv4
as_in_addr big_endian a = do x ← get_ipv4 a.ip; ok (Ipv4.to_in4 big_endian x)

unfoldable pub as_in6_addr : Bool → IpAddress → Result (List ℕ)
unfolding get_ipv6
as_in6_addr big_endian a = do x ← get_ipv6 a.ip; ok (Ipv6.to_in6 big_endian x)

-- The lexicographic order of `std::array`, and that of a pair.
unfoldable pub compare_words : List ℕ → List ℕ → Ordering
compare_words [] [] = Ordering.eq
compare_words [] (_ ∷ _) = Ordering.lt
compare_words (_ ∷ _) [] = Ordering.gt
compare_words (x ∷ xs) (y ∷ ys) = elim (compare x y) [
  | Ordering.eq ↦ compare_words xs ys
  | Ordering.lt ↦ Ordering.lt
  | Ordering.gt ↦ Ordering.gt
]

-- A variant compares by its index first.
unfoldable pub compare_ip : IpV → IpV → Ordering
compare_ip (v4 a) (v4 b) = compare a.addr b.addr
compare_ip (v4 _) (v6 _) = Ordering.lt
compare_ip (v6 _) (v4 _) = Ordering.gt
compare_ip (v6 a) (v6 b) = compare_words a.addr b.addr

-- `std::tie(_ip, _port) <=> std::tie(a._ip, a._port)`
unfoldable pub three_way : IpAddress → IpAddress → Ordering
three_way a b = elim (compare_ip a.ip b.ip) [
  | Ordering.eq ↦ compare a.port b.port
  | Ordering.lt ↦ Ordering.lt
  | Ordering.gt ↦ Ordering.gt
]

abbrev is_eq : Ordering → Bool
is_eq Ordering.eq = true
is_eq _ = false

unfoldable pub equal : IpAddress → IpAddress → Bool
equal a b = is_eq (three_way a b)

-- What `std::hash` of an integer and of a variant do.
pub record Hasher : Type 0 where
  pub of_u32 : ℕ → ℕ
  pub of_u16 : ℕ → ℕ
  pub of_variant : (index : ℕ) → ℕ → ℕ

-- `sizeof(size_t) >= 8`
abbrev pub inverse_golden_ratio : ℕ
inverse_golden_ratio = 0x9e3779b97f4a7c15

abbrev pub size_mod : ℕ
size_mod = 2 ^ 64

-- One round for each word; `h` is a `size_t`.
unfoldable pub hash_words : Hasher → ℕ → List ℕ → ℕ
hash_words hasher h [] = h
hash_words hasher h (v ∷ vs) =
    hash_words hasher
      (bit_xor h
        ((hasher.of_u16 v + inverse_golden_ratio + h * 2 ^ 7 % size_mod + h / 2 ^ 3) % size_mod))
      vs

unfoldable pub hash_ip : Hasher → IpV → ℕ
hash_ip hasher (v4 a) = hasher.of_variant 0 (hasher.of_u32 a.addr)
hash_ip hasher (v6 a) = hasher.of_variant 1 (hash_words hasher 0 a.addr)

-- The port does not enter the hash.
unfoldable pub hash : Hasher → IpAddress → ℕ
hash hasher a = hash_ip hasher a.ip

-- `struct path`: the two ends of a session.
pub record PathPair : Type 0 where
  pub local : IpAddress
  pub remote : IpAddress

unfoldable pub path_to_string : Bool → Printer → PathPair → Result String
unfolding to_string
path_to_string big_endian p ends = do
  l ← to_string big_endian p ends.local
  r ← to_string big_endian p ends.remote
  ok (p.local_remote l r)
