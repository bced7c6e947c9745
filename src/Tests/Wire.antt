-- ===== src/Tests/Wire.antt =====
-- Byte order and addresses (encoding.hpp, address.hpp, address.cpp).
use wshttp.Prelude.{ℕ, ◌≡◌, ◌↔◌, refl, String, true, false, List, [], ◌∷◌, arith}
use wshttp.Prelude.Outcome.{ok}
use wshttp.Encoding.{big_to_host, byteswap_inplace, bswap_16}
use wshttp.Encoding.Memory.{stored}
use wshttp.Address.Ipv4
use wshttp.Address.Ipv4.{of_quad}
use wshttp.Address.Ipv4.Wire.{of_quad_wire}
use wshttp.Address.Ipv6.{Ipv6, of_in6, to_in6}
use wshttp.Address.Ipv6.Wire.{AreWords, of_in6-to_in6}
use wshttp.Address.Ip.{v6, IpAddress, Sockaddr, inet6, of_sockaddr, Printer}
use wshttp.Address.Ip.Coherent.{IsCoherent, Throws, IsInet, of_sockaddr-IsCoherent}

abbrev ntop : List ℕ → String
ntop bs = "printed"

abbrev loopback6 : Ipv6
loopback6 = record { addr = 0 ∷ 0 ∷ 0 ∷ 0 ∷ 0 ∷ 0 ∷ 0 ∷ 1 ∷ [] }

words6 : AreWords loopback6.addr
words6 = ground arith

of_in6-to_in6_example :
    (of_in6 false (to_in6 false loopback6)).addr ≡ 0 ∷ 0 ∷ 0 ∷ 0 ∷ 0 ∷ 0 ∷ 0 ∷ 0x100 ∷ []
unfolding bswap_16
of_in6-to_in6_example = of_in6-to_in6 false loopback6 words6

abbrev printer : Printer
printer = record {
  ntop4 = ntop;
  ntop6 = ntop;
  with_port = λ host port. host;
  local_remote = λ l r. l;
}

-- The peer `[::1]:443`, as the listener is given it.
abbrev peer6 : Sockaddr
peer6 = inet6 (0 ∷ 0 ∷ 0 ∷ 0 ∷ 0 ∷ 0 ∷ 0 ∷ 0 ∷ 0 ∷ 0 ∷ 0 ∷ 0 ∷ 0 ∷ 0 ∷ 0 ∷ 1 ∷ []) 0xbb01

abbrev remote6 : IpAddress
remote6 = record { ip = v6 loopback6; port = 443; is_v4 = true }

of_peer6 : of_sockaddr false peer6 ≡ ok remote6
unfolding of_sockaddr of_in6 big_to_host byteswap_inplace bswap_16
of_peer6 = refl

of_sockaddr-IsCoherent_example :
    (IsCoherent remote6 ↔ IsInet peer6) × ((¬ IsInet peer6) → Throws false printer remote6)
of_sockaddr-IsCoherent_example = of_sockaddr-IsCoherent false printer peer6 remote6 of_peer6

-- 127.0.0.1
of_quad_wire_example :
    (stored false 4 (Ipv4.to_in4 false (of_quad 127 0 0 1)) ≡ 127 ∷ 0 ∷ 0 ∷ 1 ∷ [])
    × (Ipv4.to_string false ntop (of_quad 127 0 0 1) ≡ ntop (127 ∷ 0 ∷ 0 ∷ 1 ∷ []))
of_quad_wire_example =
    of_quad_wire false ntop 127 0 0 1 (omega arith) (omega arith) (omega arith) (omega arith)
