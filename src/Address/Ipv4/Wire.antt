-- ===== src/Address/Ipv4/Wire.antt =====
-- address.cpp: an IPv4 address, its text and its form on the wire.
use wshttp.Prelude.{
  ℕ, ◌+◌, ◌*◌, ◌%◌, ◌^◌, ◌<◌, ◌≡◌, sym, ap, ◌∙◌, bit_or, bit_or_disjoint, String, Bool, List, [],
  ◌∷◌, arith,
}
use wshttp.Prelude.Outcome.{ok}
use wshttp.Encoding.{four, modulus, host_to_big}
use wshttp.Encoding.RoundTrip.{big_to_host-host_to_big}
use wshttp.Encoding.Memory.{stored, network_bytes, stored-host_to_big, big_to_host-loaded_four}
use wshttp.Address.Ipv4.{
  Ipv4, Parsed, written, parse_addr, of_quad, of_in4, of_string, to_in4, to_string,
}

-- The four bytes of the quad are the digits of the number.
of_quad_sum :
    (a b c d : ℕ)
    → a < 256
    → b < 256
    → c < 256
    → d < 256
    → (of_quad a b c d).addr ≡ ((a * 256 + b) * 256 + c) * 256 + d
unfolding of_quad
of_quad_sum a b c d ha hb hc hd =
    let ma : a * 2 ^ 24 % 2 ^ 32 ≡ a * 2 ^ 24 = omega arith in
    let mb : b * 2 ^ 16 % 2 ^ 32 ≡ b * 2 ^ 16 = omega arith in
    let mc : c * 2 ^ 8 % 2 ^ 32 ≡ c * 2 ^ 8 = omega arith in
    let ab : bit_or (a * 2 ^ 24) (b * 2 ^ 16) ≡ (a * 256 + b) * 2 ^ 16 =
      omega (arith, bit_or_disjoint 24 a (b * 2 ^ 16) (omega arith)) in
    let abc : bit_or ((a * 256 + b) * 2 ^ 16) (c * 2 ^ 8) ≡ ((a * 256 + b) * 256 + c) * 2 ^ 8 =
      omega (arith, bit_or_disjoint 16 (a * 256 + b) (c * 2 ^ 8) (omega arith)) in
    rw (ma, mb, mc, ab, abc)
      (omega (arith, bit_or_disjoint 8 ((a * 256 + b) * 256 + c) d (omega arith)))

network_bytes_quad :
    (a b c d : ℕ)
    → a < 256
    → b < 256
    → c < 256
    → d < 256
    → network_bytes 4 (((a * 256 + b) * 256 + c) * 256 + d) ≡ a ∷ b ∷ c ∷ d ∷ []
network_bytes_quad a b c d ha hb hc hd = ground arith

-- The bytes given to the constructor go out in their order, on a machine of either byte order:
-- `to_in4` stores them so, and `to_string` hands them so to `inet_ntop`.
pub of_quad_wire :
    (big_endian : Bool) (inet_ntop : List ℕ → String) (a b c d : ℕ)
    → a < 256
    → b < 256
    → c < 256
    → d < 256
    → (stored big_endian 4 (to_in4 big_endian (of_quad a b c d)) ≡ a ∷ b ∷ c ∷ d ∷ [])
      × (to_string big_endian inet_ntop (of_quad a b c d) ≡ inet_ntop (a ∷ b ∷ c ∷ d ∷ []))
unfolding to_in4 to_string
of_quad_wire big_endian inet_ntop a b c d ha hb hc hd =
    let bytes_out : stored big_endian 4 (host_to_big big_endian four (of_quad a b c d).addr)
        ≡ a ∷ b ∷ c ∷ d ∷ [] =
      stored-host_to_big big_endian four _
      ∙ ap (network_bytes 4) (of_quad_sum a b c d ha hb hc hd)
      ∙ network_bytes_quad a b c d ha hb hc hd in
    (bytes_out, ap inet_ntop bytes_out)

-- A text that `inet_pton` reads as those bytes makes the same address as the constructor.
pub of_string-of_quad :
    (big_endian : Bool) (inet_pton : String → Parsed) (str : String) (a b c d : ℕ)
    → a < 256
    → b < 256
    → c < 256
    → d < 256
    → inet_pton str ≡ written (a ∷ b ∷ c ∷ d ∷ [])
    → of_string big_endian inet_pton str ≡ ok (of_quad a b c d)
unfolding of_string parse_addr
of_string-of_quad big_endian inet_pton str a b c d ha hb hc hd e =
    rw (e, of_string, parse_addr)
      (ap (λ n. ok (record { addr = n }))
        (big_to_host-loaded_four big_endian a b c d ha hb hc hd
          ∙ sym (of_quad_sum a b c d ha hb hc hd)))

-- From and to a socket address nothing is lost.
pub to_in4-of_in4 :
    (big_endian : Bool) (n : ℕ)
    → n < modulus four
    → (to_in4 big_endian (of_in4 big_endian n) ≡ n)
      × (of_in4 big_endian (to_in4 big_endian (record { addr = n })) ≡ record { addr = n })
unfolding to_in4 of_in4
to_in4-of_in4 big_endian n h =
    let (back, forth) = big_to_host-host_to_big big_endian four n h in
    (forth, ap (λ k. record { addr = k }) back)
