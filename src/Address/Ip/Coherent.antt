-- ===== src/Address/Ip/Coherent.antt =====
-- address.cpp: the flag `_is_v4` and the alternative that the variant holds.
use wshttp.Prelude.{◌≡◌, refl, ◌↔◌, ◌⊎◌, inl, inr, Bool, true, false, String, arith}
use wshttp.Prelude.Outcome.{ok, throw, bad_variant_access}
use wshttp.Address.Ip.{
  IpV, v4, v6, IpAddress, holds_v4, Sockaddr, inet, inet6, other, of_sockaddr, is_anyaddr, Printer,
  to_string, PathPair, path_to_string,
}

abbrev pub IsCoherent : IpAddress → Type 0
IsCoherent a = a.is_v4 ≡ holds_v4 a.ip

-- Printing and the test for the any-address return.
abbrev pub Returns : Bool → Printer → IpAddress → Type 0
Returns big_endian p a =
    ((s : String) × (to_string big_endian p a ≡ ok s)) × ((b : Bool) × (is_anyaddr a ≡ ok b))

-- Both throw.
abbrev pub Throws : Bool → Printer → IpAddress → Type 0
Throws big_endian p a =
    (to_string big_endian p a ≡ throw bad_variant_access)
    × (is_anyaddr a ≡ throw bad_variant_access)

-- Printing an address and testing it for the any-address both return where the flag agrees with
-- the alternative that the variant holds, and both throw `bad_variant_access` where it does not.
pub to_string-IsCoherent :
    (big_endian : Bool) (p : Printer) (a : IpAddress)
    → (IsCoherent a × Returns big_endian p a) ⊎ ((¬ IsCoherent a) × Throws big_endian p a)
unfolding to_string is_anyaddr
to_string-IsCoherent big_endian p a = go a.ip a.is_v4
  where
    go :
        (ip : IpV) (flag : Bool)
        → let x : IpAddress = record { ip = ip; port = a.port; is_v4 = flag } in
          (IsCoherent x × Returns big_endian p x) ⊎ ((¬ IsCoherent x) × Throws big_endian p x)
    go (v4 x) true = inl (refl, ((_, refl), (_, refl)))
    go (v6 x) true = inr (λ e. cc, (refl, refl))
    go (v4 x) false = inr (λ e. cc, (refl, refl))
    go (v6 x) false = inl (refl, ((_, refl), (_, refl)))

abbrev pub IsInet : Sockaddr → Type 0
IsInet (inet _ _) = Unit
IsInet _ = ⊥

-- An address that the constructor makes from a socket address has a coherent flag exactly if the
-- socket address is an IPv4 one; so for an IPv6 one printing and the any-address test throw.
pub of_sockaddr-IsCoherent :
    (big_endian : Bool) (p : Printer) (s : Sockaddr) (a : IpAddress)
    → of_sockaddr big_endian s ≡ ok a
    → (IsCoherent a ↔ IsInet s) × ((¬ IsInet s) → Throws big_endian p a)
unfolding of_sockaddr to_string is_anyaddr
of_sockaddr-IsCoherent big_endian p (inet s_addr port) a e =
    ((λ _. tt, λ _. ground arith), λ n. absurd (n tt))
of_sockaddr-IsCoherent big_endian p (inet6 s6_addr port) a e =
    ((λ c. ground arith, λ v. absurd v), λ _. (ground arith, ground arith))
of_sockaddr-IsCoherent big_endian p (other family) a e = cc

-- Both ends of a path can be printed.
abbrev pub AreCoherent : PathPair → Type 0
AreCoherent ends = IsCoherent ends.local × IsCoherent ends.remote

pub prints :
    (big_endian : Bool) (p : Printer) (a : IpAddress)
    → IsCoherent a
    → (s : String) × (to_string big_endian p a ≡ ok s)
prints big_endian p a c = elim (to_string-IsCoherent big_endian p a) [
  | inl (_, (printed, _)) ↦ printed
  | inr (bad, _) ↦ absurd (bad c)
]

-- A path is printed where both ends can be, and else printing it throws.
pub path_to_string-AreCoherent :
    (big_endian : Bool) (p : Printer) (ends : PathPair)
    → (AreCoherent ends → (s : String) × (path_to_string big_endian p ends ≡ ok s))
      × ((¬ AreCoherent ends) → path_to_string big_endian p ends ≡ throw bad_variant_access)
unfolding path_to_string
path_to_string-AreCoherent big_endian p ends = (
  λ (l, r).
      let (left, el) = prints big_endian p ends.local l in
      let (right, er) = prints big_endian p ends.remote r in
      (p.local_remote left right, rw (path_to_string, el, er) refl),
  λ bad. elim (to_string-IsCoherent big_endian p ends.local) [
    | inr (_, (thrown, _)) ↦ rw (path_to_string, thrown) refl
    | inl (l, ((left, el), _)) ↦ elim (to_string-IsCoherent big_endian p ends.remote) [
      | inl (r, _) ↦ absurd (bad (l, r))
      | inr (_, (thrown, _)) ↦ rw (path_to_string, el, thrown) refl
    ]
  ],
)
