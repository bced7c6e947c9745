-- ===== src/Address/Ip/Keys.antt =====
-- address.hpp: an address as the key of an `std::unordered_map`.
use Prim.Native.Nat.{Ordering}
use wshttp.Prelude.{ℕ, ◌≡◌, refl, ◌↔◌, true, List, [], ◌∷◌, arith}
use wshttp.Maps.{Key}
use wshttp.Address.Ip.{
  IpV, v4, v6, IpAddress, compare_words, compare_ip, three_way, equal, Hasher, hash,
}

compare_words_iff : (xs ys : List ℕ) → (compare_words xs ys ≡ Ordering.eq) ↔ (xs ≡ ys)
unfolding compare_words
compare_words_iff [] [] = (λ _. refl, λ _. refl)
compare_words_iff [] (y ∷ ys) = (λ e. cc, λ e. cc)
compare_words_iff (x ∷ xs) [] = (λ e. cc, λ e. cc)
compare_words_iff (x ∷ xs) (y ∷ ys) = ground (arith, compare_words_iff xs ys)

compare_ip_iff : (x y : IpV) → (compare_ip x y ≡ Ordering.eq) ↔ (x ≡ y)
unfolding compare_ip
compare_ip_iff (v4 a) (v4 b) = ground arith
compare_ip_iff (v4 a) (v6 b) = (λ e. cc, λ e. cc)
compare_ip_iff (v6 a) (v4 b) = (λ e. cc, λ e. cc)
compare_ip_iff (v6 a) (v6 b) = ground (arith, compare_words_iff a.addr b.addr)

-- Two addresses are equal exactly when they hold the same alternative with the same value and have
-- the same port: the flag `_is_v4` does not count.
pub equal_iff : (a b : IpAddress) → (equal a b ≡ true) ↔ ((a.ip ≡ b.ip) × (a.port ≡ b.port))
unfolding equal three_way
equal_iff a b = ground (arith, compare_ip_iff a.ip b.ip)

-- Equal addresses have equal hashes, as an `std::unordered_map` requires of its keys.
pub hash-equal :
    (hasher : Hasher) (a b : IpAddress) → equal a b ≡ true → hash hasher a ≡ hash hasher b
unfolding hash
hash-equal hasher a b e = rw (((equal_iff a b).0 e).0)

pub equal_refl : (a : IpAddress) → equal a a ≡ true
equal_refl a = (equal_iff a a).1 (refl, refl)

pub equal_left : (a b c : IpAddress) → equal a b ≡ true → equal a c ≡ equal b c
unfolding equal three_way
equal_left a b c e = let (same_ip, same_port) = (equal_iff a b).0 e in ground arith

-- So the listener's map of sessions finds each remote address under any equal one.
instance abbrev pub ip_key : Key IpAddress
ip_key = record { same = equal; same_refl = equal_refl; same_left = equal_left }
