-- ===== src/Encoding/RoundTrip.antt =====
-- encoding.hpp: converting to network order and back.
use wshttp.Prelude.{ℕ, ◌+◌, ◌*◌, ◌/◌, ◌%◌, ◌<◌, ◌≡◌, refl, Bool, true, false, arith}
use wshttp.Encoding.{
  Width, one, two, four, eight, modulus, bswap_16, bswap_32, bswap_64, byteswap_inplace,
  host_to_big_inplace, big_to_host_inplace, host_to_big, big_to_host,
}

-- Reading the two halves of a word back.
low_half : (m h l : ℕ) → l < m → (h * m + l) % m ≡ l
low_half m h l k = grind arith

high_half_16 : (h l : ℕ) → l < 0x10000 → h < 0x10000 → (h * 0x10000 + l) / 0x10000 % 0x10000 ≡ h
high_half_16 h l k j = omega arith

high_half_32 :
    (h l : ℕ)
    → l < 0x100000000
    → h < 0x100000000
    → (h * 0x100000000 + l) / 0x100000000 % 0x100000000 ≡ h
high_half_32 h l k j = omega arith

bswap_16-bswap_16 : (x : ℕ) → x < 0x10000 → bswap_16 (bswap_16 x) ≡ x
unfolding bswap_16
bswap_16-bswap_16 x h = omega arith

bswap_16-lt : (x : ℕ) → bswap_16 x < 0x10000
unfolding bswap_16
bswap_16-lt x = omega arith

pub bswap_32-lt : (x : ℕ) → bswap_32 x < 0x100000000
unfolding bswap_32
bswap_32-lt x = omega (arith, bswap_16-lt (x % 0x10000), bswap_16-lt (x / 0x10000 % 0x10000))

bswap_32-bswap_32 : (x : ℕ) → x < 0x100000000 → bswap_32 (bswap_32 x) ≡ x
unfolding bswap_32
bswap_32-bswap_32 x h =
    let hi = bswap_16 (x % 0x10000) in
    let lo = bswap_16 (x / 0x10000 % 0x10000) in
    rw (low_half 0x10000 hi lo (bswap_16-lt _), high_half_16 hi lo (bswap_16-lt _) (bswap_16-lt _))
      (omega (
        arith,
        bswap_16-bswap_16 (x % 0x10000) (omega arith),
        bswap_16-bswap_16 (x / 0x10000 % 0x10000) (omega arith),
      ))

bswap_64-bswap_64 : (x : ℕ) → x < 0x10000000000000000 → bswap_64 (bswap_64 x) ≡ x
unfolding bswap_64
bswap_64-bswap_64 x h =
    let hi = bswap_32 (x % 0x100000000) in
    let lo = bswap_32 (x / 0x100000000 % 0x100000000) in
    rw
      (
        low_half 0x100000000 hi lo (bswap_32-lt _),
        high_half_32 hi lo (bswap_32-lt _) (bswap_32-lt _),
      )
      (omega (
        arith,
        bswap_32-bswap_32 (x % 0x100000000) (omega arith),
        bswap_32-bswap_32 (x / 0x100000000 % 0x100000000) (omega arith),
      ))

byteswap-byteswap :
    (w : Width) (x : ℕ) → x < modulus w → byteswap_inplace w (byteswap_inplace w x) ≡ x
unfolding byteswap_inplace
byteswap-byteswap one x h = refl
byteswap-byteswap two x h = bswap_16-bswap_16 x h
byteswap-byteswap four x h = bswap_32-bswap_32 x h
byteswap-byteswap eight x h = bswap_64-bswap_64 x h

-- On a machine of either byte order, and for each width, an integer that is converted to network
-- order and back is unchanged, and so is one that is converted the other way round.
pub big_to_host-host_to_big :
    (big_endian : Bool) (w : Width) (x : ℕ)
    → x < modulus w
    → (big_to_host big_endian w (host_to_big big_endian w x) ≡ x)
      × (host_to_big big_endian w (big_to_host big_endian w x) ≡ x)
unfolding big_to_host host_to_big big_to_host_inplace host_to_big_inplace
big_to_host-host_to_big true w x h = (refl, refl)
big_to_host-host_to_big false w x h = (byteswap-byteswap w x h, byteswap-byteswap w x h)
