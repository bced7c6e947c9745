-- ===== src/Encoding/Memory.antt =====
-- encoding.hpp: what a converted integer looks like in memory.
use wshttp.Prelude.{
  ℕ, zero, suc, ◌+◌, ◌/◌, ◌%◌, ◌<◌, ◌≡◌, refl, Bool, true, false, List, [], ◌∷◌, ◌++◌, arith, ◌∙◌,
  sym, ◌*◌,
}
use mathlib.Core.Path.{ap₂}
use wshttp.Encoding.RoundTrip.{bswap_32-lt}
use wshttp.Encoding.{
  Width, one, two, four, eight, bytes, bswap_16, bswap_32, bswap_64, byteswap_inplace,
  host_to_big_inplace, host_to_big, big_to_host_inplace, big_to_host,
}

-- The lowest `n` bytes of a number, the least significant first.
abbrev pub little_bytes : ℕ → ℕ → List ℕ
little_bytes zero x = []
little_bytes (suc n) x = x % 256 ∷ little_bytes n (x / 256)

-- The most significant first: the order of the network.
abbrev pub network_bytes : ℕ → ℕ → List ℕ
network_bytes zero x = []
network_bytes (suc n) x = network_bytes n (x / 256) ++ (x % 256) ∷ []

-- How a machine of that byte order stores a number.
abbrev pub stored : Bool → ℕ → ℕ → List ℕ
stored true n x = network_bytes n x
stored false n x = little_bytes n x

-- The numbers that those bytes stand for.
abbrev pub load_little : List ℕ → ℕ
load_little [] = 0
load_little (b ∷ bs) = b + 256 * load_little bs

abbrev pub load_network : ℕ → List ℕ → ℕ
load_network high [] = high
load_network high (b ∷ bs) = load_network (high * 256 + b) bs

-- What a machine of that byte order reads from those bytes.
abbrev pub loaded : Bool → List ℕ → ℕ
loaded true bs = load_network 0 bs
loaded false bs = load_little bs

little_bytes-bswap_32 : (x : ℕ) → little_bytes 4 (bswap_32 x) ≡ network_bytes 4 x
unfolding bswap_32 bswap_16
little_bytes-bswap_32 x = ground arith

-- The two halves of eight bytes.
little_bytes_halves :
    (h l : ℕ)
    → l < 0x100000000
    → little_bytes 8 (h * 0x100000000 + l) ≡ little_bytes 4 l ++ little_bytes 4 h
little_bytes_halves h l k = ground arith

network_bytes_halves :
    (x : ℕ)
    → network_bytes 8 x
      ≡ network_bytes 4 (x / 0x100000000 % 0x100000000) ++ network_bytes 4 (x % 0x100000000)
network_bytes_halves x = ground arith

little_bytes-bswap_64 : (x : ℕ) → little_bytes 8 (bswap_64 x) ≡ network_bytes 8 x
unfolding bswap_64
little_bytes-bswap_64 x =
    little_bytes_halves _ _ (bswap_32-lt _)
    ∙ ap₂ ◌++◌ (little_bytes-bswap_32 _) (little_bytes-bswap_32 _)
    ∙ sym (network_bytes_halves x)

little_bytes-byteswap :
    (w : Width) (x : ℕ) → little_bytes (bytes w) (byteswap_inplace w x) ≡ network_bytes (bytes w) x
unfolding byteswap_inplace bswap_16
little_bytes-byteswap one x = refl
little_bytes-byteswap two x = ground arith
little_bytes-byteswap four x = little_bytes-bswap_32 x
little_bytes-byteswap eight x = little_bytes-bswap_64 x

-- On a machine of either byte order, and for each width, what `host_to_big` yields is stored with
-- the most significant byte first.
pub stored-host_to_big :
    (big_endian : Bool) (w : Width) (x : ℕ)
    → stored big_endian (bytes w) (host_to_big big_endian w x) ≡ network_bytes (bytes w) x
unfolding host_to_big host_to_big_inplace
stored-host_to_big true w x = refl
stored-host_to_big false w x = little_bytes-byteswap w x

pub big_to_host-loaded_two :
    (big_endian : Bool) (a b : ℕ)
    → a < 256
    → b < 256
    → big_to_host big_endian two (loaded big_endian (a ∷ b ∷ [])) ≡ a * 256 + b
unfolding big_to_host big_to_host_inplace byteswap_inplace bswap_16
big_to_host-loaded_two true a b ha hb = omega arith
big_to_host-loaded_two false a b ha hb = omega arith

pub big_to_host-loaded_four :
    (big_endian : Bool) (a b c d : ℕ)
    → a < 256
    → b < 256
    → c < 256
    → d < 256
    → big_to_host big_endian four (loaded big_endian (a ∷ b ∷ c ∷ d ∷ []))
      ≡ ((a * 256 + b) * 256 + c) * 256 + d
unfolding big_to_host big_to_host_inplace byteswap_inplace bswap_32 bswap_16
big_to_host-loaded_four true a b c d ha hb hc hd = omega arith
big_to_host-loaded_four false a b c d ha hb hc hd = omega arith
