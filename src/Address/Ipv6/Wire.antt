-- ===== src/Address/Ipv6/Wire.antt =====
-- address.cpp: an IPv6 address, its text and its form on the wire.
use wshttp.Prelude.{
  ℕ, zero, suc, ◌+◌, ◌*◌, ◌<◌, ◌≡◌, refl, ap, ◌∙◌, String, Bool, true, false, List, [], ◌∷◌, ◌++◌,
  map, arith, All, if◌then◌else◌, ◌/◌, ◌%◌,
}
use mathlib.Core.Path.{ap₂}
use wshttp.Encoding.{two, host_to_big, big_to_host_inplace, byteswap_inplace, big_to_host, bswap_16}
use wshttp.Encoding.Memory.{network_bytes, stored-host_to_big, big_to_host-loaded_two}
use wshttp.Address.Ipv6.{Ipv6, load_words, store_words, of_in6, to_in6, convert_bytes, to_string}

-- Sixteen-bit words as bytes, the high byte first.
abbrev pub wire : List ℕ → List ℕ
wire [] = []
wire (w ∷ ws) = network_bytes 2 w ++ wire ws

abbrev pub AreWords : List ℕ → Type 0
AreWords = All (λ w. w < 0x10000)

store_words-host_to_big :
    (big_endian : Bool) (ws : List ℕ)
    → store_words big_endian (map (host_to_big big_endian two) ws) ≡ wire ws
unfolding store_words
store_words-host_to_big big_endian [] = refl
store_words-host_to_big big_endian (w ∷ ws) =
    ap₂ ◌++◌ (stored-host_to_big big_endian two w) (store_words-host_to_big big_endian ws)

load_words-wire :
    (big_endian : Bool) (ws : List ℕ)
    → AreWords ws
    → map (big_to_host big_endian two) (load_words big_endian (wire ws)) ≡ ws
unfolding load_words
load_words-wire big_endian [] h = refl
load_words-wire big_endian (w ∷ ws) (h, hs) =
    ap₂ ◌∷◌
      (big_to_host-loaded_two big_endian (w / 256 % 256) (w % 256) (omega arith) (omega arith)
        ∙ omega arith)
      (load_words-wire big_endian ws hs)

-- On a machine of either byte order: `to_string` hands `inet_ntop` the words of the address with
-- the high byte first, and an address made from those bytes is the address again.
pub to_string-of_in6 :
    (big_endian : Bool) (inet_ntop : List ℕ → String) (a : Ipv6)
    → AreWords a.addr
    → (to_string big_endian inet_ntop a ≡ inet_ntop (wire a.addr))
      × (of_in6 big_endian (wire a.addr) ≡ a)
unfolding to_string of_in6
to_string-of_in6 big_endian inet_ntop a h = (
  ap inet_ntop (store_words-host_to_big big_endian a.addr),
  ap (λ ws. record { addr = ws }) (load_words-wire big_endian a.addr h),
)

convert_bytes_lem : (big_endian : Bool) (n : ℕ) (bs : List ℕ) → convert_bytes big_endian n bs ≡ bs
unfolding convert_bytes big_to_host big_to_host_inplace byteswap_inplace
convert_bytes_lem big_endian zero bs = refl
convert_bytes_lem big_endian (suc n) [] = refl
convert_bytes_lem true (suc n) (b ∷ bs) = ap (◌∷◌ b) (convert_bytes_lem true n bs)
convert_bytes_lem false (suc n) (b ∷ bs) = ap (◌∷◌ b) (convert_bytes_lem false n bs)

load-store_words :
    (big_endian : Bool) (ws : List ℕ)
    → AreWords ws
    → map (big_to_host big_endian two) (load_words big_endian (store_words big_endian ws))
      ≡ (if big_endian then ws else map bswap_16 ws)
unfolding load_words store_words big_to_host big_to_host_inplace byteswap_inplace
load-store_words true [] h = refl
load-store_words false [] h = refl
load-store_words true (w ∷ ws) (h, hs) = ap₂ ◌∷◌ (omega arith) (load-store_words true ws hs)
load-store_words false (w ∷ ws) (h, hs) =
    let same : w % 256 + 256 * (w / 256 % 256 + 256 * 0) ≡ w = omega arith in
    ap₂ ◌∷◌ (ap bswap_16 same) (load-store_words false ws hs)

-- `to_in6` converts single bytes, which changes nothing, so the words stay in host order: on a
-- big-endian machine the round trip gives the address back, on a little-endian one each of its
-- words comes back with the two bytes swapped.
pub of_in6-to_in6 :
    (big_endian : Bool) (a : Ipv6)
    → AreWords a.addr
    → (of_in6 big_endian (to_in6 big_endian a)).addr
      ≡ (if big_endian then a.addr else map bswap_16 a.addr)
unfolding of_in6 to_in6
of_in6-to_in6 big_endian a h =
    rw (convert_bytes_lem big_endian 8 (store_words big_endian a.addr))
      (load-store_words big_endian a.addr h)
