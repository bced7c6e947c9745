-- ===== src/Request.antt =====
-- include/wshttp/request.hpp and src/request.cpp, with the byte literals and spans of
-- include/wshttp/types.hpp. A span is the list of its bytes.
pub mod Literals
pub mod Cursor
use Prim.Native.Nat.{compare, Ordering}
use wshttp.Prelude.{
  ℕ, suc, ◌+◌, ◌-◌, ◌%◌, ◌^◌, String, Bool, true, false, ◌&&◌, Option, none, some, List, [], ◌∷◌,
  ◌++◌, map, codes, length, get_elem?, ◌==◌, nat_eq, if◌then◌else◌,
}

-- `"…"_usp`: `detail::literal` takes its `N` from the array of the literal, whose last element is
-- the terminating zero, and `span()` covers all of it.
abbrev pub usp : String → List ℕ
usp s = codes s ++ 0 ∷ []

-- `operator==` of a `const_span` and a contiguous range: `std::ranges::equal`.
unfoldable pub span_equal : List ℕ → List ℕ → Bool
span_equal [] [] = true
span_equal (a ∷ as') (b ∷ bs) = a == b && span_equal as' bs
span_equal _ _ = false

-- `operator<=>`: `std::lexicographical_compare_three_way`.
unfoldable pub span_compare : List ℕ → List ℕ → Ordering
span_compare [] [] = Ordering.eq
span_compare [] (_ ∷ _) = Ordering.lt
span_compare (_ ∷ _) [] = Ordering.gt
span_compare (a ∷ as') (b ∷ bs) = elim (compare a b) [
  | Ordering.eq ↦ span_compare as' bs
  | Ordering.lt ↦ Ordering.lt
  | Ordering.gt ↦ Ordering.gt
]

-- `to_string()` makes its text of the pointer that `reinterpret_cast` yields, and that casts
-- `data(), size()`, whose value is the size: this is the address from which the text is read.
unfoldable pub span_to_string : List ℕ → ℕ
span_to_string bytes = length bytes

-- `req::FIELD` and `req::CODE`
pub data Field : Type 0 where
  method scheme authority path status : Field

pub data Code : Type 0 where
  ok_200 not_found_404 : Code

-- `_field`, with the constants of `req::fields`
unfoldable pub field_name : Field → List ℕ
field_name method = usp ":method"
field_name scheme = usp ":scheme"
field_name authority = usp ":authority"
field_name path = usp ":path"
field_name status = usp ":status"

-- `_code`, with the constants of `req::code`
unfoldable pub code_value : Code → List ℕ
code_value ok_200 = usp "200"
code_value not_found_404 = usp "404"

-- `nghttp2_nv_flag`, a set of bits.
pub record NvFlags : Type 0 where
  pub no_index : Bool
  pub no_copy_name : Bool
  pub no_copy_value : Bool

abbrev pub flag_none : NvFlags
flag_none = record { no_index = false; no_copy_name = false; no_copy_value = false }

-- `flags | NGHTTP2_NV_FLAG_NO_COPY_NAME | NGHTTP2_NV_FLAG_NO_COPY_VALUE`
abbrev no_copy : NvFlags → NvFlags
no_copy flags = record flags { no_copy_name = true; no_copy_value = true }

-- `nghttp2_nv`
pub record Nv : Type 0 where
  pub name : List ℕ
  pub value : List ℕ
  pub flags : NvFlags

unfoldable pub make_pair : List ℕ → List ℕ → NvFlags → Nv
make_pair name value flags = record { name = name; value = value; flags = no_copy flags }

unfoldable pub make_header : Field → List ℕ → NvFlags → Nv
unfolding field_name
make_header f v flags = record { name = field_name f; value = v; flags = no_copy flags }

pub record Headers : Type 0 where
  pub hdrs : List Nv
  pub index : ℕ

abbrev pub no_headers : Headers
no_headers = record { hdrs = []; index = 0 }

unfoldable pub add_field : Headers → Field → List ℕ → NvFlags → Headers
unfolding make_header
add_field h f val flags = record h { hdrs = h.hdrs ++ make_header f val flags ∷ [] }

unfoldable pub add_pair : Headers → List ℕ → List ℕ → NvFlags → Headers
unfolding make_pair
add_pair h name val flags = record h { hdrs = h.hdrs ++ make_pair name val flags ∷ [] }

-- `headers(uspan name, uspan val, nghttp2_nv_flag flags)`: the body calls `make_pair` and drops
-- what it returns.
unfoldable pub of_pair : List ℕ → List ℕ → NvFlags → Headers
of_pair name val flags = let dropped = make_pair name val flags in no_headers

-- `headers(FIELD f, uspan val, nghttp2_nv_flag flags)`
unfoldable pub of_field : Field → List ℕ → NvFlags → Headers
unfolding add_field
of_field f val flags = add_field no_headers f val flags

unfoldable pub make_status : Code → Headers
unfolding of_pair
make_status s = of_pair (usp ":status") (code_value s) flag_none

unfoldable pub size : Headers → ℕ
size h = length h.hdrs

-- `operator[]`, where the assertion holds.
unfoldable pub at : Headers → ℕ → Option (List ℕ × List ℕ)
at h i = elim (get_elem? h.hdrs i) [ none ↦ none | some n ↦ some (n.name, n.value) ]

-- `current()`: nothing beyond the end of the vector, where the code's read is undefined.
unfoldable pub current : Headers → Option (List ℕ × List ℕ)
unfolding at
current h = at h h.index

-- `next()`, which divides by the size: `none` where that is zero.
unfoldable pub next : Headers → Option (Headers × Option (List ℕ × List ℕ))
unfolding current
next h =
    let moved : Headers = record h { index = (h.index + 1) % 2 ^ 64 % length h.hdrs } in
    if length h.hdrs == 0 then none else some (moved, current moved)

-- `_index == size() - 1`, in `size_t`.
unfoldable pub end : Headers → Bool
end h = h.index == (length h.hdrs + 2 ^ 64 - 1) % 2 ^ 64

-- What `print()` writes to the log: the address from which the text of the name is read, and the
-- bytes of the value.
unfoldable pub print : Headers → List (ℕ × List ℕ)
unfolding span_to_string
print h = map (λ n. (span_to_string n.name, n.value)) h.hdrs

-- `nghttp2_settings_entry` and `req::settings`
pub record Setting : Type 0 where
  pub id : ℕ
  pub value : ℕ

unfoldable pub make_setting : ℕ → ℕ → Setting
make_setting id val = record { id = id; value = val }

unfoldable pub add_setting : List Setting → ℕ → ℕ → List Setting
unfolding make_setting
add_setting settings id val = settings ++ make_setting id val ∷ []
