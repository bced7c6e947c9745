-- ===== src/Uri.antt =====
-- `struct uri` of include/wshttp/address.hpp and src/address.cpp, and `url_parser` of
-- src/internal.hpp and src/parser.cpp. The `ada` library is the parameter `Ada`.
pub mod Parsing
pub mod Fields
use wshttp.Prelude.{
  ℕ, zero, suc, String, Bool, true, false, not, ◌&&◌, Option, none, some, List, [], ◌∷◌, get_elem?,
  ◌==◌, nat_eq, string_eq, if◌then◌else◌,
}

-- What the parser uses of `ada::parse` and of a `url_aggregator`. `set_protocol` changes the url
-- and says whether it was accepted.
pub record Ada : Type 1 where
  pub Url : Type 0
  pub parse : String → Option Url
  pub set_protocol : Url → String → Url × Bool
  pub validate : Url → Bool
  pub get_protocol : Url → String
  pub get_username : Url → String
  pub get_host : Url → String
  pub get_port : Url → String
  pub get_pathname : Url → String
  pub get_search : Url → String
  pub get_hash : Url → String
  pub get_href : Url → String
  pub get_special_port : Url → ℕ

-- `URI_FIELDS`
abbrev pub uri_fields : ℕ
uri_fields = 8

-- `std::array<std::string, URI_FIELDS> _fields`
pub record Uri : Type 0 where
  pub fields : List String

-- `uri() = default`
abbrev pub default_uri : Uri
default_uri = record { fields = "" ∷ "" ∷ "" ∷ "" ∷ "" ∷ "" ∷ "" ∷ "" ∷ [] }

-- The constructor from the eight parts.
unfoldable pub of_parts : (s u h p pn q f hr : String) → Uri
of_parts s u h p pn q f hr = record { fields = s ∷ u ∷ h ∷ p ∷ pn ∷ q ∷ f ∷ hr ∷ [] }

-- `_fields[i]`
unfoldable pub field_at : ℕ → Uri → String
field_at i u = elim (get_elem? u.fields i) [ none ↦ "" | some s ↦ s ]

-- The accessors, by the values of the enumeration `UF`.
unfoldable pub scheme : Uri → String
unfolding field_at
scheme u = field_at 0 u

unfoldable pub userinfo : Uri → String
unfolding field_at
userinfo u = field_at 1 u

unfoldable pub host : Uri → String
unfolding field_at
host u = field_at 2 u

unfoldable pub port : Uri → String
unfolding field_at
port u = field_at 3 u

unfoldable pub path : Uri → String
unfolding field_at
path u = field_at 4 u

unfoldable pub query : Uri → String
unfolding field_at
query u = field_at 5 u

unfoldable pub fragment : Uri → String
unfolding field_at
fragment u = field_at 6 u

unfoldable pub href : Uri → String
unfolding field_at
href u = field_at 7 u

-- The lines that `print_contents` logs.
unfoldable pub print_contents : Uri → List String
print_contents u =
    field_at 0 u
    ∷ field_at 1 u
    ∷ field_at 2 u
    ∷ field_at 3 u
    ∷ field_at 4 u
    ∷ field_at 5 u
    ∷ field_at 6 u
    ∷ []

-- `empty()` asks the array whether it has no elements, which its size decides.
unfoldable pub empty : Uri → Bool
empty u = uri_fields == 0

-- `explicit operator bool`
unfoldable pub to_bool : Uri → Bool
unfolding empty
to_bool u = not (empty u)

-- `operator==`: the arrays compare field by field.
unfoldable pub equal_fields : List String → List String → Bool
equal_fields [] [] = true
equal_fields (a ∷ as') (b ∷ bs) = a == b && equal_fields as' bs
equal_fields _ _ = false

unfoldable pub equal : Uri → Uri → Bool
unfolding equal_fields
equal a b = equal_fields a.fields b.fields

-- `std::hash<wshttp::uri>`, by the hash of a text.
unfoldable pub hash : (String → ℕ) → Uri → ℕ
unfolding href
hash hash_text u = hash_text (href u)

module _ (ada : Ada) where
  open ada use {Url, parse, set_protocol, validate}

  -- `url_parser`. `res` is empty for a null pointer, and holds an `ada::result` otherwise.
  pub record Parser : Type 0 where
    pub text : Option String
    pub res : Option (Option Url)

  abbrev pub fresh : Parser
  fresh = record { text = none; res = none }

  -- The end of `_parse()`: the protocol is set, and the url checked.
  unfoldable pub check_url : Option String → Url → Parser × Bool
  check_url text url =
      let (changed, accepted) = set_protocol url "https" in
      let p : Parser = record { text = text; res = some (some changed) } in
      if accepted then (p, validate changed) else (p, false)

  -- `_parse()` on the text that `read` has stored.
  unfoldable pub parse_stored : String → Parser × Bool
  parse_stored input = elim (parse input) [
    | none ↦ (record { text = some input; res = some none }, false)
    | some url ↦ check_url (some input) url
  ]

  -- `_reset()`
  unfoldable pub reset : Parser → Parser
  reset p = record { text = none; res = none }

  unfoldable pub read : Parser → String → Parser × Bool
  unfolding parse_stored check_url reset
  read p input =
      let (p', success) = parse_stored input in if success then (p', true) else (reset p', false)

  -- `*_res` and `->`: `none` where the pointer is null or holds an error.
  unfoldable pub deref : Parser → Option Url
  deref p = elim p.res [ none ↦ none | some r ↦ r ]

  -- `url()`: the result as it is. Its handler catches nothing, since `_url()` throws nothing, and a
  -- null pointer is `none`.
  unfoldable pub url : Parser → Option (Option Url)
  url p = p.res

  unfoldable pub uri_of_url : Url → Uri
  unfolding of_parts
  uri_of_url u =
      of_parts (ada.get_protocol u) (ada.get_username u) (ada.get_host u) (ada.get_port u)
        (ada.get_pathname u) (ada.get_search u) (ada.get_hash u) (ada.get_href u)

  unfoldable pub extract : Parser → Option Uri
  unfolding deref uri_of_url
  extract p = elim (deref p) [ none ↦ none | some u ↦ some (uri_of_url u) ]

  -- `href_str()` and `href_sv()`
  unfoldable pub href_text : Parser → Option String
  href_text p = elim p.res [
    | none ↦ some ""
    | some none ↦ none
    | some (some u) ↦ some (ada.get_href u)
  ]

  -- What `print_aggregates()` logs: nothing but a complaint without a result.
  unfoldable pub print_aggregates : Parser → Option (List String × ℕ)
  unfolding extract
  print_aggregates p = elim p.res [
    | none ↦ some ([], 0)
    | some none ↦ none
    | some (some u) ↦ some ((uri_of_url u).fields, ada.get_special_port u)
  ]

  -- `uri::parse`, with the global parser passed along.
  unfoldable pub parse_uri : Parser → String → Parser × Option Uri
  unfolding read extract
  parse_uri p url =
      let (p', success) = read p url in if success then (p', extract p') else (p', some default_uri)
