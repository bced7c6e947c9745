-- ===== src/Uri/Fields.antt =====
-- address.hpp: the eight parts of a `uri`, their order, and the comparison of two.
use wshttp.Prelude.{ℕ, ◌≡◌, refl, ap, ◌↔◌, String, true, List, [], ◌∷◌, arith, eq_iff}
use wshttp.Uri.{
  Ada, Uri, uri_of_url, scheme, userinfo, host, port, path, query, fragment, href, print_contents,
  equal_fields, equal, hash,
}

-- Each accessor of an extracted address gives the part of the url that it is named for, and
-- `print_contents` logs all of them but the whole reference, in order.
pub uri_of_url_parts :
    (ada : Ada) (url : ada.Url)
    → let u = uri_of_url ada url in
      (scheme u ≡ ada.get_protocol url)
      × (userinfo u ≡ ada.get_username url)
      × (host u ≡ ada.get_host url)
      × (port u ≡ ada.get_port url)
      × (path u ≡ ada.get_pathname url)
      × (query u ≡ ada.get_search url)
      × (fragment u ≡ ada.get_hash url)
      × (href u ≡ ada.get_href url)
      × (print_contents u
          ≡ scheme u ∷ userinfo u ∷ host u ∷ port u ∷ path u ∷ query u ∷ fragment u ∷ [])
unfolding uri_of_url scheme userinfo host port path query fragment href print_contents
uri_of_url_parts ada url = (refl, refl, refl, refl, refl, refl, refl, refl, refl)

equal_fields_iff : (xs ys : List String) → (equal_fields xs ys ≡ true) ↔ (xs ≡ ys)
unfolding equal_fields
equal_fields_iff [] [] = (λ _. refl, λ _. refl)
equal_fields_iff [] (y ∷ ys) = (λ e. cc, λ e. cc)
equal_fields_iff (x ∷ xs) [] = (λ e. cc, λ e. cc)
equal_fields_iff (x ∷ xs) (y ∷ ys) = ground (arith, equal_fields_iff xs ys, eq_iff x y)

-- Two addresses compare equal exactly when all their parts agree, and then their hashes agree,
-- whatever the hash of a text.
pub hash-equal_uri :
    (hash_text : String → ℕ) (a b : Uri)
    → ((equal a b ≡ true) ↔ (a ≡ b)) × (equal a b ≡ true → hash hash_text a ≡ hash hash_text b)
unfolding equal
hash-equal_uri hash_text a b =
    let agree : equal a b ≡ true → a ≡ b =
      λ e. ap (λ fs. record { fields = fs }) ((equal_fields_iff a.fields b.fields).0 e) in
    (
      (agree, λ e. (equal_fields_iff a.fields b.fields).1 (ap (λ (u : Uri). u.fields) e)),
      λ e. ap (hash hash_text) (agree e),
    )
