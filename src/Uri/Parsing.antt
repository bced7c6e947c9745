-- ===== src/Uri/Parsing.antt =====
-- parser.cpp: what reading a url leaves behind, and what `uri::parse` returns.
use wshttp.Prelude.{
  ◌≡◌, refl, String, Bool, true, false, none, some, arith, ◌⊎◌, inl, inr, Option-cases, Bool-cases,
}
use wshttp.Uri.{Ada, Parser, fresh, read, href_text}

module _ (ada : Ada) where
  -- The url that `ada` makes of a text, where every one of the parser's three checks passes.
  abbrev pub Accepts : String → ada.Url → Type 0
  Accepts text changed =
      (url : ada.Url) × (ada.parse text ≡ some url)
      × (ada.set_protocol url "https" ≡ (changed, true))
      × (ada.validate changed ≡ true)

  -- A parser that holds no result, or a url that passes the check.
  abbrev pub IsReady : Parser ada → Type 0
  IsReady p =
      (p.res ≡ none) ⊎ ((url : ada.Url) × (p.res ≡ some (some url)) × (ada.validate url ≡ true))

  abbrev pub Outcome : String → Parser ada × Bool → Type 0
  Outcome text r =
      ((changed : ada.Url) × Accepts text changed
        × (r ≡ (record { text = some text; res = some (some changed) }, true)))
      ⊎ (((changed : ada.Url) → ¬ Accepts text changed) × (r ≡ (fresh ada, false)))

  -- The same for a text that `ada` parses.
  read_parsed :
      (p : Parser ada) (text : String) (url : ada.Url)
      → ada.parse text ≡ some url
      → Outcome text (read ada p text)
  unfolding read
  read_parsed p text url parsed = elim (Bool-cases (ada.set_protocol url "https").1) [
    | inr refused ↦ inr (λ changed (other, e, f, g). ground arith, ground arith)
    | inl set ↦ elim (Bool-cases (ada.validate (ada.set_protocol url "https").0)) [
      | inr bad ↦ inr (λ changed (other, e, f, g). ground arith, ground arith)
      | inl good ↦
          inl ((ada.set_protocol url "https").0, (url, parsed, ground arith, good), ground arith)
    ]
  ]

  -- `read` succeeds exactly on the texts that pass all three checks, and then holds the changed
  -- url; else it clears the parser. It returns so from any state of the parser.
  pub read-Accepts : (p : Parser ada) (text : String) → Outcome text (read ada p text)
  unfolding read
  read-Accepts p text = elim (Option-cases (ada.parse text)) [
    | inl failed ↦ inr (λ changed (url, e, f, g). ground arith, ground arith)
    | inr (url, parsed) ↦ read_parsed p text url parsed
  ]

  -- After any reading the text of the url and its parts can be asked for: neither `href_sv` nor
  -- `print_aggregates` reads through an error or a null pointer.
  pub read-IsReady :
      (p : Parser ada) (text : String)
      → IsReady (read ada p text).0 × ((s : String) × (href_text ada (read ada p text).0 ≡ some s))
  unfolding href_text
  read-IsReady p text = elim (read-Accepts p text) [
    | inl (changed, (url, e, f, valid), r) ↦
        rw r (inr (changed, refl, valid), (ada.get_href changed, refl))
    | inr (refused, r) ↦ rw r (inl refl, ("", refl))
  ]
