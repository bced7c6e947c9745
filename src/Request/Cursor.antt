-- ===== src/Request/Cursor.antt =====
-- request.cpp: the cursor of a header list.
use native.Mathlib.Nat.{mod-add-mod}
use wshttp.Prelude.{
  get_elem?_below, get_elem?-append_last, get_elem?-append_left, ℕ, zero, suc, ◌+◌, ◌%◌, ◌^◌, ◌<◌,
  ◌≡◌, ◌∙◌, refl, true, Option, none, some, List, [], ◌∷◌, length, length-append, arith, nat_eq,
  ◌↔◌,
}
use wshttp.Request.{NvFlags, Headers, size, at, current, next, end, add_pair, make_pair}

-- `next()` called `k` times.
unfoldable pub advance : ℕ → Headers → Option Headers
advance zero h = some h
advance (suc k) h = elim (next h) [ none ↦ none | some (h', _) ↦ advance k h' ]

at_in_range : (h : Headers) (i : ℕ) → i < size h → (p : List ℕ × List ℕ) × (at h i ≡ some p)
unfolding at size
at_in_range h i k =
    let (n, e) = get_elem?_below h.hdrs i k in ((n.name, n.value), ground (arith, e))

wrap_zero : (i n : ℕ) → i < n → i ≡ (i + 0) % n
wrap_zero i n h = grind arith

abbrev moved : Headers → Headers
moved h = record h { index = (h.index + 1) % 2 ^ 64 % length h.hdrs }

moved_inside : (h : Headers) → h.index < size h → (moved h).index < length h.hdrs
unfolding size
moved_inside h i = grind arith

wrap_step :
    (h : Headers) (k : ℕ)
    → h.index < size h
    → size h < 2 ^ 64
    → ((moved h).index + k) % length h.hdrs ≡ (h.index + suc k) % length h.hdrs
unfolding size
wrap_step h k i n =
    let small : (h.index + 1) % 2 ^ 64 ≡ h.index + 1 = omega arith in
    let sum : h.index + 1 + k ≡ h.index + suc k = omega arith in rw (small, mod-add-mod, sum)

-- The cursor stays inside the list and goes round it: after `k` calls of `next()` on a list that
-- is not empty it stands `k` places on, modulo the size, and there is a header there.
pub next_wraps :
    (k : ℕ) (h : Headers)
    → h.index < size h
    → size h < 2 ^ 64
    → (h' : Headers) × (advance k h ≡ some h')
      × (h'.index ≡ (h.index + k) % size h)
      × (h'.hdrs ≡ h.hdrs)
      × ((p : List ℕ × List ℕ) × (current h' ≡ some p))
unfolding advance next current size
next_wraps zero h i n =
    (h, refl, wrap_zero h.index (length h.hdrs) i, refl, at_in_range h h.index i)
next_wraps (suc k) h i n =
    let (last, reached, place, same, found) = next_wraps k (moved h) (moved_inside h i) n in
    (last, ground (arith, reached), place ∙ wrap_step h k i n, same, found)

-- `end()` holds exactly at the last header of a list that is not empty.
pub end_iff :
    (h : Headers) → h.index < size h → size h < 2 ^ 64 → (end h ≡ true) ↔ (h.index + 1 ≡ size h)
unfolding end size
end_iff h i n = ground arith

-- A header that is added by its field or by its name goes to the end, and the others stay.
pub at-add :
    (h : Headers) (name val : List ℕ) (flags : NvFlags)
    → (at (add_pair h name val flags) (size h) ≡ some (name, val))
      × (size (add_pair h name val flags) ≡ size h + 1)
      × ((i : ℕ) → i < size h → at (add_pair h name val flags) i ≡ at h i)
unfolding at add_pair size make_pair
at-add h name val flags = (
  ground (arith, get_elem?-append_last h.hdrs (make_pair name val flags)),
  length-append h.hdrs _,
  λ i k. ground (arith, get_elem?-append_left h.hdrs (make_pair name val flags ∷ []) i k),
)
