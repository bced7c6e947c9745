-- ===== src/Loop/Timers/Handlers.antt =====
-- loop.cpp: the table of handlers.
use wshttp.Prelude.{
  ℕ, ◌≡◌, refl, Bool, false, not, ◌&&◌, ◌||◌, none, some, List, [], ◌∷◌, ◌++◌, arith, if◌then◌else◌,
  ◌==◌, nat_eq, nat_eqb_iff, Option-cases, Bool-cases, inl, inr, ◌∙◌,
}
use wshttp.Maps.{find, nat_key}
use wshttp.Maps.Laws.{find-assign, find-cons}
use wshttp.Loop.Timers.{
  Watcher, stop, Tickers, Watchers, erase_expired, clear_old_tickers, push_ticker, make_handler,
  stop_all,
}

abbrev pub listed : Tickers → ℕ → List ℕ
listed tickers id = elim (find id tickers) [ none ↦ [] | some ts ↦ ts ]

listed-clear :
    (expired : ℕ → Bool) (tickers : Tickers) (id : ℕ)
    → listed (clear_old_tickers expired tickers) id ≡ erase_expired expired (listed tickers id)
unfolding clear_old_tickers erase_expired find
listed-clear expired [] id = refl
listed-clear expired ((j, ts) ∷ rest) id = ground (arith, listed-clear expired rest id)

push_ticker_lem :
    (id t j : ℕ) (m : Tickers)
    → listed (push_ticker id t m) j ≡ (if id == j then listed m j ++ t ∷ [] else listed m j)
unfolding push_ticker
push_ticker_lem id t j m = elim (Option-cases (find id m)) [
  | inl e ↦ rw (e, push_ticker) (ground (arith, find-cons id j (t ∷ []) m, nat_eqb_iff id j, e))
  | inr (ts, e) ↦
      rw (e, push_ticker) (ground (arith, find-assign id j (ts ++ t ∷ []) m, nat_eqb_iff id j, e))
]

-- A new handler goes to the end of its caller's list, and every list, the others' too, keeps just
-- the handlers that have not expired, in their order.
pub make_handler_lem :
    (expired : ℕ → Bool) (id t j : ℕ) (tickers : Tickers)
    → listed (make_handler expired id t tickers) j ≡ (
        if id == j
        then erase_expired expired (listed tickers j) ++ t ∷ []
        else erase_expired expired (listed tickers j))
unfolding make_handler
make_handler_lem expired id t j tickers =
    push_ticker_lem id t j (clear_old_tickers expired tickers) ∙ rw (listed-clear expired tickers j)

abbrev pub contains : List ℕ → ℕ → Bool
contains [] n = false
contains (t ∷ ts) n = t == n || contains ts n

-- A watcher without a function that has been stopped.
abbrev pub halted : Bool → Watcher → Watcher
halted deleted w = (stop deleted (record w { f = none })).0

pub halted_twice :
    (deleted : Bool) (w : Watcher) → halted deleted (halted deleted w) ≡ halted deleted w
unfolding stop
halted_twice deleted w = ground arith

-- The watchers after one is stopped.
abbrev after_one : (ℕ → Bool) → Bool → ℕ → Watchers → Watchers
after_one expired deleted t ws =
    if expired t then ws else λ n. if n == t then halted deleted (ws t) else ws n

after_one_lem :
    (expired : ℕ → Bool) (deleted : Bool) (t : ℕ) (ws : Watchers) (n : ℕ)
    → after_one expired deleted t ws n
      ≡ (if t == n && not (expired n) then halted deleted (ws n) else ws n)
after_one_lem expired deleted t ws n = elim (Bool-cases (t == n)) [
  | inl e ↦ rw ((nat_eqb_iff t n).0 e) (elim (Bool-cases (expired n)) [
    | inl gone ↦ rw gone (ground arith)
    | inr live ↦ rw live (ground arith)
  ])
  | inr e ↦ elim (Bool-cases (expired t)) [
    | inl gone ↦ rw gone (ground arith)
    | inr live ↦ rw live (ground arith)
  ]
]

pub stop_all_lem :
    (expired : ℕ → Bool) (deleted : Bool) (ts : List ℕ) (ws : Watchers) (n : ℕ)
    → stop_all expired deleted ts ws n
      ≡ (if contains ts n && not (expired n) then halted deleted (ws n) else ws n)
unfolding stop_all
stop_all_lem expired deleted [] ws n = refl
stop_all_lem expired deleted (t ∷ ts) ws n =
    stop_all_lem expired deleted ts (after_one expired deleted t ws) n
    ∙ rw (after_one_lem expired deleted t ws n) (ground (arith, halted_twice deleted (ws n)))
