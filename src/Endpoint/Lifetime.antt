-- ===== src/Endpoint/Lifetime.antt =====
-- endpoint.hpp and endpoint.cpp: the ids of the endpoints.
use wshttp.Prelude.{
  ℕ, zero, suc, ◌+◌, ◌∙◌, ◌%◌, ◌^◌, ◌<◌, ◌≡◌, ◌≢◌, inl, inr, Option, arith, if◌then◌else◌,
  Bool-cases, nat_eqb, nat_eqb_iff, ◌-◌,
}
use wshttp.Prelude.Outcome.{ok}
use wshttp.Maps.{nat_key}
use wshttp.Utils.{increment_will_overflow}
use wshttp.Context.{Answers, Creds}
use wshttp.Endpoint.{Endpoint, caller_id_modulus, make, handle_ep_opt}

-- `event_loop::loop_id`, under which the loop keeps its own handlers.
abbrev pub loop_id : ℕ
loop_id = 0

-- The static counter after so many endpoints, which is the id of the last of them.
pub ids : (i o : Answers) → Option Creds → ℕ → ℕ
ids i o c zero = 0
ids i o c (suc n) = (make i o c (ids i o c n)).1

ids_lem : (i o : Answers) (c : Option Creds) (n : ℕ) → ids i o c n ≡ n % caller_id_modulus
unfolding ids make
ids_lem i o c zero = omega arith
ids_lem i o c (suc n) = omega (arith, ids_lem i o c n)

-- The greatest value of the type of the ids.
abbrev pub caller_id_max : ℕ
caller_id_max = 2 ^ 16 - 1

-- The id that an endpoint gets, where its constructor returns.
client_id_lem :
    (i o : Answers) (c : Option Creds) (k : ℕ) (e : Endpoint)
    → (make i o c k).0 ≡ ok e
    → e.client_id ≡ (k + 1) % caller_id_modulus
unfolding make handle_ep_opt
client_id_lem i o c k e made = ground (arith, made)

next_id :
    (k : ℕ)
    → k < 2 ^ 16
    → (k + 1) % caller_id_modulus
      ≡ (if increment_will_overflow caller_id_max k then loop_id else suc k)
unfolding increment_will_overflow
next_id k few = elim (Bool-cases (nat_eqb caller_id_max k)) [
  | inl last ↦ rw last (omega (arith, few, (nat_eqb_iff caller_id_max k).0 last))
  | inr other ↦
      let differs : caller_id_max ≢ k =
        λ e. absurd (ground (arith, other, (nat_eqb_iff caller_id_max k).1 e)) in
      rw other (omega (arith, few, differs))
]

-- Of the endpoints that a process makes, any two among the first 65535 whose constructors return have
-- different `client_id`s, neither of them the loop's own; but the 65536th has the loop's. An endpoint's
-- id is one more than the counter before it, and it is the loop's exactly where
-- `increment_will_overflow` says of that counter that it overflows.
pub ids_distinct :
    (i o : Answers) (c : Option Creds) (m n k : ℕ) (e later last any : Endpoint)
    → m < n
    → n + 1 < 2 ^ 16
    → k < 2 ^ 16
    → (make i o c (ids i o c m)).0 ≡ ok e
    → (make i o c (ids i o c n)).0 ≡ ok later
    → (make i o c (ids i o c (2 ^ 16 - 1))).0 ≡ ok last
    → (make i o c k).0 ≡ ok any
    → (e.client_id ≢ later.client_id)
      × (e.client_id ≢ loop_id)
      × (later.client_id ≢ loop_id)
      × (last.client_id ≡ loop_id)
      × (any.client_id ≡ (if increment_will_overflow caller_id_max k then loop_id else suc k))
ids_distinct i o c m n k e later last any lt few small first second third fourth =
    let one = client_id_lem i o c (ids i o c m) e first in
    let two = client_id_lem i o c (ids i o c n) later second in
    let at_m = ids_lem i o c m in
    let at_n = ids_lem i o c n in
    (
      λ same. absurd (omega (arith, lt, few, one, two, at_m, at_n, same)),
      λ zeroed. absurd (omega (arith, lt, few, one, at_m, zeroed)),
      λ zeroed. absurd (omega (arith, few, two, at_n, zeroed)),
      client_id_lem i o c (ids i o c (2 ^ 16 - 1)) last third
          ∙ omega (arith, ids_lem i o c (2 ^ 16 - 1)),
      client_id_lem i o c k any fourth ∙ next_id k small,
    )
