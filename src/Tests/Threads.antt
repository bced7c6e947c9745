-- ===== src/Tests/Threads.antt =====
-- The event loop's threads (loop.hpp, loop.cpp) and the ids of the endpoints (endpoint.hpp).
use wshttp.Prelude.{
  some, ◌+◌, ◌%◌, ◌-◌, suc, if◌then◌else◌, ℕ, ◌^◌, ◌≡◌, ◌≢◌, ◌⊎◌, refl, true, false, nat_eq, [],
  ◌∷◌, none, arith,
}
use mathlib.Core.WellFounded.{Acc}
use wshttp.Prelude.Outcome.{ok}
use wshttp.Loop.Waker.{
  waiting, stopped, System, started, Reach, here, later, own, post, activate, Own, push_job,
  activate_waker,
}
use wshttp.Loop.Waker.Wakeups.{Inv, Reach-Inv}
use wshttp.Loop.Waker.Refinement.{quiet, view, history, Reach-refines}
use wshttp.Loop.Waker.Draining.{Owns, CanMove, drained}
use wshttp.Loop.Jobs.Order.{act_all}
use wshttp.Context.{
  Answers, AppContext, init, init_inbound, init_outbound, new_ctx, common_flags, tls_server_method,
  tls_client_method,
}
use wshttp.Endpoint.{Endpoint, make, handle_ep_opt, caller_id_modulus}
use wshttp.Utils.{increment_will_overflow}
use wshttp.Maps.{nat_key}
use wshttp.Endpoint.Lifetime.{ids, loop_id, caller_id_max, ids_distinct}

-- A job has been queued, and its thread has activated the waker.
abbrev queued : System ℕ
queued = record {
  job_queue = 5 ∷ [];
  waker = true;
  between = 0;
  phase = waiting;
  swapped_queue = [];
  ran = [];
  posted = 5 ∷ [];
}

queued_reached : Reach started queued
unfolding started push_job activate_waker
queued_reached = later (later here (post 5 refl)) (own (activate (omega arith) refl))

Reach-Inv_example : Inv queued
Reach-Inv_example = Reach-Inv queued_reached

Reach-refines_example : view queued ≡ act_all quiet (view started) (history queued_reached)
Reach-refines_example = Reach-refines queued_reached

still_runs : queued.phase ≢ stopped
still_runs e = ground (arith, e)

drained_example :
    ((t : System ℕ) × Owns queued t × (t.ran ≡ queued.posted))
    × Acc (λ t u. Own u t) queued
    × (CanMove queued ⊎ (queued.ran ≡ queued.posted))
drained_example = drained queued_reached still_runs

abbrev openssl : Answers
openssl = record {
  ctx_made = true;
  paths_set = true;
  key_read = true;
  certificate_read = true;
  key_checked = true;
}

abbrev contexts : AppContext
contexts = record {
  inbound = record (new_ctx tls_server_method) { system_paths = true; verify_peer = true };
  outbound = record (new_ctx tls_client_method) {
    options = common_flags [];
    system_paths = true;
    verify_peer = true;
  };
}

-- The endpoint that is made when the counter is at `k`.
abbrev made_at : ℕ → Endpoint
made_at k = record {
  client_id = (k + 1) % caller_id_modulus;
  ctx = some contexts;
  listeners = [];
  nodes = [];
  close_immediately = false;
}

made_at_lem : (k : ℕ) → (make openssl openssl none k).0 ≡ ok (made_at k)
unfolding make handle_ep_opt init init_inbound init_outbound
made_at_lem k = refl

-- The counter after so many endpoints.
abbrev counter : ℕ → ℕ
counter = ids openssl openssl none

ids_distinct_example :
    ((made_at (counter 2)).client_id ≢ (made_at (counter 8)).client_id)
    × ((made_at (counter 2)).client_id ≢ loop_id)
    × ((made_at (counter 8)).client_id ≢ loop_id)
    × ((made_at (counter (2 ^ 16 - 1))).client_id ≡ loop_id)
    × ((made_at 8).client_id ≡ (if increment_will_overflow caller_id_max 8 then loop_id else suc 8))
ids_distinct_example =
    ids_distinct openssl openssl none 2 8 8 (made_at (counter 2)) (made_at (counter 8))
      (made_at (counter (2 ^ 16 - 1))) (made_at 8) (omega arith) (omega arith) (omega arith)
      (made_at_lem (counter 2)) (made_at_lem (counter 8)) (made_at_lem (counter (2 ^ 16 - 1)))
      (made_at_lem 8)
