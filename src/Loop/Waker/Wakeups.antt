-- ===== src/Loop/Waker/Wakeups.antt =====
-- loop.hpp and loop.cpp: that no wake-up is lost, and what the queue holds.
use mathlib.Core.List.{append_assoc, append-nil}
use wshttp.Prelude.{
  ◌<◌, ◌≡◌, ◌≢◌, ◌⊎◌, inl, inr, refl, sym, ap, ◌∙◌, true, List, [], ◌∷◌, ◌++◌, arith,
}
use wshttp.Loop.Waker.{
  waiting, swapping, draining, System, started, push_job, activate_waker, waker_fires, swap_queue,
  run_front, return_from_callback, leave_loop, Own, activate, fire, swap, run, finish, Step, own,
  post, exit, Reach, here, later,
}

module _ {ℓ} {J : Type ℓ} where
  -- A job that waits in the queue is about to be seen: the waker is active, or a thread is just
  -- going to activate it, or the loop's thread is just going to swap the queue.
  abbrev pub IsAwaited : System J → Type ℓ
  IsAwaited s = (s.job_queue ≡ []) ⊎ ((s.waker ≡ true) ⊎ ((0 < s.between) ⊎ (s.phase ≡ swapping)))

  abbrev pub IsIdle : System J → Type ℓ
  IsIdle s = (s.phase ≡ draining) ⊎ (s.swapped_queue ≡ [])

  pub record Inv (s : System J) : Type ℓ where
    pub awaited : IsAwaited s
    pub idle : IsIdle s
    pub in_order : (s.ran ++ s.swapped_queue) ++ s.job_queue ≡ s.posted

  started-Inv : Inv started
  unfolding started
  started-Inv = record { awaited = inl refl; idle = inr refl; in_order = refl }

  activate-Inv : (s : System J) → Inv s → Inv (activate_waker s)
  unfolding activate_waker
  activate-Inv s inv = record { awaited = inr (inl refl); idle = inv.idle; in_order = inv.in_order }

  fire-Inv : (s : System J) → s.phase ≡ waiting → Inv s → Inv (waker_fires s)
  unfolding waker_fires
  fire-Inv s p inv = record {
    awaited = inr (inr (inr refl));
    idle = ground (arith, inv.idle, p);
    in_order = inv.in_order;
  }

  -- Outside the draining no job is swapped out.
  pub none_swapped : (s : System J) → s.phase ≢ draining → Inv s → s.swapped_queue ≡ []
  none_swapped s p inv = elim inv.idle [ inl d ↦ absurd (p d) | inr none ↦ none ]

  swap-Inv : (s : System J) → s.phase ≡ swapping → Inv s → Inv (swap_queue s)
  unfolding swap_queue
  swap-Inv s p inv = record {
    awaited = inl refl;
    idle = inl refl;
    in_order =
        append-nil _
        ∙ ap (λ xs. xs ++ s.job_queue)
            (sym (append-nil s.ran)
              ∙ ap (λ xs. s.ran ++ xs) (sym (none_swapped s (ground (arith, p)) inv)))
        ∙ inv.in_order;
  }

  run-Inv :
      (s : System J) (f : J) (rest : List J)
      → s.phase ≡ draining
      → s.swapped_queue ≡ f ∷ rest
      → Inv s
      → Inv (run_front f rest s)
  unfolding run_front
  run-Inv s f rest p q inv = record {
    awaited = inv.awaited;
    idle = inl p;
    in_order =
        ap (λ xs. xs ++ s.job_queue)
          (append_assoc s.ran (f ∷ []) rest ∙ ap (λ xs. s.ran ++ xs) (sym q))
        ∙ inv.in_order;
  }

  finish-Inv :
      (s : System J)
      → s.phase ≡ draining
      → s.swapped_queue ≡ []
      → Inv s
      → Inv (return_from_callback s)
  unfolding return_from_callback
  finish-Inv s p q inv = record {
    awaited = ground (arith, inv.awaited, p);
    idle = inr q;
    in_order = inv.in_order;
  }

  push-Inv : (s : System J) (f : J) → Inv s → Inv (push_job f s)
  unfolding push_job
  push-Inv s f inv = record {
    awaited = inr (inr (inl (omega arith)));
    idle = inv.idle;
    in_order =
        sym (append_assoc (s.ran ++ s.swapped_queue) s.job_queue (f ∷ []))
        ∙ ap (λ xs. xs ++ f ∷ []) inv.in_order;
  }

  exit-Inv : (s : System J) → s.phase ≡ waiting → Inv s → Inv (leave_loop s)
  unfolding leave_loop
  exit-Inv s p inv = record {
    awaited = ground (arith, inv.awaited, p);
    idle = inr (none_swapped s (ground (arith, p)) inv);
    in_order = inv.in_order;
  }

  pub Own-Inv : {s t : System J} → Own s t → Inv s → Inv t
  Own-Inv {s} (activate b e) inv = rw e (activate-Inv s inv)
  Own-Inv {s} (fire p w e) inv = rw e (fire-Inv s p inv)
  Own-Inv {s} (swap p e) inv = rw e (swap-Inv s p inv)
  Own-Inv {s} (run f rest p q e) inv = rw e (run-Inv s f rest p q inv)
  Own-Inv {s} (finish p q e) inv = rw e (finish-Inv s p q inv)

  Step-Inv : {s t : System J} → Step s t → Inv s → Inv t
  Step-Inv (own o) inv = Own-Inv o inv
  Step-Inv {s} (post f e) inv = rw e (push-Inv s f inv)
  Step-Inv {s} (exit p e) inv = rw e (exit-Inv s p inv)

  -- However the threads interleave, no wake-up is lost: while jobs wait in the queue, the waker's
  -- event is active, or a thread that queued one is about to activate it, or the loop is about to
  -- take the queue. And the jobs that have run, those taken from the queue and those in it are all
  -- that were ever queued, each once and in their order.
  pub Reach-Inv : {s : System J} → Reach started s → Inv s
  Reach-Inv here = started-Inv
  Reach-Inv (later r st) = Step-Inv st (Reach-Inv r)
