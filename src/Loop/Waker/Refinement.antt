-- ===== src/Loop/Waker/Refinement.antt =====
-- loop.hpp and loop.cpp: the threads' view of the queue implements that of Jobs.
use wshttp.Prelude.{◌≡◌, refl, sym, ap, ◌∙◌, List, [], ◌∷◌, ◌++◌, arith}
use mathlib.Core.List.{append_assoc, append-nil}
use wshttp.Loop.Jobs.{Loop, call, call_soon}
use wshttp.Loop.Jobs.Order
use wshttp.Loop.Jobs.Order.{Action, pass, all_posts_quiet, act, act_all, process_job_queue_order}
use wshttp.Loop.Waker.{
  swapping, System, started, push_job, activate_waker, waker_fires, swap_queue, run_front,
  return_from_callback, leave_loop, activate, fire, swap, run, finish, Step, own, post, exit, Reach,
  here, later,
}
use wshttp.Loop.Waker.Wakeups.{Inv, none_swapped, Reach-Inv}

module _ {ℓ} {J : Type ℓ} where
  -- In the abstract view a pass runs all the jobs of the queue at once; so the jobs that are
  -- swapped out count as run. The jobs that a job posts are posted in steps of their own.
  abbrev pub quiet : J → List J
  quiet job = []

  abbrev pub view : System J → Loop (List J) J
  view s = record { world = s.ran ++ s.swapped_queue; job_queue = s.job_queue }

  act_all-append :
      (l : Loop (List J) J) (as' bs : List (Action quiet))
      → act_all quiet l (as' ++ bs) ≡ act_all quiet (act_all quiet l as') bs
  unfolding act_all
  act_all-append l [] bs = refl
  act_all-append l (a ∷ as') bs = act_all-append (act quiet l a) as' bs

  -- What a step is in the abstract view: a call of `call_soon` where a job is queued, a pass where the
  -- queue is swapped, and else nothing.
  pub seen : {s t : System J} → Step s t → List (Action quiet)
  seen (own (activate b e)) = []
  seen (own (fire p w e)) = []
  seen (own (swap p e)) = pass ∷ []
  seen (own (run f rest p q e)) = []
  seen (own (finish p q e)) = []
  seen (post f e) = Order.post f ∷ []
  seen (exit p e) = []

  pub history : {s t : System J} → Reach s t → List (Action quiet)
  history here = []
  history (later r st) = history r ++ seen st

  abbrev Mirrored : System J → List (Action quiet) → System J → Type ℓ
  Mirrored s actions t = view t ≡ act_all quiet (view s) actions

  swap-Mirrored :
      (s : System J) → s.phase ≡ swapping → Inv s → Mirrored s (pass ∷ []) (swap_queue s)
  unfolding swap_queue act act_all
  swap-Mirrored s p inv =
      ap {B = Loop (List J) J} (λ xs. record { world = xs ++ s.job_queue; job_queue = [] })
        (sym (append-nil s.ran)
          ∙ ap (λ xs. s.ran ++ xs) (sym (none_swapped s (ground (arith, p)) inv)))
      ∙ ap {B = Loop (List J) J}
          (λ xs. record { world = (s.ran ++ s.swapped_queue) ++ s.job_queue; job_queue = xs })
          (sym (all_posts_quiet quiet (λ job. refl) s.job_queue))
      ∙ sym (process_job_queue_order quiet (view s))

  run-view :
      (s : System J) (f : J) (rest : List J)
      → s.swapped_queue ≡ f ∷ rest
      → view (run_front f rest s) ≡ view s
  unfolding run_front
  run-view s f rest q =
      ap {B = Loop (List J) J} (λ xs. record { world = xs; job_queue = s.job_queue })
        (append_assoc s.ran (f ∷ []) rest ∙ ap (λ xs. s.ran ++ xs) (sym q))

  Step-Mirrored : {s t : System J} (st : Step s t) → Inv s → Mirrored s (seen st) t
  unfolding seen activate_waker waker_fires return_from_callback push_job leave_loop act act_all
      call_soon call
  Step-Mirrored (own (activate b e)) inv = rw e refl
  Step-Mirrored (own (fire p w e)) inv = rw e refl
  Step-Mirrored {s} (own (swap p e)) inv = rw e (swap-Mirrored s p inv)
  Step-Mirrored {s} (own (run f rest p q e)) inv = rw e (run-view s f rest q)
  Step-Mirrored (own (finish p q e)) inv = rw e refl
  Step-Mirrored (post f e) inv = rw e refl
  Step-Mirrored (exit p e) inv = rw e refl

  -- Every interleaving of the threads' steps does to the queue what whole calls of `call_soon` and
  -- whole passes of the loop do to it: a call for each time that a job was queued, and a pass for each
  -- time that the queue was swapped, in their order.
  pub Reach-refines :
      {s : System J} (r : Reach started s) → view s ≡ act_all quiet (view started) (history r)
  unfolding act_all history
  Reach-refines here = refl
  Reach-refines (later {t} r st) =
      Step-Mirrored st (Reach-Inv r)
      ∙ ap (λ l. act_all quiet l (seen st)) (Reach-refines r)
      ∙ sym (act_all-append (view started) (history r) (seen st))
