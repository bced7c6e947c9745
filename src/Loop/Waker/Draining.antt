-- ===== src/Loop/Waker/Draining.antt =====
-- loop.hpp and loop.cpp: that the queue is drained, and that this ends.
use mathlib.Core.WellFounded.{Acc}
use mathlib.Core.List.{append-nil}
use wshttp.Prelude.{
  ℕ, zero, suc, ◌+◌, ◌*◌, ◌<◌, ◌≡◌, ◌≢◌, ◌⊎◌, inl, inr, refl, sym, ap, ◌∙◌, Bool, true, false, List,
  [], ◌∷◌, ◌++◌, arith, length, Bool-cases,
}
use wshttp.Loop.Waker.{
  Phase, waiting, swapping, draining, stopped, System, started, activate_waker, waker_fires,
  swap_queue, run_front, return_from_callback, Own, activate, fire, swap, run, finish, Reach,
}
use wshttp.Loop.Waker.Wakeups.{Inv, Own-Inv, Reach-Inv}

abbrev phase_weight : Phase → ℕ
phase_weight draining = 1
phase_weight swapping = 2
phase_weight _ = 0

abbrev waker_weight : Bool → ℕ
waker_weight true = 3
waker_weight false = 0

module _ {ℓ} {J : Type ℓ} where
  -- A bound on the steps that are left.
  abbrev pub weight : System J → ℕ
  weight s =
      s.between * 4
      + waker_weight s.waker
      + phase_weight s.phase
      + length s.swapped_queue
      + length s.job_queue

  Own-weight : {s t : System J} → Own s t → weight t < weight s
  unfolding activate_waker waker_fires swap_queue run_front return_from_callback
  Own-weight {s} (activate b e) = rw e (ground arith)
  Own-weight {s} (fire p w e) = rw e (ground arith)
  Own-weight {s} (swap p e) = rw e (ground arith)
  Own-weight {s} (run f rest p q e) = rw e (ground arith)
  Own-weight {s} (finish p q e) = rw e (ground arith)

  weight-Acc : (n : ℕ) (s : System J) → weight s < n → Acc (λ t u. Own u t) s
  weight-Acc zero s h = absurd (omega arith)
  weight-Acc (suc n) s h = Acc.intro s (λ t o. weight-Acc n t (omega (arith, Own-weight o)))

  -- Some steps of the threads, one after another.
  pub data Owns : System J → System J → Type ℓ where
    none_left : {s : System J} → Owns s s
    first : {s t u : System J} → Own s t → Owns t u → Owns s u

  -- No further call of `call_soon` is needed for another step.
  abbrev pub CanMove : System J → Type ℓ
  CanMove s = (t : System J) × Own s t

  move_waiting :
      (s : System J) → s.phase ≡ waiting → CanMove s ⊎ ((s.between ≡ 0) × (s.waker ≡ false))
  move_waiting s p = elim (Bool-cases s.waker) [
    | inl w ↦ inl (waker_fires s, fire p w refl)
    | inr w ↦ elim (zero_or_more s.between) [
      | inl none ↦ inr (none, w)
      | inr some ↦ inl (activate_waker s, activate some refl)
    ]
  ]
    where
      zero_or_more : (n : ℕ) → (n ≡ 0) ⊎ (0 < n)
      zero_or_more zero = inl refl
      zero_or_more (suc n) = inr (omega arith)

  move_draining : (s : System J) → s.phase ≡ draining → CanMove s
  move_draining s p = go s.swapped_queue refl
    where
      go : (q : List J) → s.swapped_queue ≡ q → CanMove s
      go [] e = (return_from_callback s, finish p e refl)
      go (f ∷ rest) e = (run_front f rest s, run f rest p e refl)

  -- Nothing is left to do: by the invariant the queue is empty.
  all_ran :
      (s : System J)
      → s.phase ≡ waiting
      → s.between ≡ 0
      → s.waker ≡ false
      → Inv s
      → s.ran ≡ s.posted
  all_ran s p none asleep inv =
      sym (append-nil s.ran)
      ∙ sym (append-nil _)
      ∙ ap (λ xs. (s.ran ++ xs) ++ []) (sym swapped)
      ∙ ap (λ xs. (s.ran ++ s.swapped_queue) ++ xs) (sym queued)
      ∙ inv.in_order
    where
      swapped : s.swapped_queue ≡ []
      swapped = ground (arith, inv.idle, p)

      queued : s.job_queue ≡ []
      queued = ground (arith, inv.awaited, p, none, asleep)

  -- Unless the loop has ended, there is a step, or every job has run.
  next_move : (s : System J) → s.phase ≢ stopped → Inv s → CanMove s ⊎ (s.ran ≡ s.posted)
  next_move s live inv = go s.phase refl
    where
      go : (p : Phase) → s.phase ≡ p → CanMove s ⊎ (s.ran ≡ s.posted)
      go waiting e = elim (move_waiting s e) [
        | inl m ↦ inl m
        | inr (none, asleep) ↦ inr (all_ran s e none asleep inv)
      ]
      go swapping e = inl (swap_queue s, swap e refl)
      go draining e = inl (move_draining s e)
      go stopped e = absurd (live e)

  Own-phase : {s t : System J} → Own s t → s.phase ≢ stopped → t.phase ≢ stopped
  unfolding activate_waker waker_fires swap_queue run_front return_from_callback
  Own-phase (activate b e) live = rw e live
  Own-phase (fire p w e) live = rw e (ground arith)
  Own-phase (swap p e) live = rw e (ground arith)
  Own-phase (run f rest p q e) live = rw e live
  Own-phase (finish p q e) live = rw e (ground arith)

  Own-posted : {s t : System J} → Own s t → t.posted ≡ s.posted
  unfolding activate_waker waker_fires swap_queue run_front return_from_callback
  Own-posted (activate b e) = rw e refl
  Own-posted (fire p w e) = rw e refl
  Own-posted (swap p e) = rw e refl
  Own-posted (run f rest p q e) = rw e refl
  Own-posted (finish p q e) = rw e refl

  drain_within :
      (n : ℕ) (s : System J)
      → weight s < n
      → s.phase ≢ stopped
      → Inv s
      → (t : System J) × Owns s t × (t.ran ≡ s.posted)
  drain_within zero s h live inv = absurd (omega arith)
  drain_within (suc n) s h live inv = elim (next_move s live inv) [
    | inr done ↦ (s, none_left, done)
    | inl (t, o) ↦
        let (u, os, done) =
          drain_within n t (omega (arith, Own-weight o)) (Own-phase o live) (Own-Inv o inv) in
        (u, first o os, done ∙ Own-posted o)
  ]

  -- The loop makes progress and comes to rest. From any state that it can reach, with its thread
  -- still running, the steps of its own and the calls of `call_soon` that have begun lead to a
  -- state in which every job queued so far has run; without new calls there is no endless run of
  -- such steps, and it ends only when all of them have run.
  pub drained :
      {s : System J}
      → Reach started s
      → s.phase ≢ stopped
      → ((t : System J) × Owns s t × (t.ran ≡ s.posted))
        × Acc (λ t u. Own u t) s
        × (CanMove s ⊎ (s.ran ≡ s.posted))
  drained {s} r live = (
    drain_within (suc (weight s)) s (omega arith) live (Reach-Inv r),
    weight-Acc (suc (weight s)) s (omega arith),
    next_move s live (Reach-Inv r),
  )
