-- ===== src/MixedLoad/Waiting.antt =====
-- How long the interactive task waits, by the counters of the experiment.
use native.Mathlib.Decide.{dec_lt}
use approximation_computing.Common.{
  refl, ◌∙◌, ℕ, zero, suc, ◌+◌, ◌%◌, ◌≤◌, ◌<◌, ◌≡◌, arith, List, [], ◌∷◌, ℤ,
}
use approximation_computing.Task.{CfsTask}
use approximation_computing.MixedLoad.{
  Waits, begin_wait, end_wait, Mixed, mixed_step, mixed_loop, start_mixed,
}

-- Before round `i`: a wait goes no further back than the start of the running half of the cycle.
record IsBounded (i : ℕ) (w : Waits) : Type 0 where
  top : w.max_wait ≤ 5
  fresh_start : i % 10 ≡ 0 → w.was_blocked ≡ 1
  blocked : 6 ≤ i % 10 → w.was_blocked ≡ 1
  running : i % 10 ≤ 5 → 1 ≤ i % 10 → w.current_wait ≤ i % 10

end_wait-grows :
    (ts : List CfsTask) (w : Waits)
    → w.current_wait ≤ 4
    → w.max_wait ≤ 5
    → let w' = end_wait ts w in
      (w'.current_wait ≤ w.current_wait + 1) × (w'.max_wait ≤ 5) × (w'.was_blocked ≡ w.was_blocked)
unfolding end_wait
end_wait-grows [] w h k = ground arith
end_wait-grows (t ∷ ts) w h k = ground arith

begin_wait-running :
    (i : ℕ) (w : Waits)
    → i % 10 < 5
    → IsBounded i w
    → let w' = begin_wait (i % 10) w in (w'.current_wait ≤ i % 10) × (w'.max_wait ≤ 5)
unfolding begin_wait
begin_wait-running i w h k =
    let top = k.top in let first = k.fresh_start in let later = k.running in ground arith

begin_wait-blocked :
    (c : ℕ) (w : Waits)
    → 5 ≤ c
    → w.max_wait ≤ 5
    → let w' = begin_wait c w in (w'.current_wait ≡ 0) × (w'.max_wait ≤ 5) × (w'.was_blocked ≡ 1)
unfolding begin_wait
begin_wait-blocked c w h k = ground arith

round-IsBounded :
    (i : ℕ) (w : Waits) (ts : List CfsTask)
    → IsBounded i w
    → IsBounded (i + 1) (end_wait ts (begin_wait (i % 10) w))
round-IsBounded i w ts k = elim (dec_lt (i % 10) 5) [
  | yes on ↦
      let (wait, top) = begin_wait-running i w on k in
      let (grown, top', same) = end_wait-grows ts (begin_wait (i % 10) w) (omega arith) top in
      record {
        top = top';
        fresh_start = λ c. absurd (omega arith);
        blocked = λ c. absurd (omega arith);
        running = λ c d. omega arith;
      }
  | no off ↦
      let (wait, top, set) = begin_wait-blocked (i % 10) w (omega arith) k.top in
      let (grown, top', same) = end_wait-grows ts (begin_wait (i % 10) w) (omega arith) top in
      record {
        top = top';
        fresh_start = λ c. same ∙ set;
        blocked = λ c. same ∙ set;
        running = λ c d. absurd (omega arith);
      }
]

mixed_loop-IsBounded :
    (rounds i : ℕ) (logic : ℤ) (s : Mixed)
    → IsBounded i s.waits
    → (mixed_loop rounds logic i s).waits.max_wait ≤ 5
unfolding mixed_loop mixed_step
mixed_loop-IsBounded zero i logic s h = h.top
mixed_loop-IsBounded (suc rounds) i logic s h =
    mixed_loop-IsBounded rounds (i + 1) logic (mixed_step logic i s) (round-IsBounded i s.waits _ h)

-- From the start of the experiment on.
pub mixed_loop-max_wait :
    (ticks : ℕ) (logic : ℤ) → (mixed_loop ticks logic 0 (start_mixed logic)).waits.max_wait ≤ 5
unfolding start_mixed
mixed_loop-max_wait ticks logic = mixed_loop-IsBounded ticks 0 logic (start_mixed logic) (record {
  top = omega arith;
  fresh_start = λ c. refl;
  blocked = λ c. refl;
  running = λ c d. omega arith;
})
