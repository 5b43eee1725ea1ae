-- ===== src/MixedLoad/Turns.antt =====
-- Experiment 2: one tick of the interactive task beside the batch tasks, on the lists of tasks.
use mathlib.Core.Path.{subst}
use approximation_computing.Common.{
  ℕ, zero, suc, ◌+◌, ◌*◌, ◌^◌, ◌≤◌, ◌<◌, ◌≡◌, ◌⊎◌, inl, inr, refl, ◌∙◌, arith, true, false, Option,
  some, List, [], ◌∷◌, map, modify, get_elem?, length, length-map, length-modify, All, All-map,
  All-get_elem?, All-modify_at, Bool-cases,
}
use approximation_computing.Words.{u32}
use approximation_computing.Task.{CfsTask, is_running, tick_ns}
use approximation_computing.Logic.{run_task, age_task}
use approximation_computing.Exact.Pick.{IsChoice, IsLeast, idle, chosen}
use approximation_computing.Ticks.{run_choice, total_runtime}
use approximation_computing.Ticks.Even.{
  IsEven, IsUnscaled, age_task-IsEven, above_least, run_task-IsEven,
}
use approximation_computing.Ticks.Served.{
  HasRoom, run_task-exec_runtime, total-map-age_task, total-modify-run_task,
}
use approximation_computing.Ticks.OnTime.{has_room}
use approximation_computing.Experiment.Fair.{total_of_even}
use approximation_computing.Experiment.Serves.{IsSlow}

-- The interactive task and the batch tasks after `k` ticks, in `woken` of which the first could run: the
-- batch tasks together are ahead of 5/2 of its CPU time by at most `slack` ticks.
pub record IsShared (k slack woken : ℕ) (t : CfsTask) (ts : List CfsTask) : Type 0 where
  pub base : ℕ
  pub even : All (IsEven base) ts
  pub many : length ts ≡ 10
  pub heavy : t.weight ≡ 9548
  pub slow : 4 * t.vruntime ≤ t.exec_runtime
  pub spent : t.exec_runtime + total_runtime ts ≡ k * tick_ns
  pub behind : 4 * total_runtime ts ≤ 10 * t.exec_runtime + 4 * (slack * tick_ns)
  pub no_more : t.exec_runtime ≤ woken * tick_ns

-- The same of a list that starts with the interactive task.
abbrev pub AreShared : ℕ → ℕ → ℕ → List CfsTask → Type 0
AreShared k slack woken [] = 1 ≤ 0
AreShared k slack woken (t ∷ ts) = IsShared k slack woken t ts

-- What the slack and the count of woken rounds must allow in a tick.
pub record Allows (t : CfsTask) (slack slack' woken woken' : ℕ) : Type 0 where
  pub awake : is_running t ≡ true → (10 ≤ slack') × (slack ≤ suc slack') × (suc woken ≡ woken')
  pub blocked : is_running t ≡ false → (suc slack ≤ slack') × (woken ≡ woken')

module _ (delta decay : ℕ → ℕ → ℕ) (unscaled : IsUnscaled delta) (slow : IsSlow delta) where
  aged :
      (k slack woken : ℕ) (t : CfsTask) (ts : List CfsTask)
      → IsShared k slack woken t ts
      → IsShared k slack woken (age_task decay t) (map (age_task decay) ts)
  unfolding age_task
  aged k slack woken t ts h =
      let same = total-map-age_task delta decay ts in
      let spent = h.spent in
      let behind = h.behind in
      record {
        base = h.base;
        even = All-map (IsEven h.base) (age_task decay) ts (age_task-IsEven decay h.base) h.even;
        many = length-map (age_task decay) ts ∙ h.many;
        heavy = h.heavy;
        slow = h.slow;
        spent = omega arith;
        behind = omega arith;
        no_more = h.no_more;
      }

  run_weight : (t : CfsTask) → (run_task delta t).weight ≡ t.weight
  unfolding run_task
  run_weight t = ground arith

  run_vruntime :
      (t : CfsTask)
      → is_running t ≡ true
      → t.vruntime + delta tick_ns (u32 t.weight) < 2 ^ 64
      → (run_task delta t).vruntime ≡ t.vruntime + delta tick_ns (u32 t.weight)
  unfolding run_task
  run_vruntime t running room = ground arith

  -- The interactive task runs.
  interactive_turn :
      (k slack slack' woken : ℕ) (t : CfsTask) (ts : List CfsTask)
      → suc k * tick_ns < 2 ^ 64
      → is_running t ≡ true
      → slack ≤ suc slack'
      → IsShared k slack woken t ts
      → IsShared (suc k) slack' (suc woken) (run_task delta t) ts
  interactive_turn k slack slack' woken t ts fits running less h =
      let spent = h.spent in
      let behind = h.behind in
      let before = h.slow in
      let most = h.no_more in
      let scaled : 4 * delta tick_ns (u32 t.weight) ≤ tick_ns = rw h.heavy slow in
      let ran = run_task-exec_runtime delta decay t running (omega arith) in
      let moved = run_vruntime t running (omega arith) in
      record {
        base = h.base;
        even = h.even;
        many = h.many;
        heavy = run_weight t ∙ h.heavy;
        slow = omega arith;
        spent = omega arith;
        behind = omega arith;
        no_more = omega arith;
      }

  -- A batch task runs: one that the interactive task is not behind, or one while it is blocked.
  batch_turn :
      (k slack slack' woken woken' j : ℕ) (t u : CfsTask) (ts : List CfsTask)
      → suc k * tick_ns < 2 ^ 64
      → get_elem? ts j ≡ some u
      → is_running u ≡ true
      → IsLeast ts u.vruntime j
      → ((u.vruntime ≤ t.vruntime) × (10 ≤ slack')) ⊎ (suc slack ≤ slack')
      → woken ≤ woken'
      → IsShared k slack woken t ts
      → IsShared (suc k) slack' woken' t (modify ts j (run_task delta))
  batch_turn k slack slack' woken woken' j t u ts fits there running least turn longer h =
      let spent = h.spent in
      let behind = h.behind in
      let most = h.no_more in
      let many = h.many in
      let room = has_room ts (omega arith) in
      let u_even = All-get_elem? (IsEven h.base) ts j u h.even there in
      let now =
        All-modify_at (IsEven u.exec_runtime) ts j u (run_task delta) there
          (run_task-IsEven delta decay unscaled h.base u u_even
            (All-get_elem? HasRoom ts j u room there))
          (above_least h.base j ts u there least h.even) in
      let many' = length-modify ts j (run_task delta) ∙ h.many in
      let total = total-modify-run_task delta decay ts j u there running room in
      let bounds = (total_of_even u.exec_runtime (modify ts j (run_task delta)) now).1 in
      let bounds' : total_runtime (modify ts j (run_task delta)) ≤ 10 * (u.exec_runtime + tick_ns) =
        subst (λ m. total_runtime (modify ts j (run_task delta)) ≤ m * (u.exec_runtime + tick_ns))
          many' bounds in
      let same = u_even.same in
      let before = h.slow in
      let turned : 4 * total_runtime (modify ts j (run_task delta))
          ≤ 10 * t.exec_runtime + 4 * (slack' * tick_ns) =
        elim turn [ inl (ahead, room_left) ↦ omega arith | inr blocked ↦ omega arith ] in
      record {
        base = u.exec_runtime;
        even = now;
        many = many';
        heavy = h.heavy;
        slow = h.slow;
        spent = omega arith;
        behind = turned;
        no_more = omega arith;
      }

  -- One tick, whoever is chosen.
  pub turn :
      (k slack slack' woken woken' : ℕ) (t : CfsTask) (ts : List CfsTask) (r : Option ℕ)
      → suc k * tick_ns < 2 ^ 64
      → IsChoice (t ∷ ts) r
      → Allows t slack slack' woken woken'
      → IsShared k slack woken t ts
      → AreShared (suc k) slack' woken' (map (age_task decay) (run_choice delta r (t ∷ ts)))
  turn k slack slack' woken woken' t [] r fits choice allows h = absurd (omega (arith, h.many))
  turn k slack slack' woken woken' t (b ∷ ts) r fits (idle e nobody) allows h =
      absurd (nobody 1 b refl h.even.0.runs)
  turn k slack slack' woken woken' t (b ∷ ts) r fits (chosen zero u e there running least) allows
        h =
      let same : t ≡ u = cc in
      let runs : is_running t ≡ true = rw same running in
      let (room, less, more) = allows.awake runs in
      rw (e, ← more)
        (aged (suc k) slack' (suc woken) (run_task delta t) (b ∷ ts)
          (interactive_turn k slack slack' woken t (b ∷ ts) fits runs less h))
  turn k slack slack' woken woken' t (b ∷ ts) r fits (chosen (suc j) u e there running least) allows
        h =
      let first : IsLeast (b ∷ ts) u.vruntime j =
        λ i v at run. let l = least (suc i) v at run in (l.0, λ i_below. l.1 (omega arith)) in
      rw e (
        aged (suc k) slack' woken' t (modify (b ∷ ts) j (run_task delta))
          (elim (Bool-cases (is_running t)) [
            | inl runs ↦
                let (room, less, more) = allows.awake runs in
                batch_turn k slack slack' woken woken' j t u (b ∷ ts) fits there running first
                  (inl ((least 0 t refl runs).0, room)) (omega arith) h
            | inr still ↦
                let (less, more) = allows.blocked still in
                batch_turn k slack slack' woken woken' j t u (b ∷ ts) fits there running first
                  (inr less) (omega arith) h
          ]))
