-- ===== src/Spike/Flags.antt =====
-- Experiment 3: the run flags, and how many tasks are counted as running.
use approximation_computing.Common.{
  ℕ, zero, suc, ◌+◌, ◌-◌, ◌≤◌, ◌≡◌, inl, inr, refl, sym, ap, ◌∙◌, arith, false, if◌then◌else◌,
  ◌==ℤ◌, Option, none, some, List, [], ◌∷◌, map, ℤ, pos, length, length-map, modify, take_all,
  le_refl,
}
use approximation_computing.Task.{
  CfsTask, CfsRq, count_running, has_no_tasks, visited, rq_tick, rq_count_running,
}
use approximation_computing.Logic.{run_task, age_task}
use approximation_computing.Exact.{exact_pick_next_task, exact_tick}
use approximation_computing.Apaf.{apaf_tick}
use approximation_computing.Ticks.{IsSized, IsServed, run_choice}
use approximation_computing.Ticks.Rounds.{exact_tick-IsServed, apaf_tick-ServesOrIdles}
use approximation_computing.Spike.{max_tasks, set_runnable_from, reflag}
use approximation_computing.Spike.Counts.{map-modify, All-always}

-- The run flags, in order.
abbrev pub flags : List CfsTask → List ℤ
flags = map (λ t. t.runnable)

count_flags : List ℤ → ℕ
count_flags [] = 0
count_flags (f ∷ fs) = if f ==ℤ pos 1 then suc (count_flags fs) else count_flags fs

-- The first `k` of `n` flags are set.
abbrev pub first_on : ℕ → ℕ → List ℤ
first_on k zero = []
first_on zero (suc n) = pos 0 ∷ first_on zero n
first_on (suc k) (suc n) = pos 1 ∷ first_on k n

pub set_flags : ℤ → ℕ → ℕ → List ℤ → List ℤ
set_flags r zero t fs = fs
set_flags r (suc n) t fs = set_flags r n (t + 1) (modify fs t (λ _. r))

flags-set_runnable_from :
    (r : ℤ) (n t : ℕ) (tasks : List CfsTask)
    → flags (set_runnable_from r n t tasks) ≡ set_flags r n t (flags tasks)
unfolding set_runnable_from set_flags
flags-set_runnable_from r zero t tasks = refl
flags-set_runnable_from r (suc n) t tasks =
    flags-set_runnable_from r n (t + 1) (modify tasks t (λ u. record u { runnable = r }))
    ∙ ap (set_flags r n (t + 1)) (
        map-modify (λ u. u.runnable) (λ u. record u { runnable = r }) (λ _. r) (λ _. Unit {0})
          (λ u _. refl) tasks t (All-always tasks))

count_running-flags : (ts : List CfsTask) → count_running ts ≡ count_flags (flags ts)
unfolding count_running count_flags
count_running-flags [] = refl
count_running-flags (t ∷ ts) = let rest = count_running-flags ts in ground arith

flags-modify :
    (f : CfsTask → CfsTask) (ts : List CfsTask) (k : ℕ)
    → ((t : CfsTask) → (f t).runnable ≡ t.runnable)
    → flags (modify ts k f) ≡ flags ts
flags-modify f [] k same = refl
flags-modify f (t ∷ ts) zero same = ap (λ r. r ∷ flags ts) (same t)
flags-modify f (t ∷ ts) (suc k) same = ap (λ l. t.runnable ∷ l) (flags-modify f ts k same)

run_task-flag : (delta : ℕ → ℕ → ℕ) (t : CfsTask) → (run_task delta t).runnable ≡ t.runnable
unfolding run_task
run_task-flag delta t = ground arith

flags-run_choice :
    (delta : ℕ → ℕ → ℕ) (r : Option ℕ) (ts : List CfsTask)
    → flags (run_choice delta r ts) ≡ flags ts
flags-run_choice delta none ts = refl
flags-run_choice delta (some k) ts = flags-modify (run_task delta) ts k (run_task-flag delta)

flags-age_task :
    (decay : ℕ → ℕ → ℕ) (ts : List CfsTask) → flags (map (age_task decay) ts) ≡ flags ts
unfolding age_task
flags-age_task decay [] = refl
flags-age_task decay (t ∷ ts) = ap (λ l. t.runnable ∷ l) (flags-age_task decay ts)

-- A runqueue of 55 tasks of which the first `k` run, and are counted.
pub record HasRunning (k : ℕ) (rq : CfsRq) : Type 0 where
  pub sized : IsSized rq
  pub first : flags rq.tasks ≡ first_on k max_tasks
  pub counted : rq.nr_running ≡ k

length-first_on : (k n : ℕ) → length (first_on k n) ≡ n
length-first_on k zero = refl
length-first_on zero (suc n) = ap suc (length-first_on zero n)
length-first_on (suc k) (suc n) = ap suc (length-first_on k n)

count_flags-first_on : (k n : ℕ) → k ≤ n → count_flags (first_on k n) ≡ k
unfolding count_flags
count_flags-first_on k zero h = omega arith
count_flags-first_on zero (suc n) h = count_flags-first_on zero n (omega arith)
count_flags-first_on (suc k) (suc n) h = ap suc (count_flags-first_on k n (omega arith))

module _ (k : ℕ) (some_room : k ≤ max_tasks) (ts : List CfsTask)
    (first : flags ts ≡ first_on k max_tasks) where
  length_of_flags : length ts ≡ max_tasks
  length_of_flags =
      sym (length-map (λ (t : CfsTask). t.runnable) ts)
      ∙ ap length first
      ∙ length-first_on k max_tasks

  count_running_of_flags : count_running ts ≡ k
  count_running_of_flags =
      count_running-flags ts ∙ ap count_flags first ∙ count_flags-first_on k max_tasks some_room

has_tasks : (rq : CfsRq) → IsSized rq → length rq.tasks ≡ max_tasks → has_no_tasks rq ≡ false
has_tasks rq sized many = rw sized (ground arith)

served-HasRunning :
    {delta decay : ℕ → ℕ → ℕ} (k : ℕ) (rq rq' : CfsRq)
    → k ≤ max_tasks
    → HasRunning k rq
    → IsServed delta decay rq rq'
    → HasRunning k rq'
served-HasRunning {delta = delta} {decay = decay} k rq rq' room h s =
    let same : flags rq'.tasks ≡ first_on k max_tasks =
      ap flags s.tasks
      ∙ flags-age_task decay (run_choice delta (exact_pick_next_task rq) rq.tasks)
      ∙ flags-run_choice delta (exact_pick_next_task rq) rq.tasks
      ∙ h.first in
    record {
      sized = s.sized;
      first = same;
      counted =
          s.counted (has_tasks rq h.sized (length_of_flags k room rq.tasks h.first))
          ∙ count_running_of_flags k room rq'.tasks same;
    }

pub exact_tick-HasRunning :
    (k : ℕ) (rq : CfsRq) → k ≤ max_tasks → HasRunning k rq → HasRunning k (exact_tick rq)
exact_tick-HasRunning k rq room h =
    served-HasRunning k rq (exact_tick rq) room h (exact_tick-IsServed rq h.sized)

pub apaf_tick-HasRunning :
    (k : ℕ) (rq : CfsRq) → k ≤ max_tasks → HasRunning k rq → HasRunning k (apaf_tick rq)
unfolding rq_tick
apaf_tick-HasRunning k rq room h = elim (apaf_tick-ServesOrIdles rq h.sized) [
  | inl (nobody, e) ↦ rw e (record { sized = h.sized; first = h.first; counted = h.counted })
  | inr (j, picked, s) ↦ served-HasRunning k rq (apaf_tick rq) room h s
]

-- New flags, and a new count.
pub reflag-HasRunning :
    (r : ℤ) (first last k k' : ℕ) (rq : CfsRq)
    → k ≤ max_tasks
    → k' ≤ max_tasks
    → set_flags r (last - first) first (first_on k max_tasks) ≡ first_on k' max_tasks
    → HasRunning k rq
    → HasRunning k' (reflag r first last rq)
unfolding reflag rq_count_running
reflag-HasRunning r first last k k' rq room room' moves h =
    let ts = set_runnable_from r (last - first) first rq.tasks in
    let there : flags ts ≡ first_on k' max_tasks =
      flags-set_runnable_from r (last - first) first rq.tasks
      ∙ ap (set_flags r (last - first) first) h.first
      ∙ moves in
    let before = length_of_flags k room rq.tasks h.first in
    let now = length_of_flags k' room' ts there in
    let sized : rq.nr_tasks ≡ pos (length ts) = h.sized ∙ ap pos (before ∙ sym now) in
    let busy = has_tasks (record rq { tasks = ts }) sized now in
    let all : visited (record rq { tasks = ts }) ≡ ts =
      rw sized (take_all (length ts) ts (le_refl (length ts))) in
    rw (reflag, rq_count_running, busy)
      (record {
        sized = sized;
        first = there;
        counted = ap count_running all ∙ count_running_of_flags k' room' ts there;
      })

-- The two changes of the experiment.
pub spike_on : set_flags (pos 1) 50 5 (first_on 5 max_tasks) ≡ first_on 55 max_tasks
unfolding set_flags
spike_on = refl

pub spike_off : set_flags (pos 0) 40 15 (first_on 55 max_tasks) ≡ first_on 15 max_tasks
unfolding set_flags
spike_off = refl
