-- ===== src/Logic/Loads.antt =====
-- The load averages of a scheduler whose decay keeps the laws: no load leaves its bounds, and no
-- product wraps.
use Prim.Native.Nat.{min}
use native.Mathlib.Nat.{mod-eq_of_lt}
use approximation_computing.Common.{
  ℕ, ◌+◌, ◌*◌, ◌/◌, ◌%◌, ◌^◌, ◌≤◌, ◌<◌, ◌≡◌, refl, arith, ltb, if◌then◌else◌, mul-le-mul,
}
use approximation_computing.Task.{CfsTask, is_running, load_avg_max}
use approximation_computing.Logic.{age_task, run_task}

-- The lightest and the heaviest weight of the table.
abbrev pub min_weight : ℕ
min_weight = 15

abbrev pub max_weight : ℕ
max_weight = 88761

-- What a load sum never passes, in multiples of the weight.
abbrev pub load_cap : ℕ
load_cap = 64

-- What the load averages need of a decay function, for one period: no load grows, and at the cap of
-- a weight enough is lost to make room for the weight.
pub record IsDecay (decay_load : ℕ → ℕ → ℕ) : Type 0 where
  pub shrinks : (load : ℕ) → load ≤ load_cap * max_weight → decay_load load 1 ≤ load
  pub makes_room :
      (w load : ℕ)
      → min_weight ≤ w
      → w ≤ max_weight
      → load ≤ load_cap * w
      → decay_load load 1 + w ≤ load_cap * w

pub record IsLoaded (t : CfsTask) : Type 0 where
  pub heavy : min_weight ≤ t.weight
  pub light : t.weight ≤ max_weight
  pub capped : t.load_sum ≤ load_cap * t.weight
  pub average : t.load_avg ≤ t.weight

abbrev added : CfsTask → ℕ
added t = if is_running t then t.weight else 0

new_sum :
    (t : CfsTask) (d : ℕ)
    → d + t.weight ≤ load_cap * t.weight
    → t.weight ≤ max_weight
    → (if is_running t then (d + t.weight) % 2 ^ 64 else d) ≡ d + added t
new_sum t d room light = ground arith

cut :
    (w product : ℕ)
    → product < 2 ^ 64
    → (if ltb w (product % 2 ^ 64 / load_avg_max) then w else product % 2 ^ 64 / load_avg_max)
      ≡ min w (product / load_avg_max)
cut w product h = rw (mod-eq_of_lt h) (ground arith)

module _ {decay_load : ℕ → ℕ → ℕ} (laws : IsDecay decay_load) where
  -- One period of a task keeps its load within the bounds.
  pub age_task-IsLoaded : (t : CfsTask) → IsLoaded t → IsLoaded (age_task decay_load t)
  unfolding age_task
  age_task-IsLoaded t h =
      ground (
        arith,
        laws.shrinks t.load_sum,
        laws.makes_room t.weight t.load_sum h.heavy h.light h.capped,
      )

  -- For a decay with these laws and a task within its bounds no word wraps: the new load sum is the
  -- decayed one, with the weight added where the task runs, and the new load average is weight * load_sum / LOAD_AVG_MAX over
  -- unbounded numbers, cut at the weight.
  pub age_task-exact :
      (t : CfsTask)
      → IsLoaded t
      → let load_sum = decay_load t.load_sum 1 + (if is_running t then t.weight else 0) in
        let t' = age_task decay_load t in
        (t'.load_sum ≡ load_sum) × (t'.load_avg ≡ min t.weight (t.weight * load_sum / load_avg_max))
  unfolding age_task
  age_task-exact t h =
      let d : ℕ = decay_load t.load_sum 1 in
      let room = laws.makes_room t.weight t.load_sum h.heavy h.light h.capped in
      let sum = new_sum t d room h.light in
      let bound : t.weight * (d + added t) ≤ max_weight * (load_cap * max_weight) =
        mul-le-mul {m₁ = d + added t} {m₂ = load_cap * max_weight} h.light (ground arith) in
      rw sum (refl, cut t.weight (t.weight * (d + added t)) (omega arith))

pub run_task-IsLoaded : (delta : ℕ → ℕ → ℕ) (t : CfsTask) → IsLoaded t → IsLoaded (run_task delta t)
unfolding run_task
run_task-IsLoaded delta t h = ground arith
