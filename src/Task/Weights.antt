-- ===== src/Task/Weights.antt =====
-- The weights of `task_create`: the kernel's table, clamped, falling by the nice value.
use native.Mathlib.Nat.{mod-eq_of_lt}
use approximation_computing.Common.{
  ℕ, ◌+◌, ◌-◌, ◌*◌, ◌≤◌, ◌<◌, ◌≡◌, refl, arith, Bool, true, ◌&&◌, leb, ℤ, sub_ℕ, pos_part, neg_part,
  and_left, and_right, leb→le, all_below, all_below_sound, get_or,
}
use approximation_computing.Task.{clamp_nice, weight_of, task_create, nice_to_weight}

-- The entry of the table for nice value n - 20.
at_nice : ℕ → ℕ
at_nice n = get_or nice_to_weight n 0

is_entry : ℕ → Bool
is_entry n = leb 15 (at_nice n) && leb (at_nice n) 88761

in_table : (all_below 40 is_entry) ≡ true
unfolding all_below at_nice is_entry
in_table = refl

is_step : ℕ → Bool
is_step n =
    leb (12 * at_nice (n + 1)) (10 * at_nice n) && leb (10 * at_nice n) (13 * at_nice (n + 1))

steps : all_below 39 is_step ≡ true
unfolding all_below at_nice is_step
steps = refl

-- The index of a nice value into the table, and the clamped one's.
index : ℤ → ℕ
index nice = pos_part nice + 20 - neg_part nice

clamped_index : (nice : ℤ) → index (clamp_nice nice) < 40
unfolding clamp_nice index
clamped_index nice = ground arith

entry_bounds : (n : ℕ) → n < 40 → (15 ≤ at_nice n) × (at_nice n ≤ 88761)
unfolding is_entry
entry_bounds n h =
    let both = all_below_sound 40 is_entry n in_table h in
    (leb→le _ _ (and_left _ _ both), leb→le _ _ (and_right (leb 15 (at_nice n)) _ both))

weight_lem : (id nice : ℤ) → (task_create id nice).weight ≡ at_nice (index (clamp_nice nice))
unfolding task_create weight_of index at_nice
weight_lem id nice =
    mod-eq_of_lt (omega (arith, (entry_bounds (index (clamp_nice nice)) (clamped_index nice)).1))

-- Whatever its nice value, a task is created with a weight from 15 to 88761.
pub task_create-weight :
    (id nice : ℤ) → let w = (task_create id nice).weight in (15 ≤ w) × (w ≤ 88761)
task_create-weight id nice =
    rw (weight_lem id nice) (entry_bounds (index (clamp_nice nice)) (clamped_index nice))

clamped_in_range : (n : ℕ) → n < 40 → index (clamp_nice (sub_ℕ n 20)) ≡ n
unfolding clamp_nice index
clamped_in_range n h = ground arith

-- One more level of nice divides the weight by a factor between 1.2 and 1.3, over all 40 levels.
pub task_create-weight_step :
    (id : ℤ) (n : ℕ)
    → n < 39
    → let w = (task_create id (sub_ℕ n 20)).weight in
      let w' = (task_create id (sub_ℕ (n + 1) 20)).weight in (12 * w' ≤ 10 * w) × (10 * w ≤ 13 * w')
unfolding is_step
task_create-weight_step id n h =
    let both = all_below_sound 39 is_step n steps h in
    rw
      (
        weight_lem id (sub_ℕ n 20),
        weight_lem id (sub_ℕ (n + 1) 20),
        clamped_in_range n (omega arith),
        clamped_in_range (n + 1) (omega arith),
      )
      (
        leb→le _ _ (and_left _ _ both),
        leb→le _ _ (and_right (leb (12 * at_nice (n + 1)) (10 * at_nice n)) _ both),
      )
