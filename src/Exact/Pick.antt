-- ===== src/Exact/Pick.antt =====
-- `exact_pick_next_task` finds the first running task of least vruntime.
use approximation_computing.Common.{
  ℕ, zero, suc, ◌+◌, ◌≤◌, ◌<◌, ◌≡◌, inl, inr, refl, arith, Bool, true, false, ◌&&◌, ◌||◌, Option,
  none, some, List, [], ◌∷◌, ltb, Bool-cases, get_elem?, ◌≢◌,
}
use approximation_computing.Task.{CfsTask, CfsRq, is_running, has_no_tasks, visited}
use approximation_computing.Task.Runqueue.{visited-none}
use approximation_computing.Exact.{is_unset, pick_loop, exact_pick_next_task}

-- Every running task of the list has at least this vruntime, and more in front of index `k`.
abbrev pub IsLeast : List CfsTask → ℕ → ℕ → Type 0
IsLeast ts v k =
    (j : ℕ) (u : CfsTask)
    → get_elem? ts j ≡ some u
    → is_running u ≡ true
    → (v ≤ u.vruntime) × (j < k → v < u.vruntime)

-- No running task beats the one in hand, if there is one.
abbrev Keeps : List CfsTask → Option ℕ → ℕ → Type 0
Keeps ts best v =
    (j : ℕ) (u : CfsTask)
    → get_elem? ts j ≡ some u
    → is_running u ≡ true
    → (is_unset best ≡ false) × (v ≤ u.vruntime)

-- What the loop found: the task in hand, or the task at an index of its own.
data Found (ts : List CfsTask) (i : ℕ) (best : Option ℕ) (v : ℕ) (r : Option ℕ) : Type 0 where
  kept : r ≡ best → Keeps ts best v → Found ts i best v r
  at_index :
      (k : ℕ) (t : CfsTask)
      → r ≡ some (i + k)
      → get_elem? ts k ≡ some t
      → is_running t ≡ true
      → (is_unset best ≡ false → t.vruntime < v)
      → IsLeast ts t.vruntime k
      → Found ts i best v r

abbrev is_better : CfsTask → Option ℕ → ℕ → Bool
is_better t best v = is_running t && (is_unset best || ltb t.vruntime v)

take_head :
    (t : CfsTask) (ts : List CfsTask) (i v : ℕ) (best r : Option ℕ)
    → is_better t best v ≡ true
    → Found ts (i + 1) (some i) t.vruntime r
    → Found (t ∷ ts) i best v r
take_head t ts i v best r b (kept e keep) =
    at_index zero t (ground arith) refl (ground arith) (ground arith) least
  where
    least : IsLeast (t ∷ ts) t.vruntime zero
    least zero u e run = ground arith
    least (suc j) u e run = ground (arith, keep j u e run)
take_head t ts i v best r b (at_index k t' e there run less least') =
    at_index (suc k) t' (ground arith) there run (ground arith) least
  where
    least : IsLeast (t ∷ ts) t'.vruntime (suc k)
    least zero u e run = ground arith
    least (suc j) u e run = ground (arith, least' j u e run)

skip_head :
    (t : CfsTask) (ts : List CfsTask) (i v : ℕ) (best r : Option ℕ)
    → is_better t best v ≡ false
    → Found ts (i + 1) best v r
    → Found (t ∷ ts) i best v r
skip_head t ts i v best r b (kept e keep) = kept e still
  where
    still : Keeps (t ∷ ts) best v
    still zero u e run = ground arith
    still (suc j) u e run = keep j u e run
skip_head t ts i v best r b (at_index k t' e there run less least') =
    at_index (suc k) t' (ground arith) there run less least
  where
    least : IsLeast (t ∷ ts) t'.vruntime (suc k)
    least zero u e run = ground arith
    least (suc j) u e run = ground (arith, least' j u e run)

pick_loop-Found :
    (ts : List CfsTask) (i : ℕ) (best : Option ℕ) (v : ℕ)
    → Found ts i best v (pick_loop ts i best v)
unfolding pick_loop
pick_loop-Found [] i best v = kept refl λ j u e. cc
pick_loop-Found (t ∷ ts) i best v = elim (Bool-cases (is_better t best v)) [
  | inl b ↦ rw b (take_head t ts i v best _ b (pick_loop-Found ts (i + 1) (some i) t.vruntime))
  | inr b ↦ rw b (skip_head t ts i v best _ b (pick_loop-Found ts (i + 1) best v))
]

-- The choice of the next task: `none` where no task runs, and otherwise the first of the running
-- tasks with the least vruntime.
pub data IsChoice (ts : List CfsTask) (r : Option ℕ) : Type 0 where
  idle :
      r ≡ none
      → ((j : ℕ) (u : CfsTask) → get_elem? ts j ≡ some u → is_running u ≢ true)
      → IsChoice ts r
  chosen :
      (k : ℕ) (t : CfsTask)
      → r ≡ some k
      → get_elem? ts k ≡ some t
      → is_running t ≡ true
      → IsLeast ts t.vruntime k
      → IsChoice ts r

Found-IsChoice : (ts : List CfsTask) (r : Option ℕ) → Found ts 0 none 0 r → IsChoice ts r
Found-IsChoice ts r (kept e keep) = idle e λ j u there run. cc ((keep j u there run).0)
Found-IsChoice ts r (at_index k t e there run less least) =
    chosen k t (ground arith) there run least

-- `exact_pick_next_task` returns none where no task of those that the runqueue counts is running, and
-- otherwise the first of the running ones with the least vruntime.
pub exact_pick_next_task-IsChoice : (rq : CfsRq) → IsChoice (visited rq) (exact_pick_next_task rq)
unfolding exact_pick_next_task
exact_pick_next_task-IsChoice rq = elim (Bool-cases (has_no_tasks rq)) [
  | inl nothing ↦ rw (nothing, visited-none rq nothing) (idle refl λ j u there run. cc)
  | inr some_tasks ↦ rw some_tasks (Found-IsChoice _ _ (pick_loop-Found (visited rq) 0 none 0))
]
