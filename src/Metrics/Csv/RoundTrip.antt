-- ===== src/Metrics/Csv/RoundTrip.antt =====
-- The CSV file is read back as the entries that were written.
use approximation_computing.Common.{
  ℕ, ◌≡◌, ◌⊎◌, inl, inr, refl, arith, none, some, ◌∷◌, ◌++◌, if◌then◌else◌, ℤ, pos, ◌==ℤ◌,
}
use approximation_computing.Double.{Double}
use approximation_computing.Fairness.Controller.{IsState}
use approximation_computing.Metrics.{
  Metrics, csv_row, metrics_get_logic_name, metrics_get_state_name,
}
use approximation_computing.Text.{Bytes, codes, print_nat, print_int, print_double}
use approximation_computing.Text.Read.{
  cut_at, cut_end, Lacks, NoDigit, millionths, Lacks-append, value-print_nat, read_int-print,
  read_double-print, print_nat-Lacks, print_int-Lacks, print_double-Lacks,
}
use approximation_computing.Metrics.Csv.{
  line_feed, print_row, Entry, read_logic, read_state, read_row,
}

-- The mode is one of the four, and the state one of the three.
abbrev pub IsNamed : Metrics → Type 0
IsNamed m =
    ((m.logic_used ≡ pos 0)
      ⊎ ((m.logic_used ≡ pos 1) ⊎ ((m.logic_used ≡ pos 2) ⊎ (m.logic_used ≡ pos 3))))
    × IsState m.apaf_state

-- The entry that a row stands for.
abbrev pub seen : ℤ → Metrics → Entry
seen n_tasks m = record {
  tick = m.tick;
  logic_used = m.logic_used;
  n_tasks = n_tasks;
  jain_index = millionths m.jain_index;
  max_error_pct = millionths m.max_error_pct;
  avg_error_pct = millionths m.avg_error_pct;
  ops_saved = m.ops_saved;
  apaf_state = if m.logic_used ==ℤ pos 3 then some m.apaf_state else none;
}

abbrev comma : ℕ
comma = b','

no_comma : NoDigit b','
no_comma d h = ground arith

no_line_feed : NoDigit line_feed
no_line_feed d h = ground arith

-- What the two names say, and that they hold no separator.
read_logic-name :
    (m : Metrics)
    → IsNamed m
    → read_logic (codes (metrics_get_logic_name m.logic_used)) ≡ some m.logic_used
unfolding metrics_get_logic_name
read_logic-name m (inl e, s) = rw e refl
read_logic-name m (inr (inl e), s) = rw e refl
read_logic-name m (inr (inr (inl e)), s) = rw e refl
read_logic-name m (inr (inr (inr e)), s) = rw e refl

read_state-name :
    (m : Metrics)
    → IsNamed m
    → read_state (codes (metrics_get_state_name m.logic_used m.apaf_state))
      ≡ some (if m.logic_used ==ℤ pos 3 then some m.apaf_state else none)
unfolding metrics_get_state_name
read_state-name m (inl e, s) = rw e refl
read_state-name m (inr (inl e), s) = rw e refl
read_state-name m (inr (inr (inl e)), s) = rw e refl
read_state-name m (inr (inr (inr e)), inl s) = rw (e, s) refl
read_state-name m (inr (inr (inr e)), inr (inl s)) = rw (e, s) refl
read_state-name m (inr (inr (inr e)), inr (inr s)) = rw (e, s) refl

abbrev IsPlain : Bytes → Type 0
IsPlain s = Lacks comma s × Lacks line_feed s

logic_name-IsPlain :
    (m : Metrics) → IsNamed m → IsPlain (codes (metrics_get_logic_name m.logic_used))
unfolding metrics_get_logic_name
logic_name-IsPlain m (inl e, s) = rw e (ground arith)
logic_name-IsPlain m (inr (inl e), s) = rw e (ground arith)
logic_name-IsPlain m (inr (inr (inl e)), s) = rw e (ground arith)
logic_name-IsPlain m (inr (inr (inr e)), s) = rw e (ground arith)

state_name-IsPlain :
    (m : Metrics) → IsNamed m → IsPlain (codes (metrics_get_state_name m.logic_used m.apaf_state))
unfolding metrics_get_state_name
state_name-IsPlain m (inl e, s) = rw e (ground arith)
state_name-IsPlain m (inr (inl e), s) = rw e (ground arith)
state_name-IsPlain m (inr (inr (inl e)), s) = rw e (ground arith)
state_name-IsPlain m (inr (inr (inr e)), inl s) = rw (e, s) (ground arith)
state_name-IsPlain m (inr (inr (inr e)), inr (inl s)) = rw (e, s) (ground arith)
state_name-IsPlain m (inr (inr (inr e)), inr (inr s)) = rw (e, s) (ground arith)

nat-IsPlain : (n : ℕ) → IsPlain (print_nat n)
nat-IsPlain n = (print_nat-Lacks comma n no_comma, print_nat-Lacks line_feed n no_line_feed)

int-IsPlain : (n : ℤ) → IsPlain (print_int n)
int-IsPlain n =
    (print_int-Lacks comma n no_comma refl, print_int-Lacks line_feed n no_line_feed refl)

double-IsPlain : (x : Double) → IsPlain (print_double x)
double-IsPlain x = (
  print_double-Lacks comma x no_comma refl refl,
  print_double-Lacks line_feed x no_line_feed refl refl,
)

pub read_row-print :
    (n_tasks : ℤ) (m : Metrics)
    → IsNamed m
    → read_row (print_row (csv_row n_tasks m)) ≡ some (seen n_tasks m)
unfolding read_row print_row csv_row
read_row-print n_tasks m h =
    rw
      (
        cut_at comma _ _ (nat-IsPlain m.tick).0,
        cut_at comma _ _ (logic_name-IsPlain m h).0,
        cut_at comma _ _ (int-IsPlain n_tasks).0,
        cut_at comma _ _ (double-IsPlain m.jain_index).0,
        cut_at comma _ _ (double-IsPlain m.max_error_pct).0,
        cut_at comma _ _ (double-IsPlain m.avg_error_pct).0,
        cut_at comma _ _ (nat-IsPlain m.ops_saved).0,
        cut_end comma _ (state_name-IsPlain m h).0,
        value-print_nat m.tick,
        read_logic-name m h,
        read_int-print n_tasks,
        read_double-print m.jain_index,
        read_double-print m.max_error_pct,
        read_double-print m.avg_error_pct,
        value-print_nat m.ops_saved,
        read_state-name m h,
      )
      refl

pub print_row-Lacks :
    (n_tasks : ℤ) (m : Metrics) → IsNamed m → Lacks line_feed (print_row (csv_row n_tasks m))
unfolding print_row csv_row
print_row-Lacks n_tasks m h =
    let join : (s t : Bytes)
        → Lacks line_feed s
        → Lacks line_feed t
        → Lacks line_feed (s ++ comma ∷ t) =
      λ s t p q. Lacks-append line_feed s (comma ∷ t) p (refl, q) in
    join _ _ (nat-IsPlain m.tick).1 (
      join _ _ (logic_name-IsPlain m h).1 (
        join _ _ (int-IsPlain n_tasks).1 (
          join _ _ (double-IsPlain m.jain_index).1 (
            join _ _ (double-IsPlain m.max_error_pct).1 (
              join _ _ (double-IsPlain m.avg_error_pct).1
                (join _ _ (nat-IsPlain m.ops_saved).1 (state_name-IsPlain m h).1))))))
