-- ===== src/Metrics/Csv.antt =====
-- The CSV file of apex-cfs/src/metrics.c, character by character, and a reader of such files.
pub mod RoundTrip
pub mod File
use mathlib.Core.Option
use Prim.Native.String.{String}
use approximation_computing.Common.{
  ℕ, ◌+◌, ◌-◌, ◌*◌, Bool, true, false, Option, none, some, List, [], ◌∷◌, ◌++◌, leb, ◌==◌, ◌&&◌,
  if◌then◌else◌, ℤ, pos,
}
use approximation_computing.Task.{apaf_tight, apaf_medium, apaf_loose}
use approximation_computing.Metrics.{Metrics, CsvRow, metrics_write_csv}
use approximation_computing.Text.{Bytes, codes, same, print_nat, print_int, print_double}
use approximation_computing.Text.Read.{cut, read_nat, read_int, read_double}

-- `METRICS_CSV_HEADER`, without the line feed at its end.
abbrev pub metrics_csv_header : String
metrics_csv_header =
    "tick,logic,n_tasks,jain_index,max_error_pct,avg_error_pct,ops_saved,apaf_state"

abbrev comma : ℕ
comma = b','

abbrev pub line_feed : ℕ
line_feed = 10

-- Fields with a comma between any two.
abbrev joined : List Bytes → Bytes
joined [] = []
joined (s ∷ []) = s
joined (s ∷ t ∷ rest) = s ++ comma ∷ joined (t ∷ rest)

-- `fprintf` of one row, without the line feed at its end.
unfoldable pub print_row : CsvRow → Bytes
print_row r = joined (
    print_nat r.tick
    ∷ codes r.logic
    ∷ print_int r.n_tasks
    ∷ print_double r.jain_index
    ∷ print_double r.max_error_pct
    ∷ print_double r.avg_error_pct
    ∷ print_nat r.ops_saved
    ∷ codes r.apaf_state
    ∷ [])

unfoldable pub print_rows : List CsvRow → Bytes
print_rows [] = []
print_rows (r ∷ rs) = print_row r ++ line_feed ∷ print_rows rs

-- The file that `metrics_write_csv` leaves; `opened` says whether `fopen` succeeds.
unfoldable pub csv_file : Bool → List Metrics → ℤ → ℤ → Option Bytes
csv_file opened buf n_entries n_tasks =
    if opened
    then Option.map (λ rows. codes metrics_csv_header ++ line_feed ∷ print_rows rows)
        (metrics_write_csv buf n_entries n_tasks)
    else none

-- What a row says: doubles in millionths, and a state only for APAF.
pub record Entry : Type 0 where
  pub tick : ℕ
  pub logic_used : ℤ
  pub n_tasks : ℤ
  pub jain_index : ℤ
  pub max_error_pct : ℤ
  pub avg_error_pct : ℤ
  pub ops_saved : ℕ
  pub apaf_state : Option ℤ

abbrev pub read_logic : Bytes → Option ℤ
read_logic s =
    if same s (codes "EXACT")
    then some (pos 0)
    else if same s (codes "BSA")
    then some (pos 1)
    else if same s (codes "CLTI")
    then some (pos 2)
    else if same s (codes "APAF")
    then some (pos 3)
    else none

abbrev pub read_state : Bytes → Option (Option ℤ)
read_state s =
    if same s (codes "N/A")
    then some none
    else if same s (codes "TIGHT")
    then some (some apaf_tight)
    else if same s (codes "MEDIUM")
    then some (some apaf_medium)
    else if same s (codes "LOOSE")
    then some (some apaf_loose)
    else none

infixl 55 ◌>>=◌
abbrev pub ◌>>=◌ : {A B : Type 0} → Option A → (A → Option B) → Option B
none >>= f = none
some a >>= f = f a

abbrev pub of_fields : List Bytes → Option Entry
of_fields (a ∷ b ∷ c ∷ d ∷ e ∷ f ∷ g ∷ h ∷ []) = do
  tick ← read_nat a
  logic ← read_logic b
  n_tasks ← read_int c
  jain ← read_double d
  max_error ← read_double e
  avg_error ← read_double f
  ops ← read_nat g
  state ← read_state h
  some (record {
    tick = tick;
    logic_used = logic;
    n_tasks = n_tasks;
    jain_index = jain;
    max_error_pct = max_error;
    avg_error_pct = avg_error;
    ops_saved = ops;
    apaf_state = state;
  })
of_fields _ = none

unfoldable pub read_row : Bytes → Option Entry
read_row s = of_fields (cut comma s)

-- The lines below the header; the last one is empty.
unfoldable pub read_rows : List Bytes → Option (List Entry)
read_rows [] = none
read_rows (s ∷ []) = if same s [] then some [] else none
read_rows (s ∷ t ∷ rest) = do row ← read_row s; rows ← read_rows (t ∷ rest); some (row ∷ rows)

abbrev pub of_lines : List Bytes → Option (List Entry)
of_lines [] = none
of_lines (header ∷ rest) = if same header (codes metrics_csv_header) then read_rows rest else none

unfoldable pub read_csv : Bytes → Option (List Entry)
read_csv s = of_lines (cut line_feed s)
