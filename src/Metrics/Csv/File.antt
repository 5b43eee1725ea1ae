-- ===== src/Metrics/Csv/File.antt =====
-- The whole CSV file that `metrics_write_csv` leaves is read back as the entries that were written.
use approximation_computing.Common.{
  ℕ, zero, suc, ◌+◌, ◌*◌, ◌^◌, ◌≤◌, ◌≡◌, refl, arith, true, some, List, [], ◌∷◌, ◌++◌, map, ◌<◌,
  take_all, ℤ, pos, negsuc, All, length,
}
use approximation_computing.Double.{Double, one, opposite, magnitude, in_millionths}
use approximation_computing.Double.Millionths.{in_millionths-near}
use approximation_computing.Metrics.{Metrics, metrics_write_csv, csv_row}
use approximation_computing.Text.{Bytes, codes}
use approximation_computing.Text.Read.{cut, cut_at, Lacks, millionths}
use approximation_computing.Metrics.Csv.{
  metrics_csv_header, line_feed, print_row, print_rows, csv_file, read_rows, read_csv,
}
use approximation_computing.Metrics.Csv.RoundTrip.{IsNamed, seen, read_row-print, print_row-Lacks}

-- The double and the millionths that were read are at most half a millionth apart.
abbrev pub IsNear : Double → ℤ → Type 0
IsNear x y =
    (2 * (magnitude x * 10 ^ 6) ≤ 2 * (magnitude y * one) + one)
    × (2 * (magnitude y * one) ≤ 2 * (magnitude x * 10 ^ 6) + one)

magnitude-opposite : (n : ℕ) → magnitude (opposite n) ≡ n
magnitude-opposite zero = refl
magnitude-opposite (suc n) = refl

millionths-IsNear : (x : Double) → IsNear x (millionths x)
unfolding millionths
millionths-IsNear (pos m) = in_millionths-near m
millionths-IsNear (negsuc m) =
    rw (magnitude-opposite (in_millionths (suc m))) (in_millionths-near (suc m))

-- The doubles of an entry against those of the row that was read.
abbrev pub AreNear : ℤ → Metrics → Type 0
AreNear n_tasks m =
    let e = seen n_tasks m in
    IsNear m.jain_index e.jain_index
    × IsNear m.max_error_pct e.max_error_pct
    × IsNear m.avg_error_pct e.avg_error_pct

seen-AreNear : (n_tasks : ℤ) (ms : List Metrics) → All (AreNear n_tasks) ms
seen-AreNear n_tasks [] = tt
seen-AreNear n_tasks (m ∷ ms) = (
  (
    millionths-IsNear m.jain_index,
    millionths-IsNear m.max_error_pct,
    millionths-IsNear m.avg_error_pct,
  ),
  seen-AreNear n_tasks ms,
)

-- The text below the header is cut into its rows, and an empty line behind them.
lines_of : ℤ → List Metrics → List Bytes
lines_of n_tasks [] = [] ∷ []
lines_of n_tasks (m ∷ ms) = print_row (csv_row n_tasks m) ∷ lines_of n_tasks ms

cut-print_rows :
    (n_tasks : ℤ) (ms : List Metrics)
    → All IsNamed ms
    → cut line_feed (print_rows (map (csv_row n_tasks) ms)) ≡ lines_of n_tasks ms
unfolding cut print_rows lines_of
cut-print_rows n_tasks [] h = refl
cut-print_rows n_tasks (m ∷ ms) (h, hs) =
    rw (cut_at line_feed _ _ (print_row-Lacks n_tasks m h)) (rw (cut-print_rows n_tasks ms hs) refl)

read_lines :
    (n_tasks : ℤ) (ms : List Metrics)
    → All IsNamed ms
    → read_rows (lines_of n_tasks ms) ≡ some (map (seen n_tasks) ms)
unfolding read_rows lines_of
read_lines n_tasks [] h = refl
read_lines n_tasks (m ∷ []) (h, hs) = rw (read_row-print n_tasks m h) refl
read_lines n_tasks (m ∷ m' ∷ ms) (h, hs) =
    rw (read_row-print n_tasks m h) (rw (read_lines n_tasks (m' ∷ ms) hs) refl)

header-Lacks : Lacks line_feed (codes metrics_csv_header)
header-Lacks = ground arith

read_csv-rows :
    (n_tasks : ℤ) (ms : List Metrics)
    → All IsNamed ms
    → read_csv (codes metrics_csv_header ++ line_feed ∷ print_rows (map (csv_row n_tasks) ms))
      ≡ some (map (seen n_tasks) ms)
unfolding read_csv
read_csv-rows n_tasks ms h =
    rw (cut_at line_feed (codes metrics_csv_header) _ header-Lacks, cut-print_rows n_tasks ms h)
      (read_lines n_tasks ms h)

metrics_write_csv_lem :
    (buf : List Metrics) (n_entries : ℕ) (n_tasks : ℤ)
    → 0 < n_entries
    → length buf ≡ n_entries
    → metrics_write_csv buf (pos n_entries) n_tasks ≡ some (map (csv_row n_tasks) buf)
unfolding metrics_write_csv
metrics_write_csv_lem buf n_entries n_tasks h many =
    rw (take_all n_entries buf (omega arith)) (ground arith)

-- The file that is written for the entries of the four schedulers, where it opens, is read back as a
-- row for each of them, in order: its tick, its scheduler, the number of tasks, its saved operations,
-- and for APAF its state, are those of the entry, and each of its doubles is off by at most half a
-- millionth.
pub csv_file-read :
    (buf : List Metrics) (n_entries : ℕ) (n_tasks : ℤ)
    → 0 < n_entries
    → length buf ≡ n_entries
    → All IsNamed buf
    → (text : Bytes) × (csv_file true buf (pos n_entries) n_tasks ≡ some text)
      × (read_csv text ≡ some (map (seen n_tasks) buf))
      × All (AreNear n_tasks) buf
unfolding csv_file
csv_file-read buf n_entries n_tasks h many named = (
  codes metrics_csv_header ++ line_feed ∷ print_rows (map (csv_row n_tasks) buf),
  rw (metrics_write_csv_lem buf n_entries n_tasks h many) refl,
  read_csv-rows n_tasks buf named,
  seen-AreNear n_tasks buf,
)
