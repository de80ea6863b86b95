-- ===== src/Monitor/Printing.antt =====
-- The report of task_monitor.c: the room that is asked for is enough.
use mathlib.Core.List.{append_assoc, append-nil}
use ip.Base.{
  ℕ, zero, suc, ◌+◌, ◌-◌, ◌*◌, ◌≤◌, ◌<◌, ◌≡◌, refl, sym, arith, false, le→ltb, if◌then◌else◌,
  Bool-cases, inl, inr, List, [], ◌∷◌, ◌++◌, Option, length, length-append, take_within, replicate,
}
use ip.Utility.Print.{dec, dec-length, codes, pad_left, pad_right}
use ip.Monitor.{
  TaskStatus, Report, report_line, is_watched, print_at, print_tasks, print_report, report_header,
  report_size,
}

-- A task as FreeRTOS knows it: a name of less than 30 characters, a stack of less than 4 GB.
abbrev pub IsTask : TaskStatus → Type 0
IsTask t = (length t.name < 30) × (t.stack_high_water_mark < 4294967296)

abbrev pub AreTasks : List TaskStatus → Type 0
AreTasks [] = Unit
AreTasks (t ∷ ts) = IsTask t × AreTasks ts

-- The lines of the watched tasks.
abbrev pub report_lines : Option (List (List ℕ)) → List TaskStatus → List ℕ
report_lines names [] = []
report_lines names (t ∷ ts) =
    let rest = report_lines names ts in
    if is_watched names t.name then report_line t ++ rest else rest

length-replicate : (n c : ℕ) → length (replicate n c) ≡ n
length-replicate zero c = refl
length-replicate (suc n) c = omega (arith, length-replicate n c)

length-pad_right :
    (width : ℕ) (s : List ℕ) (k : ℕ) → length s ≤ k → width ≤ k → length (pad_right width s) ≤ k
length-pad_right width s k h w = omega (
  arith,
  length-append s (replicate (width - length s) 32),
  length-replicate (width - length s) 32,
)

length-pad_left :
    (width : ℕ) (s : List ℕ) (k : ℕ) → length s ≤ k → width ≤ k → length (pad_left width s) ≤ k
length-pad_left width s k h w = omega (
  arith,
  length-append (replicate (width - length s) 32) s,
  length-replicate (width - length s) 32,
)

-- A line takes up at most the 56 bytes that the code counts for it.
length-report_line : (t : TaskStatus) → IsTask t → length (report_line t) ≤ 56
unfolding report_line
length-report_line t (n, w) = omega (
  arith,
  length-append (pad_right 16 t.name)
      (codes "  hwm: " ++ (printed ++ (codes " bytes" ++ (10 ∷ [])))),
  length-append printed (codes " bytes" ++ (10 ∷ [])),
  length-pad_right 16 t.name 29 (omega arith) (omega arith),
  length-pad_left 5 (dec t.stack_high_water_mark) 10
      (dec-length 9 t.stack_high_water_mark (omega arith)) (omega arith),
)
  where
    printed : List ℕ
    printed = pad_left 5 (dec t.stack_high_water_mark)

length-report_lines :
    (names : Option (List (List ℕ))) (tasks : List TaskStatus)
    → AreTasks tasks
    → length (report_lines names tasks) ≤ length tasks * 56
length-report_lines names [] known = omega arith
length-report_lines names (t ∷ ts) known = elim (Bool-cases (is_watched names t.name)) [
  | inl watched ↦ rw watched (
      omega (
        arith,
        length-append (report_line t) (report_lines names ts),
        length-report_line t known.0,
        length-report_lines names ts known.1,
      ))
  | inr skipped ↦ rw skipped (omega (arith, length-report_lines names ts known.1))
]

header_length : length report_header ≡ 30
unfolding report_header
header_length = refl

-- What there is room for is printed whole.
print_at_room :
    (out_size : ℕ) (line : List ℕ) (r : Report)
    → r.pos + length line < out_size
    → print_at out_size line r ≡ record r { text = r.text ++ line; pos = r.pos + length line }
unfolding print_at
print_at_room out_size line r room =
    rw (le→ltb out_size r.pos (omega arith), take_within (out_size - r.pos - 1) line (omega arith))

print_tasks-room :
    (out_size : ℕ) (names : Option (List (List ℕ))) (ts : List TaskStatus) (r : Report)
    → AreTasks ts
    → r.pos + length ts * 56 < out_size
    → print_tasks out_size names ts r ≡ record r {
      text = r.text ++ report_lines names ts;
      pos = r.pos + length (report_lines names ts);
    }
unfolding print_tasks
print_tasks-room out_size names [] r tasks room =
    λ i. record r { text = sym (append-nil r.text) i; pos = the_pos i }
  where
    the_pos : r.pos ≡ r.pos + 0
    the_pos = omega arith
print_tasks-room out_size names (t ∷ ts) r tasks room =
    elim (Bool-cases (is_watched names t.name)) [
      | inl watched ↦
          rw
            (
              watched,
              print_at_room out_size (report_line t) r (omega (arith, fits)),
              print_tasks-room out_size names ts (printed r) tasks.1 (omega (arith, fits)),
            )
            (λ i. record r {
              text = append_assoc r.text (report_line t) (report_lines names ts) i;
              pos = sum i;
            })
      | inr skipped ↦ rw (skipped, print_tasks-room out_size names ts r tasks.1 (omega arith))
    ]
  where
    fits : length (report_line t) ≤ 56
    fits = length-report_line t tasks.0

    printed : Report → Report
    printed r = record r { text = r.text ++ report_line t; pos = r.pos + length (report_line t) }

    sum :
        r.pos + length (report_line t) + length (report_lines names ts)
        ≡ r.pos + length (report_line t ++ report_lines names ts)
    sum = omega (arith, length-append (report_line t) (report_lines names ts))

-- For tasks with names of less than 30 characters, stacks below 4 GB, and less than 16777216 of
-- them, the report is printed whole, with nothing cut off and nothing written past the end: the
-- header and a line for each watched task, and it fits the block with the 0 behind it.
pub print_report_lem :
    (names : Option (List (List ℕ))) (tasks : List TaskStatus)
    → AreTasks tasks
    → length tasks < 16777216
    → (print_report names tasks ≡ record {
      text = report_header ++ report_lines names tasks;
      pos = length (report_header ++ report_lines names tasks);
      overrun = false;
    })
      × (length (report_header ++ report_lines names tasks) + 1 ≤ report_size tasks)
unfolding print_report
print_report_lem names tasks known few = (
  rw
      (
        print_at_room (report_size tasks) report_header start (omega (arith, header_length)),
        print_tasks-room (report_size tasks) names tasks headed known
            (omega (arith, header_length)),
      )
      (λ i. record {
        text = report_header ++ report_lines names tasks;
        pos = sum i;
        overrun = false;
      }),
  omega (
    arith,
    header_length,
    length-append report_header (report_lines names tasks),
    length-report_lines names tasks known,
  ),
)
  where
    start : Report
    start = record { text = []; pos = 0; overrun = false }

    headed : Report
    headed = record { text = report_header; pos = 0 + length report_header; overrun = false }

    sum :
        0 + length report_header + length (report_lines names tasks)
        ≡ length (report_header ++ report_lines names tasks)
    sum = omega (arith, length-append report_header (report_lines names tasks))
