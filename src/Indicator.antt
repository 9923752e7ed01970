-- ===== src/Indicator.antt =====
-- The status page of the terminal, internal/indicator/indicator.go. What is printed is a list of
-- lines and the status line behind them; the escape sequences are left out. The size of the terminal is
-- a parameter, none where it cannot be detected. A result of none is a run-time panic of Go.
pub mod Wraps
pub mod Screen
use spaceship.Base.{
  ℕ, zero, suc, ◌+◌, ◌-◌, ◌≤◌, Bool, true, false, List, [], ◌∷◌, ◌++◌, Option, none, some, Bytes,
  same, length, take, drop, ltb, leb, ◌==◌, if◌then◌else◌,
}

abbrev pub newline : ℕ
newline = 10

-- The width and the height: `getTerminalSize`.
unfoldable pub terminal_size : Option (ℕ × ℕ) → ℕ × ℕ
terminal_size none = (80, 24)
terminal_size (some size) = size

-- `logBuffer`, oldest first. `resize_open` is the channel of the resize events.
pub record Indicator : Type 0 where
  pub status_line : Bytes
  pub log_buffer : List Bytes
  pub max_logs : ℕ
  pub resize_open : Bool

-- `calculateMinHeight` is the height without one line. For a height of 0 it is -1: a capacity that
-- `make` refuses, and a length that no slice reaches.
unfoldable pub calculate_min_height : ℕ → Option ℕ
calculate_min_height zero = none
calculate_min_height (suc h) = some h

unfoldable pub new_indicator : Option (ℕ × ℕ) → Option Indicator
new_indicator size = elim (calculate_min_height (terminal_size size).1) [
  | none ↦ none
  | some max ↦
      some (record { status_line = []; log_buffer = []; max_logs = max; resize_open = true })
]

-- `logBuffer[len(logBuffer)-maxLogs:]` where there are more.
unfoldable pub trim_logs : ℕ → List Bytes → List Bytes
trim_logs max logs = if ltb max (length logs) then drop (length logs - max) logs else logs

-- An event of `handleResize`, up to the rendering.
unfoldable pub resize : Indicator → Option (ℕ × ℕ) → Option Indicator
resize sw size = elim (calculate_min_height (terminal_size size).1) [
  | none ↦ none
  | some max ↦ some (record sw { max_logs = max; log_buffer = trim_logs max sw.log_buffer })
]

-- `bytes.TrimSuffix(p, "\n")`
unfoldable pub trim_newline : Bytes → Bytes
trim_newline [] = []
trim_newline (c ∷ []) = if c == newline then [] else c ∷ []
trim_newline (c ∷ d ∷ cs) = c ∷ trim_newline (d ∷ cs)

-- `bytes.Split(p, "\n")`: the first piece, and the others.
unfoldable pub split_pieces : Bytes → Bytes × List Bytes
split_pieces [] = ([], [])
split_pieces (c ∷ cs) =
    let (piece, others) = split_pieces cs in
    if c == newline then ([], piece ∷ others) else (c ∷ piece, others)

unfoldable pub split_lines : Bytes → List Bytes
unfolding split_pieces
split_lines p = let (piece, others) = split_pieces p in piece ∷ others

-- `Write`, up to the rendering, with the number of bytes that it returns.
unfoldable pub write : Indicator → Bytes → Indicator × ℕ
unfolding trim_logs
write sw p = (
  record sw { log_buffer = trim_logs sw.max_logs (sw.log_buffer ++ split_lines (trim_newline p)) },
  length p,
)

-- `UpdateStatus`, and whether it renders.
unfoldable pub update_status : Indicator → Bytes → Indicator × Bool
update_status sw message =
    if same sw.status_line message then (sw, false) else (record sw { status_line = message }, true)

-- `Close`: a second one closes a closed channel.
unfoldable pub close : Indicator → Option Indicator
close sw = if sw.resize_open then some (record sw { resize_open = false }) else none

-- The loop of `wrapLine`, for a width that is not 0; a line that is as long as the fuel gets through.
unfoldable pub wrap_loop : ℕ → ℕ → Bytes → List Bytes
wrap_loop zero width line = []
wrap_loop (suc fuel) width line =
    let rest = wrap_loop fuel width (drop width line) in
    if ltb width (length line)
    then take width line ∷ rest
    else if ltb 0 (length line)
    then line ∷ []
    else []

unfoldable pub wrap_line : ℕ → Bytes → List Bytes
wrap_line width line =
    if width == 0
    then line ∷ []
    else if leb (length line) width
    then line ∷ []
    else wrap_loop (length line) width line

-- The inner loop of `render` over the pieces of a line: what is printed, and the lines used then.
unfoldable pub print_pieces : ℕ → ℕ → List Bytes → List Bytes × ℕ
print_pieces max used [] = ([], used)
print_pieces max used (p ∷ ps) =
    let (printed, last) = print_pieces max (used + 1) ps in
    if leb max used then ([], used) else (p ∷ printed, last)

-- The outer loop over the log lines.
unfoldable pub print_logs : ℕ → ℕ → ℕ → List Bytes → List Bytes × ℕ
unfolding print_pieces
print_logs width max used [] = ([], used)
print_logs width max used (l ∷ ls) =
    let (printed, used') = print_pieces max used (wrap_line width l) in
    let (more, last) = print_logs width max used' ls in
    if ltb used max then (printed ++ more, last) else ([], used)

abbrev pub status_margin_top_lines : ℕ
status_margin_top_lines = 1

unfoldable pub blank_lines : ℕ → List Bytes
blank_lines zero = []
blank_lines (suc n) = [] ∷ blank_lines n

-- The pieces of the status line, each on a line of its own.
unfoldable pub status_lines : ℕ → List Bytes → List Bytes
status_lines width [] = []
status_lines width (part ∷ parts) = wrap_line width part ++ status_lines width parts

-- What `render` prints, each line with its newline, and then the status.
unfoldable pub render : Indicator → Option (ℕ × ℕ) → List Bytes × List Bytes
unfolding trim_logs print_logs blank_lines
render sw size =
    let width = (terminal_size size).0 in
    let shown = trim_logs sw.max_logs sw.log_buffer in
    let (printed, used) = print_logs width sw.max_logs 0 shown in
    (
      printed ++ blank_lines (sw.max_logs + status_margin_top_lines - used),
      status_lines width (split_lines sw.status_line),
    )
