-- ===== src/Report/Search.antt =====
-- `findln_by_timestamp` of crmsh/report/utils.py, and what prints a segment of a log.
--
-- A timestamp is a number of ticks, and `none` where `get_timestamp` gives nothing. What it gives
-- for each line of the log, counted from 1, is the function `stamp`. Each `while` takes a fuel, and
-- `none` is its end.
use crmsh.Prelude.{
  ℕ, zero, suc, ◌+◌, ◌-◌, ◌/◌, Bool, true, false, ◌&&◌, ◌||◌, not, ◌*◌, Option, none, some, List,
  [], ◌∷◌, ◌++◌, ◌==◌, ltb, leb, if◌then◌else◌, ◌≡◌, refl, length, Text,
}
use Prim.Native.Nat.{max}

-- The segment that the search looks at, and its middle.
pub record Segment : Type 0 where
  pub first : ℕ
  pub last : ℕ
  pub middle : ℕ

-- One pass of the inner loop: the segment moves up by a line.
unfoldable pub move_up : Segment → Segment
move_up s =
    let first = max 1 (s.first - 1) in
    let last = max first (s.last - 1) in
    record { first = first; last = last; middle = (last + first) / 2 }

-- Whether the inner loop ends: by its `break`, or because the middle has changed.
abbrev pub stops : Segment → Segment → Bool
stops s moved = moved.first == moved.last || not (s.middle == moved.middle)

-- `while prevmid == middle`
unfoldable pub shift : ℕ → Segment → Option Segment
unfolding move_up
shift zero s = none
shift (suc fuel) s =
    let moved = move_up s in
    let more = shift fuel moved in if stops s moved then some moved else more

-- How the search for a line with a timestamp ends: at a line, or after ten attempts with none.
pub data Probe : Type 0 where
  stamped : ℕ → Segment → Probe
  given_up : Probe

-- `while trycnt > 0`
unfoldable pub probe : ℕ → ℕ → (ℕ → Option ℕ) → Segment → Option Probe
unfolding shift
probe fuel zero stamp s = some given_up
probe fuel (suc trycnt) stamp s = elim (stamp s.middle) [
  | some t ↦ some (stamped t s)
  | none ↦ elim (shift fuel s) [ none ↦ none | some s' ↦ probe fuel trycnt stamp s' ]
]

-- The segment after a comparison, or `none` at the `break`.
unfoldable pub narrow : ℕ → ℕ → Segment → Option Segment
narrow given t s =
    if ltb given t
    then some (record s { last = s.middle - 1 })
    else if ltb t given
    then some (record s { first = s.middle + 1 })
    else none

-- `while first <= last`; the result is `middle`, or `none` where no line has a timestamp.
unfoldable pub search_line : ℕ → (ℕ → Option ℕ) → ℕ → Segment → Option (Option ℕ)
search_line zero stamp given s = none
search_line (suc fuel) stamp given s = elim (leb s.first s.last) [
  | false ↦ some (some s.middle)
  | true ↦ elim (probe 2 10 stamp (record s { middle = (s.last + s.first) / 2 })) [
    | none ↦ none
    | some given_up ↦ some none
    | some (stamped t s') ↦ elim (narrow given t s') [
      | none ↦ some (some s'.middle)
      | some s'' ↦ search_line fuel stamp given s''
    ]
  ]
]

-- `findln_by_timestamp`, on a log of `lines` lines.
unfoldable pub findln_by_timestamp : ℕ → (ℕ → Option ℕ) → ℕ → Option (Option ℕ)
unfolding search_line
findln_by_timestamp lines stamp given =
    search_line (2 * lines + 2) stamp given (record { first = 1; last = lines; middle = 0 })

-- The lines from number `count` on that lie between the two.
unfoldable pub filter_from : ℕ → List Text → ℕ → ℕ → Text
filter_from count [] from_line to_line = []
filter_from count (line ∷ lines) from_line to_line =
    let rest = filter_from (count + 1) lines from_line to_line in
    if leb from_line count && leb count to_line then line ++ b'\n' ∷ rest else rest

-- `filter_lines`, on the lines of the data.
unfoldable pub filter_lines : List Text → ℕ → ℕ → Text
unfolding filter_from
filter_lines lines from_line to_line = filter_from 1 lines from_line to_line

-- A bound of the segment: a time of 0 is none.
unfoldable pub bound : ℕ → ℕ → ℕ → (ℕ → Option ℕ) → Option (Option ℕ)
bound default time lines stamp =
    if time == 0 then some (some default) else findln_by_timestamp lines stamp time

-- The text between two lines that were searched for.
unfoldable pub segment : List Text → Option (Option ℕ) → Option (Option ℕ) → Option Text
segment lines (some (some from_line)) (some (some to_line)) =
    some (filter_lines lines from_line to_line)
segment lines (some none) (some _) = some []
segment lines (some (some _)) (some none) = some []
segment lines none _ = none
segment lines (some _) none = none

-- `print_logseg`, on the lines of the data; no data is the single empty line.
unfoldable pub print_logseg : List Text → (ℕ → Option ℕ) → ℕ → ℕ → Option Text
unfolding bound segment
print_logseg [] stamp from_time to_time = some []
print_logseg ([] ∷ []) stamp from_time to_time = some []
print_logseg lines stamp from_time to_time =
    segment lines (bound 1 from_time (length lines) stamp)
      (bound (length lines) to_time (length lines) stamp)

-- A log of five lines; the third has no timestamp.
abbrev log : ℕ → Option ℕ
log n = if n == 3 then none else some (10 * n)

finds_fifth : findln_by_timestamp 5 (λ n. some (10 * n)) 50 ≡ some (some 5)
unfolding findln_by_timestamp probe shift narrow
finds_fifth = refl

-- The line without a timestamp moves the segment up, and line 4 is lost.
misses_fourth : findln_by_timestamp 5 log 40 ≡ some (some 2)
unfolding findln_by_timestamp probe shift narrow
misses_fourth = refl

stops_before : findln_by_timestamp 5 log 25 ≡ some (some 2)
unfolding findln_by_timestamp probe shift narrow
stops_before = refl
