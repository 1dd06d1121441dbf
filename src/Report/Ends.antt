-- ===== src/Report/Ends.antt =====
-- The loops of `findln_by_timestamp` in crmsh/report/utils.py end.
use crmsh.Prelude.{
  ℕ, zero, suc, ◌+◌, ◌-◌, ◌*◌, ◌/◌, ◌≤◌, ◌<◌, ◌≡◌, refl, true, false, Option, none, some, leb,
  leb→le, leb→lt, le→leb, lt→leb, arith, inl, inr, Bool-cases, Option-cases, ◌∙◌,
}
use crmsh.Report.Search.{
  Segment, move_up, stops, shift, Probe, stamped, given_up, probe, narrow, search_line,
  findln_by_timestamp,
}

-- A segment that is not empty, with its middle.
pub record IsSegment (s : Segment) : Type 0 where
  pub positive : 1 ≤ s.first
  pub ordered : s.first ≤ s.last
  pub centre : s.middle ≡ (s.last + s.first) / 2

-- How much there is left to search; moving up never adds to it.
abbrev pub rest_of : Segment → ℕ
rest_of s = 2 * s.last + 2 - s.first

pub record Moved (s s' : Segment) : Type 0 where
  pub is_segment : IsSegment s'
  pub less : rest_of s' ≤ rest_of s
  pub up : s'.last ≤ s.last

move_up-Moved : (s : Segment) → IsSegment s → Moved s (move_up s)
unfolding move_up
move_up-Moved s i = record {
  is_segment = record { positive = omega arith; ordered = omega arith; centre = omega arith };
  less = omega (arith, i.positive, i.ordered);
  up = omega (arith, i.positive, i.ordered);
}

Moved-trans : {a b c : Segment} → Moved a b → Moved b c → Moved a c
Moved-trans f g = record {
  is_segment = g.is_segment;
  less = omega (arith, f.less, g.less);
  up = omega (arith, f.up, g.up);
}

stops_second :
    (s : Segment)
    → IsSegment s
    → stops s (move_up s) ≡ false
    → stops (move_up s) (move_up (move_up s)) ≡ true
unfolding move_up
stops_second s i h = ground (arith, i.positive, i.ordered, i.centre)

-- Two passes of the inner loop are enough.
shift-Moved : (s : Segment) → IsSegment s → (s' : Segment) × (shift 2 s ≡ some s') × Moved s s'
unfolding shift
shift-Moved s i =
    let once = move_up-Moved s i in
    elim (Bool-cases (stops s (move_up s))) [
      | inl end ↦ (move_up s, rw end, once)
      | inr more ↦ (
        move_up (move_up s),
        rw (more, stops_second s i more),
        Moved-trans once (move_up-Moved (move_up s) once.is_segment),
      )
    ]

-- A segment around the line that an attempt ends at.
abbrev pub ProbeFound : Segment → Probe → Type 0
ProbeFound s given_up = Unit
ProbeFound s (stamped t s') = Moved s s'

ProbeFound-trans : (a b : Segment) (p : Probe) → Moved a b → ProbeFound b p → ProbeFound a p
ProbeFound-trans a b given_up m f = tt
ProbeFound-trans a b (stamped t s) m f = Moved-trans m f

-- Where the middle has no timestamp, the next attempt is made a line above.
probe_again :
    (n : ℕ) (stamp : ℕ → Option ℕ) (s s' : Segment)
    → stamp s.middle ≡ none
    → shift 2 s ≡ some s'
    → probe 2 (suc n) stamp s ≡ probe 2 n stamp s'
unfolding probe
probe_again n stamp s s' e e' = rw (e, probe) (rw (e', probe))

pub probe-Found :
    (trycnt : ℕ) (stamp : ℕ → Option ℕ) (s : Segment)
    → IsSegment s
    → (p : Probe) × (probe 2 trycnt stamp s ≡ some p) × ProbeFound s p
unfolding probe
probe-Found zero stamp s i = (given_up, refl, tt)
probe-Found (suc n) stamp s i = elim (Option-cases (stamp s.middle)) [
  | inr (t, e) ↦
      (stamped t s, rw (e, probe), record { is_segment = i; less = omega arith; up = omega arith })
  | inl e ↦
      let (s', moved, m) = shift-Moved s i in
      let (p, found, f) = probe-Found n stamp s' m.is_segment in
      (p, probe_again n stamp s s' e moved ∙ found, ProbeFound-trans s s' p m f)
]

-- What is left to search shrinks with each comparison.
pub narrow-less :
    (given t : ℕ) (s s' : Segment)
    → IsSegment s
    → narrow given t s ≡ some s'
    → (rest_of s' < rest_of s) × (1 ≤ s'.first) × (s'.first ≤ suc s'.last)
unfolding narrow
narrow-less given t s s' i h = ground (arith, i.positive, i.ordered, i.centre)

-- The segment with its middle.
abbrev pub centred : Segment → Segment
centred s = record s { middle = (s.last + s.first) / 2 }

-- One round of the search, for each way in which it goes on.
module _ (fuel : ℕ) (stamp : ℕ → Option ℕ) (given : ℕ) (s : Segment) where
  pub search_line-empty :
      s.last < s.first → search_line (suc fuel) stamp given s ≡ some (some s.middle)
  unfolding search_line
  search_line-empty e = rw (lt→leb s.first s.last e, search_line)

  module _ (ord : s.first ≤ s.last) where
    search_line-given_up :
        probe 2 10 stamp (centred s) ≡ some given_up
        → search_line (suc fuel) stamp given s ≡ some none
    unfolding search_line
    search_line-given_up e = rw (le→leb s.first s.last ord, search_line) (rw (e, search_line))

    pub search_line-found :
        (t : ℕ) (s' : Segment)
        → probe 2 10 stamp (centred s) ≡ some (stamped t s')
        → narrow given t s' ≡ none
        → search_line (suc fuel) stamp given s ≡ some (some s'.middle)
    unfolding search_line
    search_line-found t s' e e' =
        rw (le→leb s.first s.last ord, search_line) (rw (e, e', search_line))

    pub search_line-narrow :
        (t : ℕ) (s' s'' : Segment)
        → probe 2 10 stamp (centred s) ≡ some (stamped t s')
        → narrow given t s' ≡ some s''
        → search_line (suc fuel) stamp given s ≡ search_line fuel stamp given s''
    unfolding search_line
    search_line-narrow t s' s'' e e' =
        rw (le→leb s.first s.last ord, search_line) (rw (e, search_line) (rw (e', search_line)))

    -- The round ends, if the search of any smaller segment does.
    search_line_after :
        ((s'' : Segment)
          → 1 ≤ s''.first
          → s''.first ≤ suc s''.last
          → rest_of s'' < fuel
          → (r : Option ℕ) × (search_line fuel stamp given s'' ≡ some r))
        → 1 ≤ s.first
        → rest_of s < suc fuel
        → (p : Probe) → probe 2 10 stamp (centred s) ≡ some p
        → ProbeFound (centred s) p
        → (r : Option ℕ) × (search_line (suc fuel) stamp given s ≡ some r)
    search_line_after ih pos less given_up e f = (none, search_line-given_up e)
    search_line_after ih pos less (stamped t s') e f = elim (Option-cases (narrow given t s')) [
      | inl done ↦ (some s'.middle, search_line-found t s' e done)
      | inr (s'', e') ↦
          let (less', pos', ord') = narrow-less given t s' s'' f.is_segment e' in
          let (r, end) = ih s'' pos' ord' (omega (arith, f.less)) in
          (r, search_line-narrow t s' s'' e e' ∙ end)
    ]

search_line-ends :
    (fuel : ℕ) (stamp : ℕ → Option ℕ) (given : ℕ) (s : Segment)
    → 1 ≤ s.first
    → s.first ≤ suc s.last
    → rest_of s < fuel
    → (r : Option ℕ) × (search_line fuel stamp given s ≡ some r)
search_line-ends zero stamp given s pos ord less = absurd (omega arith)
search_line-ends (suc fuel) stamp given s pos ord less = elim (Bool-cases (leb s.first s.last)) [
  | inr out ↦ (some s.middle, search_line-empty fuel stamp given s (leb→lt s.first s.last out))
  | inl within ↦
      let le = leb→le s.first s.last within in
      let i : IsSegment (centred s) = record { positive = pos; ordered = le; centre = refl } in
      let (p, e, f) = probe-Found 10 stamp (centred s) i in
      search_line_after fuel stamp given s le (search_line-ends fuel stamp given) pos less p e f
]

-- The search for a time ends on every log, wherever its lines have timestamps and whether or not
-- these are in order: two rounds for each line, and two more, are enough for the outer loop, and two
-- passes for each attempt of the inner one.
pub findln_by_timestamp-ends :
    (lines : ℕ) (stamp : ℕ → Option ℕ) (given : ℕ)
    → (r : Option ℕ) × (findln_by_timestamp lines stamp given ≡ some r)
unfolding findln_by_timestamp
findln_by_timestamp-ends lines stamp given =
    search_line-ends (2 * lines + 2) stamp given _ (omega arith) (omega arith) (omega arith)
