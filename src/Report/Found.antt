-- ===== src/Report/Found.antt =====
-- Where `findln_by_timestamp` of crmsh/report/utils.py ends on a log that is in order.
use crmsh.Prelude.{
  ℕ, zero, suc, ◌+◌, ◌-◌, ◌*◌, ◌/◌, ◌≤◌, ◌<◌, ◌≡◌, refl, Option, none, some, leb, ltb, leb→le,
  leb→lt, arith, ◌⊎◌, inl, inr, Bool-cases, Option-cases, ◌∙◌, subst,
}
use mathlib.Core.Option.{some_inj}
use crmsh.Report.Search.{Segment, stamped, probe, narrow, search_line, findln_by_timestamp}
use crmsh.Report.Ends.{
  IsSegment, rest_of, centred, narrow-less, search_line-empty, search_line-found,
  search_line-narrow,
}

-- Line `m` has the time, or is the first line after it, or the last line before it, as far as line
-- `k` can tell.
abbrev pub Nearest : (ℕ → ℕ) → ℕ → ℕ → ℕ → Type 0
Nearest time given k m =
    (time m ≡ given)
    ⊎ ((given < time m) × ((m ≤ k) ⊎ (time k < given)))
    ⊎ ((time m < given) × ((k ≤ m) ⊎ (given < time k)))

module _ (lines : ℕ) (stamp : ℕ → Option ℕ) (time : ℕ → ℕ) (given k : ℕ)
    (dated : (n : ℕ) → 1 ≤ n → n ≤ lines → stamp n ≡ some (time n))
    (in_order : (m n : ℕ) → m ≤ n → time m ≤ time n) (here : 1 ≤ k) (there : k ≤ lines) where
  -- What is known of line `k` when the segment has shrunk to `s`.
  record Searched (s : Segment) : Type 0 where
    positive : 1 ≤ s.first
    within : s.last ≤ lines
    ordered : s.first ≤ suc s.last
    below : (s.first ≤ k) ⊎ (time k < given)
    above : (k ≤ s.last) ⊎ (given < time k)
    at_end :
        (s.first ≤ s.last) ⊎ ((1 ≤ s.middle) × (s.middle ≤ lines) × Nearest time given k s.middle)

  module _ (s : Segment) (i : Searched s) (le : s.first ≤ s.last) where
    mid : ℕ
    mid = (s.last + s.first) / 2

    mid_within : (s.first ≤ mid) × (mid ≤ s.last)
    unfolding mid
    mid_within = omega arith

    centre_within : (1 ≤ (centred s).middle) × ((centred s).middle ≤ lines)
    centre_within = omega (arith, i.positive, i.within)

    upper : time mid < given → Searched (record s { first = mid + 1; middle = mid })
    upper lt = record {
      positive = omega arith;
      within = i.within;
      ordered = omega (arith, mid_within.1);
      below = ground (arith, in_order k mid);
      above = i.above;
      at_end = ground (arith, mid_within, i.positive, i.within, i.above);
    }

    lower : given < time mid → Searched (record s { last = mid - 1; middle = mid })
    lower lt = record {
      positive = i.positive;
      within = omega (arith, mid_within, i.within);
      ordered = omega (arith, mid_within, i.positive);
      below = i.below;
      above = ground (arith, in_order mid k, here);
      at_end = ground (arith, mid_within, i.positive, i.within, i.below);
    }

    narrow-Searched : (s' : Segment) → narrow given (time mid) (centred s) ≡ some s' → Searched s'
    unfolding narrow mid
    narrow-Searched s' h = elim (Bool-cases (ltb given (time mid))) [
      | inl above ↦
          let e : some (record s { last = mid - 1; middle = mid }) ≡ some s' = rw above at h in
          subst Searched (some_inj.0 e) (lower (ground arith))
      | inr not_above ↦ elim (Bool-cases (ltb (time mid) given)) [
        | inl below ↦
            let e : some (record s { first = mid + 1; middle = mid }) ≡ some s' =
              rw (not_above, below) at h in
            subst Searched (some_inj.0 e) (upper (ground arith))
        | inr same ↦ cc (rw (not_above, same) at h)
      ]
    ]

  narrow_found : (s : Segment) → narrow given (time s.middle) s ≡ none → time s.middle ≡ given
  unfolding narrow
  narrow_found s h = ground arith

  -- The first attempt finds a timestamp.
  probe_dated :
      (s : Segment)
      → 1 ≤ s.middle
      → s.middle ≤ lines
      → probe 2 10 stamp s ≡ some (stamped (time s.middle) s)
  unfolding probe
  probe_dated s pos le = rw (dated s.middle pos le, probe)

  search_line-Nearest :
      (fuel : ℕ) (s : Segment)
      → Searched s
      → rest_of s < fuel
      → (m : ℕ) × (search_line fuel stamp given s ≡ some (some m))
        × (1 ≤ m)
        × (m ≤ lines)
        × Nearest time given k m
  unfolding mid
  search_line-Nearest zero s i less = absurd (omega arith)
  search_line-Nearest (suc fuel) s i less = elim (Bool-cases (leb s.first s.last)) [
    | inr out ↦
        let gone = leb→lt s.first s.last out in
        elim i.at_end [
          | inl le ↦ absurd (omega arith)
          | inr (pos, le, near) ↦
              (s.middle, search_line-empty fuel stamp given s gone, pos, le, near)
        ]
    | inl inside ↦
        let le = leb→le s.first s.last inside in
        let c = centred s in
        let (lo, hi) = centre_within s i le in
        let e = probe_dated c lo hi in
        elim (Option-cases (narrow given (time c.middle) c)) [
          | inl done ↦ (
            c.middle,
            search_line-found fuel stamp given s le (time c.middle) c e done,
            lo,
            hi,
            inl (narrow_found c done),
          )
          | inr (s', e') ↦
              let i' = narrow-Searched s i le s' e' in
              let segment : IsSegment c = record {
                positive = i.positive;
                ordered = le;
                centre = refl;
              } in
              let (less', _, _) = narrow-less given (time c.middle) c s' segment e' in
              let (m, found, pos, le', near) = search_line-Nearest fuel s' i' (omega arith) in
              (
                m,
                search_line-narrow fuel stamp given s le (time c.middle) c s' e e' ∙ found,
                pos,
                le',
                near,
              )
        ]
  ]

-- In a log where each line has a timestamp and none is earlier than that of a line above, the search
-- finds a line, and one next to the time: it has exactly that time, or it is later and every line
-- above it is earlier than the time, or it is earlier and every line below it is later.
pub findln_by_timestamp-Nearest :
    (lines : ℕ) (stamp : ℕ → Option ℕ) (time : ℕ → ℕ) (given k : ℕ)
    → ((n : ℕ) → 1 ≤ n → n ≤ lines → stamp n ≡ some (time n))
    → ((m n : ℕ) → m ≤ n → time m ≤ time n)
    → 1 ≤ k
    → k ≤ lines
    → (m : ℕ) × (findln_by_timestamp lines stamp given ≡ some (some m))
      × (1 ≤ m)
      × (m ≤ lines)
      × Nearest time given k m
unfolding findln_by_timestamp
findln_by_timestamp-Nearest lines stamp time given k dated in_order here there =
    search_line-Nearest lines stamp time given k dated in_order here there (2 * lines + 2) _
      (record {
        positive = omega arith;
        within = omega arith;
        ordered = omega arith;
        below = inl here;
        above = inl there;
        at_end = inl (omega arith);
      })
      (omega arith)
