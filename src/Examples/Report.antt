-- ===== src/Examples/Report.antt =====
-- A log of five lines, one for every ten ticks.
use crmsh.Prelude.{ℕ, ◌-◌, ◌*◌, ◌≤◌, ◌≡◌, refl, Option, none, some, arith, if◌then◌else◌, ◌==◌}
use crmsh.Report.Search.{findln_by_timestamp}
use crmsh.Report.Ends.{findln_by_timestamp-ends}
use crmsh.Report.Found.{Nearest, findln_by_timestamp-Nearest}

abbrev with_gaps : ℕ → Option ℕ
with_gaps n = if n == 3 then none else some (100 - 10 * n)

findln_by_timestamp-ends_example : (r : Option ℕ) × (findln_by_timestamp 5 with_gaps 70 ≡ some r)
findln_by_timestamp-ends_example = findln_by_timestamp-ends 5 with_gaps 70

abbrev time : ℕ → ℕ
time n = 10 * n

findln_by_timestamp-Nearest_example :
    (m : ℕ) × (findln_by_timestamp 5 (λ n. some (time n)) 34 ≡ some (some m))
    × (1 ≤ m)
    × (m ≤ 5)
    × Nearest time 34 4 m
findln_by_timestamp-Nearest_example =
    findln_by_timestamp-Nearest 5 (λ n. some (time n)) time 34 4 (λ n a b. refl)
      (λ m n le. omega arith) (omega arith) (omega arith)
