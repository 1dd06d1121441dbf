-- ===== src/Lock/Exclusion.antt =====
-- Several `Lock` objects of crmsh/lock.py that contend for one directory.
--
-- `mkdir` succeeds exactly when the directory is not there, and `rm -rf` removes it; each is one
-- step. The objects are numbered.
use crmsh.Prelude.{ℕ, ◌≡◌, refl, Bool, true, false, if◌then◌else◌, ◌==◌, arith, ◌⊎◌, inl, inr}
use crmsh.Lock.Claim.{Lock, init, create_lock_dir, unlock}

-- Where an object is: before its `lock` block, inside it, or behind it.
pub data Phase : Type 0 where
  fresh inside finished : Phase

pub record World : Type 0 where
  pub directory : Bool
  pub locks : ℕ → Lock
  pub phases : ℕ → Phase

abbrev pub update {ℓ} : {A : Type ℓ} → (ℕ → A) → ℕ → A → ℕ → A
update f i a j = if i == j then a else f j

-- The return code of `mkdir`.
abbrev pub mkdir : Bool → ℕ
mkdir directory = if directory then 1 else 0

-- One attempt of object `i`: `_create_lock_dir`, and the block is entered if it succeeds.
unfoldable pub claim : ℕ → World → World
unfolding create_lock_dir
claim i w =
    let (made, lk) = create_lock_dir (mkdir w.directory) (w.locks i) in
    if made
    then record { directory = true; locks = update w.locks i lk; phases = update w.phases i inside }
    else w

-- The `finally` of object `i`.
unfoldable pub release : ℕ → World → World
unfolding unlock
release i w = record w {
  directory = if unlock (w.locks i) then false else w.directory;
  phases = update w.phases i finished;
}

-- Each object goes through one `lock` block: it tries, it may give up, and it leaves.
pub data Step : World → World → Type 0 where
  try : {w : World} (i : ℕ) → w.phases i ≡ fresh → Step w (claim i w)
  give_up : {w : World} (i : ℕ) → w.phases i ≡ fresh → Step w (release i w)
  leave : {w : World} (i : ℕ) → w.phases i ≡ inside → Step w (release i w)

pub data Reach (s : World) : World → Type 0 where
  here : Reach s s
  next : {w v : World} → Reach s w → Step w v → Reach s v

abbrev pub start : World
start = record { directory = false; locks = λ i. init false false; phases = λ i. fresh }

-- An object that has not entered owns nothing; one that is inside is alone, and the directory is
-- there.
record IsSafe (w : World) : Type 0 where
  owns_nothing : (i : ℕ) → w.phases i ≡ fresh → (w.locks i).lock_owner ≡ false
  present : (i : ℕ) → w.phases i ≡ inside → w.directory ≡ true
  alone : (i j : ℕ) → w.phases i ≡ inside → w.phases j ≡ inside → i ≡ j

claim-IsSafe : (i : ℕ) (w : World) → w.phases i ≡ fresh → IsSafe w → IsSafe (claim i w)
unfolding claim
claim-IsSafe i w f s = record {
  owns_nothing = λ j h. ground (arith, s.owns_nothing j);
  present = λ j h. ground (arith, s.present j);
  alone = λ j k h h'. ground (arith, s.alone j k, s.present j, s.present k);
}

release-IsSafe :
    (i : ℕ) (w : World)
    → (w.phases i ≡ fresh) ⊎ (w.phases i ≡ inside)
    → IsSafe w
    → IsSafe (release i w)
unfolding release
release-IsSafe i w p s = record {
  owns_nothing = λ j h. ground (arith, s.owns_nothing j);
  present = λ j h. ground (arith, s.present j, s.alone i j, s.owns_nothing i);
  alone = λ j k h h'. ground (arith, s.alone j k);
}

Step-IsSafe : {w v : World} → Step w v → IsSafe w → IsSafe v
Step-IsSafe (try {w} i f) s = claim-IsSafe i w f s
Step-IsSafe (give_up {w} i f) s = release-IsSafe i w (inl f) s
Step-IsSafe (leave {w} i h) s = release-IsSafe i w (inr h) s

Reach-IsSafe : {w : World} → Reach start w → IsSafe w
Reach-IsSafe here = record {
  owns_nothing = λ i h. refl;
  present = λ i h. cc;
  alone = λ i j h h'. cc;
}
Reach-IsSafe (next r st) = Step-IsSafe st (Reach-IsSafe r)

-- However the steps of objects that are used once interleave, at most one of them is inside its
-- block, and while one is, the directory is there.
pub mutual_exclusion :
    (w : World) (i j : ℕ)
    → Reach start w
    → w.phases i ≡ inside
    → w.phases j ≡ inside
    → (i ≡ j) × (w.directory ≡ true)
mutual_exclusion w i j r hi hj = let s = Reach-IsSafe r in (s.alone i j hi hj, s.present i hi)
