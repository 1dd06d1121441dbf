-- ===== src/Cib/Unique.antt =====
-- Which references `rset_uniq` of crmsh/xmlutil.py keeps.
use crmsh.Prelude.{
  ℕ, suc, ◌+◌, ◌-◌, Bool, true, false, List, [], ◌∷◌, ◌++◌, append_assoc, append-nil, if◌then◌else◌,
  ◌≡◌, refl, sym, ap, ◌∙◌, subst, Text, same, same-eq, same_refl, Bool-cases, inl, inr, ltb, arith,
}
use crmsh.Cli.Sets.Element.{RscSet}
use crmsh.Cib.Constraint.{
  any_ref, all_refs, uniq_refs, rset_uniq, Counts, count_of, put_count, tally,
}

-- A list without the items that come again later.
unfoldable pub keep_last : List Text → List Text
unfolding any_ref
keep_last [] = []
keep_last (r ∷ refs) = let rest = keep_last refs in if any_ref r refs then rest else r ∷ rest

-- How often an id is among the references.
occurrences : Text → List Text → ℕ
occurrences r [] = 0
occurrences r (x ∷ refs) = let rest = occurrences r refs in if same x r then suc rest else rest

count_of-put_count_same : (r : Text) (n : ℕ) (d : Counts) → count_of r (put_count r n d) ≡ n
unfolding count_of put_count
count_of-put_count_same r n [] = rw (same_refl r) refl
count_of-put_count_same r n ((k, m) ∷ d) = elim (Bool-cases (same k r)) [
  | inl e ↦ rw e (rw e refl)
  | inr e ↦ rw e (rw e (count_of-put_count_same r n d))
]

count_of-put_count_other :
    (x r : Text) (n : ℕ) (d : Counts)
    → same r x ≡ false
    → count_of x (put_count r n d) ≡ count_of x d
unfolding count_of put_count
count_of-put_count_other x r n [] h = rw h refl
count_of-put_count_other x r n ((k, m) ∷ d) h = elim (Bool-cases (same k r)) [
  | inl e ↦ (let ek = same-eq k r e in rw (e, ek, h) refl)
  | inr e ↦ rw e (elim (Bool-cases (same k x)) [
    | inl f ↦ rw f refl
    | inr f ↦ rw f (count_of-put_count_other x r n d h)
  ])
]

-- The counts tell, for each id, whether a reference that comes now comes again.
abbrev Counted : Counts → List Text → Type 0
Counted d refs = (x : Text) → count_of x d - 1 ≡ occurrences x refs - 1

any_ref-occurrences : (r : Text) (refs : List Text) → any_ref r refs ≡ ltb 0 (occurrences r refs)
unfolding any_ref occurrences
any_ref-occurrences r [] = refl
any_ref-occurrences r (x ∷ refs) = elim (Bool-cases (same x r)) [
  | inl e ↦ rw e (ground arith)
  | inr e ↦ rw e (any_ref-occurrences r refs)
]

Counted-head :
    (r : Text) (refs : List Text) (d : Counts)
    → Counted d (r ∷ refs)
    → count_of r d - 1 ≡ occurrences r refs
unfolding occurrences
Counted-head r refs d h =
    let h1 : count_of r d - 1
        ≡ (if same r r then suc (occurrences r refs) else occurrences r refs) - 1 =
      h r in
    let h2 : count_of r d - 1 ≡ suc (occurrences r refs) - 1 =
      subst
        (λ b. count_of r d - 1 ≡ (if b then suc (occurrences r refs) else occurrences r refs) - 1)
        (same_refl r) h1 in
    omega arith

Counted-tail :
    (r x : Text) (refs : List Text) (d : Counts)
    → Counted d (r ∷ refs)
    → same r x ≡ false
    → count_of x d - 1 ≡ occurrences x refs - 1
unfolding occurrences
Counted-tail r x refs d h f =
    subst (λ b. count_of x d - 1 ≡ (if b then suc (occurrences x refs) else occurrences x refs) - 1)
      f (h x)

-- A reference is dropped where it comes again.
many_lem :
    (r : Text) (refs : List Text) (d : Counts)
    → Counted d (r ∷ refs)
    → ltb 1 (count_of r d) ≡ any_ref r refs
many_lem r refs d h =
    let h1 = Counted-head r refs d h in rw (any_ref-occurrences r refs) (ground arith)

-- The first of the references has been taken.
taken : Text → Counts → Counts
taken r d = if ltb 1 (count_of r d) then put_count r (count_of r d - 1) d else d

count_of-taken : (r : Text) (d : Counts) → count_of r (taken r d) - 1 ≡ count_of r d - 1 - 1
unfolding taken
count_of-taken r d = elim (Bool-cases (ltb 1 (count_of r d))) [
  | inl e ↦ rw e (rw (count_of-put_count_same r (count_of r d - 1) d) refl)
  | inr e ↦ rw e (ground arith)
]

count_of-taken_other :
    (x r : Text) (d : Counts) → same r x ≡ false → count_of x (taken r d) ≡ count_of x d
unfolding taken
count_of-taken_other x r d f = elim (Bool-cases (ltb 1 (count_of r d))) [
  | inl e ↦ rw e (count_of-put_count_other x r (count_of r d - 1) d f)
  | inr e ↦ rw e refl
]

Counted-taken :
    (r : Text) (refs : List Text) (d : Counts) → Counted d (r ∷ refs) → Counted (taken r d) refs
Counted-taken r refs d h x = elim (Bool-cases (same r x)) [
  | inr f ↦ ap (λ n. n - 1) (count_of-taken_other x r d f) ∙ Counted-tail r x refs d h f
  | inl f ↦
      subst (λ y. count_of y (taken r d) - 1 ≡ occurrences y refs - 1) (same-eq r x f)
        (count_of-taken r d ∙ ap (λ n. n - 1) (Counted-head r refs d h))
]

if_cons :
    (b c : Bool) (r : Text) (u m t : List Text)
    → b ≡ c
    → u ++ m ≡ t
    → (if b then u else r ∷ u) ++ m ≡ (if c then t else r ∷ t)
if_cons true c r u m t e h = rw (sym e) h
if_cons false c r u m t e h = rw (sym e) (ap (λ l. r ∷ l) h)

uniq_refs-keep_last :
    (refs more : List Text) (d : Counts)
    → Counted d (refs ++ more)
    → Counted ((uniq_refs refs d).1) more
      × ((uniq_refs refs d).0 ++ keep_last more ≡ keep_last (refs ++ more))
unfolding uniq_refs keep_last taken
uniq_refs-keep_last [] more d h = (h, refl)
uniq_refs-keep_last (r ∷ refs) more d h =
    let (c, e) = uniq_refs-keep_last refs more (taken r d) (Counted-taken r (refs ++ more) d h) in
    (
      c,
      if_cons (ltb 1 (count_of r d)) (any_ref r (refs ++ more)) r (uniq_refs refs (taken r d)).0
          (keep_last more) (keep_last (refs ++ more)) (many_lem r (refs ++ more) d h) e,
    )

uniq_sets-keep_last :
    (sets : List RscSet) (more : List Text) (d : Counts)
    → Counted d (all_refs sets ++ more)
    → all_refs (rset_uniq sets d).0 ++ keep_last more ≡ keep_last (all_refs sets ++ more)
unfolding rset_uniq all_refs
uniq_sets-keep_last [] more d h = refl
uniq_sets-keep_last (s ∷ sets) more d h =
    let kept = uniq_refs s.refs d in
    let (c, e) =
      uniq_refs-keep_last s.refs (all_refs sets ++ more) d
        (subst (Counted d) (append_assoc s.refs (all_refs sets) more) h) in
    append_assoc kept.0 (all_refs (rset_uniq sets kept.1).0) (keep_last more)
    ∙ ap (λ l. kept.0 ++ l) (uniq_sets-keep_last sets more kept.1 c)
    ∙ e
    ∙ ap keep_last (sym (append_assoc s.refs (all_refs sets) more))

count_of-tally :
    (x : Text) (refs : List Text) (d : Counts)
    → count_of x (tally refs d) ≡ occurrences x refs + count_of x d
unfolding tally occurrences
count_of-tally x [] d = omega arith
count_of-tally x (r ∷ refs) d = elim (Bool-cases (same r x)) [
  | inl f ↦
      rw
        (
          f,
          count_of-tally x refs (put_count r (suc (count_of r d)) d),
          same-eq r x f,
          count_of-put_count_same x (suc (count_of x d)) d,
        )
        (omega arith)
  | inr f ↦
      rw
        (
          f,
          count_of-tally x refs (put_count r (suc (count_of r d)) d),
          count_of-put_count_other x r (suc (count_of r d)) d f,
        )
        refl
]

add_zero : (n : ℕ) → n + 0 ≡ n
add_zero n = omega arith

-- `rset_uniq`, with the counts of all the references of the sets, leaves of each reference the last one,
-- in the order in which they stand.
pub rset_uniq-keep_last :
    (sets : List RscSet)
    → all_refs (rset_uniq sets (tally (all_refs sets) [])).0 ≡ keep_last (all_refs sets)
unfolding count_of keep_last
rset_uniq-keep_last sets =
    let refs = all_refs sets in
    let h : Counted (tally refs []) refs =
      λ x. ap (λ n. n - 1) (count_of-tally x refs [] ∙ add_zero (occurrences x refs)) in
    sym (append-nil (all_refs (rset_uniq sets (tally refs [])).0))
    ∙ uniq_sets-keep_last sets [] (tally refs [])
        (subst (Counted (tally refs [])) (sym (append-nil refs)) h)
    ∙ ap keep_last (append-nil refs)
