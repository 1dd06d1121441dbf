-- ===== src/Cli/Sets/Words.antt =====
-- The words of a resource set, and how `ResourceSet` of crmsh/parse.py takes one.
use crmsh.Prelude.{
  ℕ, ◌≡◌, refl, sym, subst, true, false, ◌||◌, Option, none, some, [], ◌∷◌, ◌++◌, ◌==◌, arith, Text,
  same, same-eq, codes, is_empty, All, All-append, Bool-cases, inl, inr,
}
use crmsh.Prelude.Results.{ok}
use crmsh.Cli.Sets.Element.{
  Qualifier, Schema, add_to_first, split, contains, is_open, is_close, ends_closed,
}
use crmsh.Cli.Sets.Format.{reference}
use crmsh.Cli.Sets.Parser.{
  State, fix_token, canonical_qualifier, qualified, splitrsc, is_bracket, add_ref, parse_token,
}

-- No colon, no equals sign and no bracket.
abbrev pub IsNameChar : ℕ → Type 0
IsNameChar c = ((c == b':') || (c == b'=') || is_open c || is_close c) ≡ false

abbrev pub IsName : Text → Type 0
IsName r = (is_empty r ≡ false) × All IsNameChar r

-- The qualifier of a set: none, or one that the schema has in this spelling.
pub data Qualified (schema : Schema) (q_attr : Qualifier) : Option Text → Text → Type 0 where
  unqualified : Qualified schema q_attr none []
  by_schema :
      {q : Text}
      → IsName q
      → canonical_qualifier schema q_attr q ≡ some q
      → Qualified schema q_attr (some q) q

-- A token has no equals sign and no bracket.
abbrev IsTokenChar : ℕ → Type 0
IsTokenChar c = ((c == b'=') || is_open c || is_close c) ≡ false

name_token : (r : Text) → All IsNameChar r → All IsTokenChar r
name_token [] h = tt
name_token (c ∷ r) h = (ground arith, name_token r h.1)

contains-token : (p : Text) → All IsTokenChar p → contains b'=' p ≡ false
unfolding contains
contains-token [] h = refl
contains-token (c ∷ p) h = ground (arith, contains-token p h.1)

ends_closed-token : (p : Text) → All IsTokenChar p → ends_closed p ≡ false
unfolding ends_closed
ends_closed-token [] h = refl
ends_closed-token (c ∷ []) h = ground arith
ends_closed-token (c ∷ d ∷ p) h = ends_closed-token (d ∷ p) h.1

fix_token-token :
    (c : ℕ) (p : Text) → All IsTokenChar (c ∷ p) → fix_token (c ∷ p) ≡ ok ((c ∷ p) ∷ [])
unfolding fix_token
fix_token-token c [] h = refl
fix_token-token c (d ∷ p) h =
    let not_open : is_open c ≡ false = ground arith in
    rw (not_open, fix_token) (rw (ends_closed-token (d ∷ p) h.1) refl)

split-name : (r : Text) → All IsNameChar r → split b':' r ≡ r ∷ []
unfolding split add_to_first
split-name [] h = refl
split-name (c ∷ r) h =
    let no_colon : (c == b':') ≡ false = ground arith in rw (no_colon, split-name r h.1)

split-qualified :
    (r q : Text) → All IsNameChar r → All IsNameChar q → split b':' (r ++ (b':' ∷ q)) ≡ r ∷ q ∷ []
unfolding split add_to_first
split-qualified [] q h h' = rw (split-name q h')
split-qualified (c ∷ r) q h h' =
    let no_colon : (c == b':') ≡ false = ground arith in rw (no_colon, split-qualified r q h.1 h')

-- A resource that is no keyword.
abbrev pub IsResource : Text → Type 0
IsResource r = IsName r × (same r (codes "_rsc_set_") ≡ false)

contains-colon : (r q : Text) → contains b':' (r ++ (b':' ∷ q)) ≡ true
unfolding contains
contains-colon [] q = refl
contains-colon (c ∷ r) q = ground (arith, contains-colon r q)

qualified_no_keyword : (r q : Text) → same (r ++ (b':' ∷ q)) (codes "_rsc_set_") ≡ false
unfolding contains
qualified_no_keyword r q = elim (Bool-cases (same (r ++ (b':' ∷ q)) (codes "_rsc_set_"))) [
  | inr e ↦ e
  | inl e ↦ let eq = same-eq (r ++ (b':' ∷ q)) (codes "_rsc_set_") e in cc (contains-colon r q, eq)
]

-- A token of at least one plain character is no bracket.
bracket-token :
    (c : ℕ) (p : Text)
    → All IsTokenChar (c ∷ p)
    → (is_bracket is_open (c ∷ p) ≡ false) × (is_bracket is_close (c ∷ p) ≡ false)
bracket-token c [] h = (ground arith, ground arith)
bracket-token c (d ∷ p) h = (refl, refl)

reference-some : (q r : Text) → is_empty q ≡ false → reference (some q) r ≡ r ++ (b':' ∷ q)
unfolding reference
reference-some [] r h = cc
reference-some (c ∷ q) r h = refl

nonempty_append : (r s : Text) → is_empty r ≡ false → is_empty (r ++ s) ≡ false
nonempty_append [] s h = cc
nonempty_append (c ∷ r) s h = refl

qualified-ok : (r q : Text) → is_empty q ≡ false → qualified r (some q) ≡ ok (r, q)
qualified-ok r [] h = cc
qualified-ok r (c ∷ q) h = refl

module _ (schema : Schema) (q_attr : Qualifier) where
  -- What a token is that stands for a resource.
  pub record IsRef (p rsc q : Text) : Type 0 where
    is_token : All IsTokenChar p
    nonempty : is_empty p ≡ false
    no_keyword : same p (codes "_rsc_set_") ≡ false
    is_split : splitrsc schema q_attr p ≡ ok (rsc, q)

  pub reference-IsRef :
      (o : Option Text) (r q : Text)
      → Qualified schema q_attr o q
      → IsResource r
      → IsRef (reference o r) r q
  unfolding reference splitrsc
  reference-IsRef none r [] unqualified is_r = record {
    is_token = name_token r is_r.0.1;
    nonempty = is_r.0.0;
    no_keyword = is_r.1;
    is_split = rw (split-name r is_r.0.1) refl;
  }
  reference-IsRef none r (c ∷ q) h is_r = elim h [ ]
  reference-IsRef (some q) r q' (by_schema is_q e) is_r =
      subst (λ p. IsRef p r q) (sym (reference-some q r is_q.0))
        (record {
          is_token =
              All-append IsTokenChar r (b':' ∷ q) (name_token r is_r.0.1)
                (refl, name_token q is_q.1);
          nonempty = nonempty_append r (b':' ∷ q) is_r.0.0;
          no_keyword = qualified_no_keyword r q;
          is_split = rw (split-qualified r q is_r.0.1 is_q.1, e) (qualified-ok r q is_q.0);
        })

  pub fix-IsRef : (p r q : Text) → IsRef p r q → fix_token p ≡ ok (p ∷ [])
  fix-IsRef [] r q h = cc (h.nonempty)
  fix-IsRef (c ∷ p) r q h = fix_token-token c p h.is_token

  pub parse_token-IsRef :
      (p r q : Text) (st : State)
      → IsRef p r q
      → parse_token schema q_attr p st ≡ ok (add_ref q_attr (r, q) st)
  unfolding parse_token
  parse_token-IsRef [] r q st h = cc (h.nonempty)
  parse_token-IsRef (c ∷ p) r q st h =
      let (no_open, no_close) = bracket-token c p h.is_token in
      rw (h.no_keyword, parse_token)
        (rw no_open (rw no_close (rw (contains-token (c ∷ p) h.is_token) (rw h.is_split refl))))
