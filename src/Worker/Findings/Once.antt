-- ===== src/Worker/Findings/Once.antt =====
-- How often the gate publishes a finding, and what it counts as dropped
-- (crates/worker/src/findings.rs). Two findings are one for it when they have one key.
use coven_github.Worker.Session.{ReviewFinding, ReviewSeverity}
use coven_github.Worker.Findings.{below, gate_loop, same_key, same_line}
use coven_github.Base.{
  ℕ, Bool, List, Option, String, count_where, [], any, ap, arith, contains, eq_of_==, if◌then◌else◌,
  insert_by, nat_Eq, none, not, refl, some, sort_by, text_Eq, true, ◌&&◌, ◌∙◌, ◌∷◌, ◌≡◌, Bool-cases,
  inl, inr, ◌==◌,
}

same_line-eq : (a b : Option ℕ) → same_line a b ≡ true → a ≡ b
same_line-eq none none h = refl
same_line-eq (some a) (some b) h = ap some (eq_of_== a b h)
same_line-eq none (some b) h = cc
same_line-eq (some a) none h = cc

and-eq-true : (a b c : Bool) → (a && b && c) ≡ true → (a ≡ true) × (b ≡ true) × (c ≡ true)
and-eq-true a b c h = (ground (arith, h), ground (arith, h), ground (arith, h))

abbrev keyed : ReviewFinding → String → Option ℕ → String → Bool
keyed g file line title = g.file == file && same_line g.line line && g.title == title

-- What has the key of `h` has the key of `f`, if `h` has.
same_key-same :
    (h f : ReviewFinding) → same_key h f ≡ true → (g : ReviewFinding) → same_key g h ≡ same_key g f
unfolding same_key
same_key-same h f e g =
    let (file, line, title) =
      and-eq-true (h.file == f.file) (same_line h.line f.line) (h.title == f.title) e in
    ap (λ x. keyed g x h.line h.title) (eq_of_== h.file f.file file)
    ∙ ap (λ x. keyed g f.file x h.title) (same_line-eq h.line f.line line)
    ∙ ap (λ x. keyed g f.file f.line x) (eq_of_== h.title f.title title)

any-same :
    (h f : ReviewFinding) (seen : List ReviewFinding)
    → same_key h f ≡ true
    → any (λ (g : ReviewFinding). same_key g h) seen
      ≡ any (λ (g : ReviewFinding). same_key g f) seen
any-same h f [] e = refl
any-same h f (g ∷ seen) e = rw (same_key-same h f e g, any-same h f seen e) refl

module _ (in_scope : List String) (min_severity : Option ReviewSeverity) where
  -- In scope, and severe enough.
  abbrev pub passes : ReviewFinding → Bool
  passes f = contains f.file in_scope && not (below min_severity f.severity)

  -- One of the findings passes and has the key.
  abbrev pub due : ReviewFinding → List ReviewFinding → Bool
  due f findings = any (λ (h : ReviewFinding). passes h && same_key h f) findings

  abbrev keyed_as : ReviewFinding → ReviewFinding → Bool
  keyed_as f g = same_key g f

  pub loop-once :
      (f : ReviewFinding) (seen findings : List ReviewFinding)
      → count_where (keyed_as f) (gate_loop in_scope min_severity seen findings).published
        ≡ (if any (keyed_as f) seen then 0 else if due f findings then 1 else 0)
  unfolding gate_loop count_where
  loop-once f seen [] = ground arith
  loop-once f seen (h ∷ findings) =
      let skipped = loop-once f seen findings in
      let taken = loop-once f (h ∷ seen) findings in
      elim (Bool-cases (same_key h f)) [
        | inl e ↦ ground (arith, e, skipped, taken, any-same h f seen e)
        | inr e ↦ ground (arith, e, skipped, taken)
      ]

  pub loop-dropped :
      (seen findings : List ReviewFinding)
      → let o = gate_loop in_scope min_severity seen findings in
        (o.dropped_out_of_scope
          ≡ count_where (λ (h : ReviewFinding). not (contains h.file in_scope)) findings)
        × (o.dropped_below_threshold
            ≡ count_where
                (λ (h : ReviewFinding). contains h.file in_scope && below min_severity h.severity)
                findings)
  unfolding gate_loop count_where
  loop-dropped seen [] = (refl, refl)
  loop-dropped seen (h ∷ findings) =
      let (a, b) = loop-dropped seen findings in
      let (c, d) = loop-dropped (h ∷ seen) findings in
      (ground (arith, a, b, c, d), ground (arith, a, b, c, d))

count_where-insert_by {ℓ} :
    {A : Type ℓ} (q : A → Bool) (before : A → A → Bool) (x : A) (xs : List A)
    → count_where q (insert_by before x xs) ≡ count_where q (x ∷ xs)
unfolding insert_by count_where
count_where-insert_by q before x [] = refl
count_where-insert_by q before x (y ∷ xs) = ground (arith, count_where-insert_by q before x xs)

pub count_where-sort_by {ℓ} :
    {A : Type ℓ} (q : A → Bool) (before : A → A → Bool) (xs : List A)
    → count_where q (sort_by before xs) ≡ count_where q xs
unfolding sort_by count_where
count_where-sort_by q before [] = refl
count_where-sort_by q before (x ∷ xs) =
    count_where-insert_by q before x (sort_by before xs)
    ∙ ground (arith, count_where-sort_by q before xs)
