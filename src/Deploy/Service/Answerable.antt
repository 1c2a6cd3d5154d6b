-- ===== src/Deploy/Service/Answerable.antt =====
-- When `Deploy` answers from the row of an identity.
use routevane.Common.{
  ℕ, ◌<◌, ◌≡◌, ◌≢◌, refl, sym, subst, ap, ◌∙◌, ◌⊎◌, inl, inr, true, false, ◌||◌, not, Option, none,
  some, lt→ltb, Bool-cases, some-injective,
}
use routevane.Common.Text.{Text}
use routevane.Common.Assoc.{get}
use routevane.Encoding.Hex.{valid_attempt_id}
use routevane.Deploy.Failure.{Chain}
use routevane.Deploy.Attempt.{DeployCommand, DeploymentAttempt, is_pending}
use routevane.Deploy.Journal.{
  Row, Rows, Faults, no_faults, JournalError, Begun, begun, not_begun, begin_attempt, scan_attempt,
  valid_pending, valid_identity,
}
use routevane.Deploy.Journal.Laws.{begin-begun, begin-present}
use routevane.Deploy.Service.{
  Externals, World, AttemptError, outcome_unknown, Answer, answer, Claim, go, settled, claim,
  proposed, judge_begun, same_request, deploy, recorded_answer,
}

-- The hypotheses under which `Deploy` answers from the row of an identity.
pub record Answerable (x : Externals) (id : Text) (c : DeployCommand) (rows : Rows)
    (d : DeploymentAttempt) : Type 0 where
  pub fits : (not c.confirm || not (valid_attempt_id id)) ≡ false
  pub row : Row
  pub present : get id rows ≡ some row
  pub scanned : scan_attempt x.reread id row ≡ d
  pub same : (now : ℕ) → same_request d (proposed x now id c) ≡ true
  pub done : is_pending d.status ≡ false
  pub proposable : (now : ℕ) → 0 < now → valid_pending (proposed x now id c) ≡ true

pub Claim-cases :
    (k : Claim) → ((a : Answer) × (k ≡ settled a)) ⊎ ((p : DeploymentAttempt) × (k ≡ go p))
Claim-cases (settled a) = inl (a, refl)
Claim-cases (go p) = inr (p, refl)

pub answer-injective :
    {a b : Option DeploymentAttempt} {e f : Option AttemptError}
    → answer a e ≡ answer b f
    → (a ≡ b) × (e ≡ f)
answer-injective h = (ap (λ t. t.attempt) h, ap (λ t. t.error) h)

pub settled-injective : {a b : Answer} → settled a ≡ settled b → a ≡ b
settled-injective h = cc

pub judge_begun-settled :
    (p d : DeploymentAttempt) (e : Option AttemptError) (b : Begun)
    → judge_begun p b ≡ settled (answer (some d) e)
    → e ≢ some outcome_unknown
    → (b ≡ begun d false) × (same_request d p ≡ true) × (is_pending d.status ≡ false) × (e ≡ none)
judge_begun-settled p d e (not_begun why) h n = cc (answer-injective (settled-injective h)).0
judge_begun-settled p d e (begun a new) h n = elim (Bool-cases (same_request a p)) [
  | inr other ↦ cc (answer-injective (settled-injective (rw other at h))).0
  | inl same ↦ elim (Bool-cases new) [
    | inl t ↦ cc (rw (same, t) at h)
    | inr f ↦ elim (Bool-cases (is_pending a.status)) [
      | inl waits ↦
          absurd (n (sym (answer-injective (settled-injective (rw (same, f, waits) at h))).1))
      | inr done ↦
          let (ea, ee) = answer-injective (settled-injective (rw (same, f, done) at h)) in
          let ed = some-injective ea in
          rw f (
            ap (λ t. begun t false) ed,
            subst (λ t. same_request t p ≡ true) ed same,
            subst (λ t. is_pending t.status ≡ false) ed done,
            sym ee,
          )
    ]
  ]
]

pub go-injective : {p q : DeploymentAttempt} → go p ≡ go q → p ≡ q
go-injective h = cc

module _ (x : Externals) where
  pub proposed-valid_pending :
      (start now : ℕ) (id : Text) (c : DeployCommand)
      → valid_pending (proposed x start id c) ≡ true
      → 0 < now
      → valid_pending (proposed x now id c) ≡ true
  unfolding proposed valid_pending
  proposed-valid_pending start now id c h l =
      elim (Bool-cases (valid_identity (proposed x start id c))) [
        | inl i ↦ rw (i, lt→ltb 0 now l) refl
        | inr i ↦ cc (rw i at h)
      ]

  pub begin-row :
      (start : ℕ) (id : Text) (c : DeployCommand) (rows : Rows) (d : DeploymentAttempt)
      → 0 < start
      → (a : Answerable x id c rows d)
      → begin_attempt x.reread no_faults (proposed x start id c) rows ≡ (rows, begun d false)
  unfolding proposed
  begin-row start id c rows d l a =
      begin-present x.reread (proposed x start id c) rows a.row (a.proposable start l) a.present
      ∙ ap (λ t. (rows, begun t false)) a.scanned

  -- A settled row of the request is the answer to it.
  pub answered_from_row :
      (start end : ℕ) (id : Text) (c : DeployCommand) (w : World) (d : DeploymentAttempt)
      → 0 < start
      → Answerable x id c w.rows d
      → deploy x no_faults start end id c w ≡ (w, answer (some d) none)
  unfolding deploy claim
  answered_from_row start end id c w d l a =
      rw (a.fits, begin-row start id c w.rows d l a, a.same start, a.done) refl

  pub found-Answerable :
      (f : Faults) (start : ℕ) (id : Text) (c : DeployCommand) (rows : Rows) (d : DeploymentAttempt)
      (e : Option AttemptError)
      → (claim x f start id c rows).1 ≡ settled (answer (some d) e)
      → e ≢ some outcome_unknown
      → Answerable x id c (claim x f start id c rows).0 d
  unfolding claim proposed
  found-Answerable f start id c rows d e h n =
      elim (Bool-cases (not c.confirm || not (valid_attempt_id id))) [
        | inl bad ↦ cc (answer-injective (settled-injective (rw bad at h))).0
        | inr fits ↦
            let (eb, same, done, none_left) =
              judge_begun-settled (proposed x start id c) d e _ (rw fits at h) n in
            let (v, how) = begin-begun x.reread f (proposed x start id c) rows d false eb in
            elim how [
              | inl (r, present, next, scanned, old) ↦ record {
                fits = fits;
                row = r;
                present = rw (fits, next) present;
                scanned = sym scanned;
                same = λ now. same;
                done = done;
                proposable = λ now l. proposed-valid_pending start now id c v l;
              }
              | inr (absent, next, scanned, new) ↦ cc
            ]
      ]

  pub recorded-answer :
      (p q d : DeploymentAttempt) (why : Option Chain) (e : Option AttemptError)
      (o : Option JournalError)
      → recorded_answer p q why o ≡ answer (some d) e
      → e ≢ some outcome_unknown
      → (o ≡ none) × (q ≡ d)
  recorded-answer p q d why e none h n = (refl, some-injective (answer-injective h).0)
  recorded-answer p q d why e (some j) h n = absurd (n (sym (answer-injective h).1))
