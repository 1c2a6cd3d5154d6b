-- ===== src/Deploy/Service/Claims.antt =====
-- What claiming an identity and recording an outcome do to the rows.
use routevane.Common.{
  ℕ, ◌≤◌, ◌≡◌, refl, inl, inr, true, false, ◌&&◌, ◌||◌, not, Option, none, some, arith, Bool-cases,
}
use routevane.Common.Text.{Text}
use routevane.Common.Assoc.{get, put}
use routevane.Encoding.Hex.{valid_attempt_id}
use routevane.Deploy.Failure.{Chain}
use routevane.Deploy.Attempt.{DeployCommand, DeployResult, DeploymentAttempt}
use routevane.Deploy.Journal.{
  Row, Rows, Faults, Begun, begun, not_begun, pending_row, valid_pending,
}
use routevane.Deploy.Journal.Laws.{
  RowStep, same_row, claimed, settled_row, begin-RowStep, complete-RowStep, begin-begun,
}
use routevane.Deploy.Service.{
  Externals, AttemptError, go, claim, proposed, judge_begun, finish, unattended_begin,
  unattended_end, completed,
}

module _ (x : Externals) where
  pub claim-RowStep :
      (f : Faults) (now : ℕ) (id : Text) (c : DeployCommand) (rows : Rows) (j : Text)
      → RowStep (get j rows) (get j (claim x f now id c rows).0)
  unfolding claim
  claim-RowStep f now id c rows j = elim (Bool-cases (not c.confirm || not (valid_attempt_id id))) [
    | inl bad ↦ rw bad (same_row (get j rows))
    | inr fits ↦ rw fits (begin-RowStep x.reread f (proposed x now id c) rows j)
  ]

  pub unattended_begin-RowStep :
      (f : Faults) (now : ℕ) (id : Text) (c : DeployCommand) (rows : Rows) (j : Text)
      → RowStep (get j rows) (get j (unattended_begin x f now id c rows).0)
  unattended_begin-RowStep f now id c rows j =
      elim (Bool-cases (c.confirm && valid_attempt_id id)) [
        | inr bad ↦ rw bad (same_row (get j rows))
        | inl fits ↦ rw fits (begin-RowStep x.reread f (proposed x now id c) rows j)
      ]

  pub judge_begun-go :
      (p q : DeploymentAttempt) (b : Begun)
      → judge_begun p b ≡ go q
      → (a : DeploymentAttempt) × (b ≡ begun a true) × (q ≡ p)
  judge_begun-go p q (not_begun e) h = cc
  judge_begun-go p q (begun a true) h = (a, refl, ground arith)
  judge_begun-go p q (begun a false) h = ground arith

  -- A call that goes on to the device has found the identity absent and has claimed it.
  pub claim-go :
      (f : Faults) (now : ℕ) (id : Text) (c : DeployCommand) (rows : Rows) (p : DeploymentAttempt)
      → (claim x f now id c rows).1 ≡ go p
      → (p ≡ proposed x now id c)
        × (valid_pending (proposed x now id c) ≡ true)
        × (get id rows ≡ none)
        × ((claim x f now id c rows).0 ≡ put id (pending_row (proposed x now id c)) rows)
  unfolding claim proposed
  claim-go f now id c rows p h = elim (Bool-cases (not c.confirm || not (valid_attempt_id id))) [
    | inl bad ↦ cc (rw bad at h)
    | inr fits ↦
        let (a, e, same) = judge_begun-go (proposed x now id c) p _ (rw fits at h) in
        let (v, how) = begin-begun x.reread f (proposed x now id c) rows a true e in
        elim how [
          | inl (r, present, next, scanned, old) ↦ cc
          | inr (absent, next, scanned, new) ↦ rw fits (same, v, absent, next)
        ]
  ]

  pub finish-RowStep :
      (f : Faults) (now : ℕ) (p : DeploymentAttempt) (outcome : DeployResult × Option Chain)
      (rows : Rows) (j : Text)
      → RowStep (get j rows) (get j (finish x f now p outcome rows).0)
  unfolding finish
  finish-RowStep f now p outcome rows j = complete-RowStep f (completed x now p outcome) rows j

  pub unattended_end-RowStep :
      (f : Faults) (now : ℕ) (p : DeploymentAttempt) (outcome : DeployResult × Option Chain)
      (e : Option AttemptError) (rows : Rows) (j : Text)
      → RowStep (get j rows) (get j (unattended_end x f now p outcome e rows).0)
  unattended_end-RowStep f now p outcome (some e) rows j = same_row (get j rows)
  unattended_end-RowStep f now p outcome none rows j =
      complete-RowStep f (completed x now p outcome) rows j

-- An identity that is in the table stays there.
abbrev pub presence : Option Row → ℕ
presence none = 0
presence (some r) = 1

pub RowStep-presence : (o p : Option Row) → RowStep o p → presence o ≤ presence p
RowStep-presence o p (same_row q) = omega arith
RowStep-presence o p (claimed a) = omega arith
RowStep-presence o p (settled_row a r h k) = omega arith
