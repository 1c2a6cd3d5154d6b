-- ===== src/Deploy/Service/Replay.antt =====
-- A confirmed request that is sent again is answered from its record.
use routevane.Common.{
  ℕ, ◌<◌, ◌≡◌, ◌≢◌, refl, sym, subst, ap, ◌∙◌, inl, inr, true, false, ◌||◌, not, Option, none, some,
  Bool-cases, some-injective,
}
use routevane.Common.Text.{Text}
use routevane.Common.Assoc.{get, put, text_eq_complete}
use routevane.Encoding.Hex.{valid_attempt_id}
use routevane.Deploy.Failure.{Chain}
use routevane.Deploy.Attempt.{DeployCommand, DeployResult, DeploymentAttempt, is_pending}
use routevane.Deploy.Journal.{Rows, Faults, no_faults, pending_row, completed_row, scan_attempt}
use routevane.Deploy.Journal.Laws.{complete-settled, get-put_same}
use routevane.Deploy.Service.{
  Externals, World, AttemptError, outcome_unknown, Answer, answer, Claim, go, settled, claim,
  proposed, completed, same_request, finish, sent, proceed, deploy, request_hash, outcome_status,
}
use routevane.Deploy.Service.Claims.{claim-go}
use routevane.Deploy.Service.Answerable.{
  Answerable, Claim-cases, settled-injective, go-injective, proposed-valid_pending,
  answered_from_row, found-Answerable, recorded-answer,
}

module _ (x : Externals) where
  scanned_record :
      (start end : ℕ) (id : Text) (c : DeployCommand) (outcome : DeployResult × Option Chain)
      → x.reread (completed x end (proposed x start id c) outcome).result
        ≡ (completed x end (proposed x start id c) outcome).result
      → scan_attempt x.reread id (
          completed_row
            (completed x end (proposed x start id c) outcome)
            (pending_row (proposed x start id c)))
        ≡ completed x end (proposed x start id c) outcome
  unfolding completed proposed
  scanned_record start end id c outcome j = rw j refl

  completed-same :
      (start end now : ℕ) (id : Text) (c : DeployCommand) (outcome : DeployResult × Option Chain)
      → same_request (completed x end (proposed x start id c) outcome) (proposed x now id c) ≡ true
  unfolding completed proposed
  completed-same start end now id c outcome =
      rw
        (
          text_eq_complete c.artifact_id c.artifact_id refl,
          text_eq_complete c.saved_device_id c.saved_device_id refl,
          text_eq_complete (request_hash x c) (request_hash x c) refl,
        )
        refl

  outcome-settled : (why : Option Chain) → is_pending (outcome_status why) ≡ false
  outcome-settled none = refl
  outcome-settled (some chain) = refl

  completed-id :
      (start end : ℕ) (id : Text) (c : DeployCommand) (outcome : DeployResult × Option Chain)
      → (completed x end (proposed x start id c) outcome).id ≡ id
  unfolding completed proposed
  completed-id start end id c outcome = refl

  completed-done :
      (start end : ℕ) (id : Text) (c : DeployCommand) (outcome : DeployResult × Option Chain)
      → is_pending (completed x end (proposed x start id c) outcome).status ≡ false
  unfolding completed
  completed-done start end id c outcome = outcome-settled outcome.1

  claim-fits :
      (f : Faults) (start : ℕ) (id : Text) (c : DeployCommand) (rows : Rows) (p : DeploymentAttempt)
      → (claim x f start id c rows).1 ≡ go p
      → (not c.confirm || not (valid_attempt_id id)) ≡ false
  unfolding claim
  claim-fits f start id c rows p h =
      elim (Bool-cases (not c.confirm || not (valid_attempt_id id))) [
        | inl bad ↦ cc (rw bad at h)
        | inr fits ↦ fits
      ]

  sent-proposed :
      (f g : Faults) (start end : ℕ) (id : Text) (c : DeployCommand) (rows : Rows)
      (p d : DeploymentAttempt) (outcome : DeployResult × Option Chain) (e : Option AttemptError)
      → (claim x f start id c rows).1 ≡ go p
      → (finish x g end (proposed x start id c) outcome (claim x f start id c rows).0).1
        ≡ answer (some d) e
      → e ≢ some outcome_unknown
      → x.reread d.result ≡ d.result
      → Answerable x id c
          (finish x g end (proposed x start id c) outcome (claim x f start id c rows).0).0
          d
  unfolding finish
  sent-proposed f g start end id c rows p d outcome e h k n j =
      let a = completed x end (proposed x start id c) outcome in
      let (same, v, absent, after) = claim-go x f start id c rows p h in
      let (fine, ed) = recorded-answer x (proposed x start id c) a d outcome.1 e _ k n in
      let (r, present, identity, settled_to) = complete-settled g a _ fine in
      let er = some-injective (
        sym (
          subst (λ q. get q (claim x f start id c rows).0 ≡ some r)
            (completed-id start end id c outcome) present)
        ∙ ap (get id) after
        ∙ get-put_same id (pending_row (proposed x start id c)) rows) in
      record {
        fits = claim-fits f start id c rows p h;
        row = completed_row a (pending_row (proposed x start id c));
        present =
            ap (get id) settled_to
            ∙ ap (λ q. get id (put q (completed_row a r) (claim x f start id c rows).0))
                (completed-id start end id c outcome)
            ∙ get-put_same id (completed_row a r) _
            ∙ ap (λ q. some (completed_row a q)) er;
        scanned =
            scanned_record start end id c outcome
              (subst (λ q. x.reread q.result ≡ q.result) (sym ed) j)
            ∙ ed;
        same = λ now.
            subst (λ q. same_request q (proposed x now id c) ≡ true) ed
              (completed-same start end now id c outcome);
        done = subst (λ q. is_pending q.status ≡ false) ed (completed-done start end id c outcome);
        proposable = λ now l. proposed-valid_pending x start now id c v l;
      }

  sent-Answerable :
      (f g : Faults) (start end : ℕ) (id : Text) (c : DeployCommand) (rows : Rows)
      (p d : DeploymentAttempt) (outcome : DeployResult × Option Chain) (e : Option AttemptError)
      → (claim x f start id c rows).1 ≡ go p
      → (finish x g end p outcome (claim x f start id c rows).0).1 ≡ answer (some d) e
      → e ≢ some outcome_unknown
      → x.reread d.result ≡ d.result
      → Answerable x id c (finish x g end p outcome (claim x f start id c rows).0).0 d
  sent-Answerable f g start end id c rows p d outcome e h k n j =
      let same = (claim-go x f start id c rows p h).0 in
      subst (λ q. Answerable x id c (finish x g end q outcome (claim x f start id c rows).0).0 d)
        (sym same)
        (sent-proposed f g start end id c rows p d outcome e h
          (subst
            (λ q. (finish x g end q outcome (claim x f start id c rows).0).1 ≡ answer (some d) e)
            same k)
          n j)

  settled-proceed :
      (f : Faults) (end : ℕ) (id : Text) (c : DeployCommand) (w : World) (q : Rows × Claim)
      (a : Answer)
      → q.1 ≡ settled a
      → proceed x f end id c w q ≡ (record w { rows = q.0 }, a)
  settled-proceed f end id c w (rows, settled b) a h =
      ap (λ t. (record w { rows = rows }, t)) (settled-injective h)
  settled-proceed f end id c w (rows, go p) a h = cc

  go-proceed :
      (f : Faults) (end : ℕ) (id : Text) (c : DeployCommand) (w : World) (q : Rows × Claim)
      (p : DeploymentAttempt)
      → q.1 ≡ go p
      → proceed x f end id c w q ≡ (
        sent id c true w (finish x f end p (x.execute w.sends c) q.0).0,
        (finish x f end p (x.execute w.sends c) q.0).1,
      )
  go-proceed f end id c w (rows, settled b) p h = cc
  go-proceed f end id c w (rows, go q) p h =
      subst
        (λ t. proceed x f end id c w (rows, go q) ≡ (
          sent id c true w (finish x f end t (x.execute w.sends c) rows).0,
          (finish x f end t (x.execute w.sends c) rows).1,
        ))
        (go-injective h) refl

  -- What an answer other than an unknown outcome leaves behind.
  deploy-Answerable :
      (f : Faults) (start end : ℕ) (id : Text) (c : DeployCommand) (w : World)
      (d : DeploymentAttempt) (e : Option AttemptError)
      → (deploy x f start end id c w).1 ≡ answer (some d) e
      → e ≢ some outcome_unknown
      → x.reread d.result ≡ d.result
      → Answerable x id c (deploy x f start end id c w).0.rows d
  unfolding deploy
  deploy-Answerable f start end id c w d e h n j =
      elim (Claim-cases (claim x f start id c w.rows).1) [
        | inl (a, k) ↦
            let same = settled-proceed f end id c w (claim x f start id c w.rows) a k in
            subst (λ t. Answerable x id c t.0.rows d) (sym same)
              (found-Answerable x f start id c w.rows d e
                (k ∙ ap settled (subst (λ t. t.1 ≡ answer (some d) e) same h)) n)
        | inr (p, k) ↦
            let same = go-proceed f end id c w (claim x f start id c w.rows) p k in
            subst (λ t. Answerable x id c t.0.rows d) (sym same)
              (sent-Answerable f f start end id c w.rows p d (x.execute w.sends c) e k
                (subst (λ t. t.1 ≡ answer (some d) e) same h) n j)
      ]

  -- After an answer with an attempt, other than an unknown outcome, the same request under the
  -- same identity is answered with that attempt again, where its result reads back from the
  -- journal: nothing is sent, and the journal stays as it is.
  pub deploy-replay :
      (f : Faults) (start end later last : ℕ) (id : Text) (c : DeployCommand) (w : World)
      (d : DeploymentAttempt) (e : Option AttemptError)
      → (deploy x f start end id c w).1 ≡ answer (some d) e
      → e ≢ some outcome_unknown
      → x.reread d.result ≡ d.result
      → 0 < later
      → deploy x no_faults later last id c (deploy x f start end id c w).0
        ≡ ((deploy x f start end id c w).0, answer (some d) none)
  deploy-replay f start end later last id c w d e h n j l =
      answered_from_row x later last id c (deploy x f start end id c w).0 d l
        (deploy-Answerable f start end id c w d e h n j)
