-- ===== src/Deploy/Service/Once.antt =====
-- An attended identity reaches the device once, and a settled row is never changed.
use routevane.Common.{
  ℕ, ◌+◌, ◌≤◌, ◌≡◌, refl, sym, subst, ap, some-injective, Bool, true, false, ◌&&◌, ◌∷◌, Option,
  none, some, arith, if◌then◌else◌, count, count-append,
}
use routevane.Common.Text.{Text, text_eq}
use routevane.Common.Assoc.{get, text_eq_sound}
use routevane.Deploy.Attempt.{DeploymentAttempt, DeployCommand, is_pending}
use routevane.Deploy.Journal.{Row, Rows, Faults, pending_row}
use routevane.Deploy.Journal.Laws.{RowStep, same_row, claimed, settled_row, get-put_same}
use routevane.Deploy.Service.{Externals, Send, proposed, claim, go}
use routevane.Deploy.Service.Claims.{
  claim-RowStep, claim-go, finish-RowStep, unattended_begin-RowStep, unattended_end-RowStep,
  presence, RowStep-presence,
}
use routevane.Deploy.Service.Machine.{
  Stage, ready, answered, Process, Machine, at_stage, send_of, Step, begin, answer_at_once,
  begin_unattended, send, record_outcome, record_unattended, die, Reachable, start, next, Run, stop,
  more,
}

abbrev pub sent_by : Text → Send → Bool
sent_by j s = s.attended && text_eq s.attempt_id j

abbrev is_ready : Stage → Bool
is_ready ready = true
is_ready (answered o) = false

abbrev will_send : Text → Process → Bool
will_send j p = is_ready p.stage && sent_by j (send_of p)

-- The sends of an identity, made and still to make.
abbrev weight : Text → Machine → ℕ
weight j m = count (sent_by j) m.sends + count (will_send j) m.active

module _ (x : Externals) where
  -- Each step of the processes is, for each identity, a step of the life of its row: it stays, or it
  -- is absent and becomes the pending row of an attempt, or it is pending and is settled for good.
  pub step-RowStep : (j : Text) (m n : Machine) → Step x m n → RowStep (get j m.rows) (get j n.rows)
  step-RowStep j m n (begin f now id c p rows sends ps h) = claim-RowStep x f now id c rows j
  step-RowStep j m n (answer_at_once f now id c a rows sends ps h) =
      claim-RowStep x f now id c rows j
  step-RowStep j m n (begin_unattended f now id c rows sends ps) =
      unattended_begin-RowStep x f now id c rows j
  step-RowStep j m n (send rows sends ps qs p h) = same_row (get j rows)
  step-RowStep j m n (record_outcome f now rows sends ps qs p o h k) =
      finish-RowStep x f now p.proposal o rows j
  step-RowStep j m n (record_unattended f now rows sends ps qs p o h k) =
      unattended_end-RowStep x f now p.proposal o p.fault rows j
  step-RowStep j m n (die rows sends ps qs p) = same_row (get j rows)

  begin-weight :
      (j id : Text) (b : Bool) (before after : Option Row)
      → text_eq id j ≡ b
      → RowStep before after
      → (id ≡ j → (presence before ≡ 0) × (presence after ≡ 1))
      → (if b then 1 else 0) + presence before ≤ presence after
  begin-weight j id true before after e s f = let (h, k) = f (text_eq_sound id j e) in omega arith
  begin-weight j id false before after e s f = omega (arith, RowStep-presence before after s)

  -- A process that goes on to the device has made its row.
  claimed-presence :
      (f : Faults) (now : ℕ) (id : Text) (c : DeployCommand) (p : DeploymentAttempt) (rows : Rows)
      (j : Text)
      → (claim x f now id c rows).1 ≡ go p
      → id ≡ j
      → (presence (get j rows) ≡ 0) × (presence (get j (claim x f now id c rows).0) ≡ 1)
  claimed-presence f now id c p rows j h e =
      let (same, v, absent, after) = claim-go x f now id c rows p h in
      (
        ap presence (subst (λ k. get k rows ≡ none) e absent),
        rw (after, sym e, get-put_same id (pending_row (proposed x now id c)) rows) refl,
      )

  step-weight :
      (j : Text) (m n : Machine)
      → Step x m n
      → weight j n + presence (get j m.rows) ≤ weight j m + presence (get j n.rows)
  step-weight j m n (begin f now id c p rows sends ps h) = omega (
    arith,
    begin-weight j id _ (get j rows) (get j (claim x f now id c rows).0) refl
        (claim-RowStep x f now id c rows j) (claimed-presence f now id c p rows j h),
  )
  step-weight j m n (answer_at_once f now id c a rows sends ps h) =
      omega (arith, RowStep-presence _ _ (claim-RowStep x f now id c rows j))
  step-weight j m n (begin_unattended f now id c rows sends ps) =
      omega (arith, RowStep-presence _ _ (unattended_begin-RowStep x f now id c rows j))
  step-weight j m n (send rows sends ps qs p h) = ground (
    arith,
    count-append (will_send j) ps (p ∷ qs),
    count-append (will_send j) ps (at_stage p (answered (x.execute sends p.command)) ∷ qs),
  )
  step-weight j m n (record_outcome f now rows sends ps qs p o h k) = omega (
    arith,
    count-append (will_send j) ps (p ∷ qs),
    count-append (will_send j) ps qs,
    RowStep-presence _ _ (finish-RowStep x f now p.proposal o rows j),
  )
  step-weight j m n (record_unattended f now rows sends ps qs p o h k) = omega (
    arith,
    count-append (will_send j) ps (p ∷ qs),
    count-append (will_send j) ps qs,
    RowStep-presence _ _ (unattended_end-RowStep x f now p.proposal o p.fault rows j),
  )
  step-weight j m n (die rows sends ps qs p) =
      omega (arith, count-append (will_send j) ps (p ∷ qs), count-append (will_send j) ps qs)

  reachable-weight : (j : Text) (m : Machine) → Reachable x m → weight j m ≤ presence (get j m.rows)
  unfolding get
  reachable-weight j m start = omega arith
  reachable-weight j m (next l n r s) = omega (arith, step-weight j l n s, reachable-weight j l r)

  presence-at-most : (o : Option Row) → presence o ≤ 1
  presence-at-most none = omega arith
  presence-at-most (some r) = omega arith

  -- However the calls of several processes interleave, whatever statements of the journal fail and
  -- wherever processes end, the calls of `Deploy` with one identity reach the device once at most.
  pub deploy_once : (j : Text) (m : Machine) → Reachable x m → count (sent_by j) m.sends ≤ 1
  deploy_once j m r = omega (arith, reachable-weight j m r, presence-at-most (get j m.rows))

  settled-step :
      (o p : Option Row) (r : Row)
      → RowStep o p
      → o ≡ some r
      → is_pending r.status ≡ false
      → p ≡ some r
  settled-step o p r (same_row q) e h = e
  settled-step o p r (claimed a) e h = cc
  settled-step o p r (settled_row a s u v) e h =
      cc (ap is_pending (ap (λ t. t.status) (some-injective e)))

  -- Whatever steps follow, the row of a settled attempt stays as it is.
  pub settled_rows_stay :
      (j : Text) (r : Row) (m n : Machine)
      → get j m.rows ≡ some r
      → is_pending r.status ≡ false
      → Run x m n
      → get j n.rows ≡ some r
  settled_rows_stay j r m n e h (stop l) = e
  settled_rows_stay j r m n e h (more k l i s run) =
      settled_rows_stay j r l i (settled-step _ _ r (step-RowStep j k l s) e h) h run
