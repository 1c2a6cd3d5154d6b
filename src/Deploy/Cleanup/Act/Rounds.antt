-- ===== src/Deploy/Cleanup/Act/Rounds.antt =====
-- The round of previews of a cleanup, and its round of removals.
use routevane.Common.{
  ap, ◌≡◌, refl, sym, ◌∙◌, subst, Bool, true, false, List, [], ◌∷◌, ◌++◌, Option, none, some, all,
  Option-cases, inl, inr,
}
use mathlib.Core.List.{append-nil, append_assoc}
use routevane.Deploy.Failure.{Chain}
use routevane.Deploy.Attempt.{succeeded}
use routevane.Deploy.Calls.{DeployerRegistry, RemovalRequest}
use routevane.Deploy.Progress.{Progress, Ended, Part}
use routevane.Deploy.Prepare.Quiet.{QuietPart, fails, goes_on, is_quiet}
use routevane.Deploy.Surface.{Removal}
use routevane.Deploy.Surface.Quiet.{prepare_removal-QuietPart}
use routevane.Deploy.Removal.{removal_start, remove_from_device}
use routevane.Deploy.Delivery.{Answered, refused, found}
use routevane.Common.Text.{Text}
use routevane.Deploy.Cleanup.{DeviceObjects, DeviceCleanupAttempt, History, DeviceCleanupConfig}
use routevane.Deploy.Cleanup.Act.{
  previewed, preview_removal, Planned, CleanupOutcome, cleaned, stopped, Cleanup, cleanup, joined,
  Attempted, not_begun, made, attempt_at, ask, act, request_at, preview_at, removal_at,
  completed_attempt, proposed_attempt, attempt_begun, attempt_named, status_of,
}

-- A run that changes neither a device nor a ledger.
abbrev pub reads_only : Ended → Bool
reads_only e = all is_quiet e.progress.calls

abbrev pub is_cleaned : CleanupOutcome → Bool
is_cleaned cleaned = true
is_cleaned _ = false

-- The request that stands for a planned removal: its surface, its connection, and the ledgers.
pub record RequestFor (w : DeviceCleanupConfig) (h : History) (p : Planned) (r : RemovalRequest)
    : Type 0 where
  pub target : r.target ≡ p.entry.target
  pub connection : r.connection ≡ p.connection
  pub output : r.output_id ≡ p.entry.objects.output_id
  pub routes : r.managed_routes ≡ some (w.managed_routes h)
  pub groups : r.managed_fqdn ≡ some (w.managed_fqdn h)

request-RequestFor :
    (w : DeviceCleanupConfig) (h : History) (p : Planned) → RequestFor w h p (request_at w h p)
request-RequestFor w h p = record {
  target = refl;
  connection = refl;
  output = refl;
  routes = refl;
  groups = refl;
}

-- One preview of each planned removal, in their order and without an error: the history before, and
-- the one after.
pub data Previews (w : DeviceCleanupConfig) : History → List Planned → History → Type 0 where
  none_left : (h : History) → Previews w h [] h
  next_preview :
      (h after : History) (p : Planned) (ps : List Planned) (r : RemovalRequest) (e : Ended)
      → RequestFor w h p r
      → e ≡ preview_removal r (w.deployers h p.connection)
      → e.error ≡ none
      → Previews w (e ∷ h) ps after
      → Previews w h (p ∷ ps) after

previewed-quiet :
    {Q : Progress → Removal → Type 0} (part : Part Removal)
    → QuietPart Q part
    → reads_only (previewed part) ≡ true
previewed-quiet part (fails e h) = h.0.0
previewed-quiet part (goes_on p v h q) = h.0

preview_quiet :
    (r : RemovalRequest) (d : DeployerRegistry) → reads_only (preview_removal r d) ≡ true
unfolding preview_removal
preview_quiet r d =
    previewed-quiet _ (prepare_removal-QuietPart r d removal_start (refl, refl, refl))

-- What the previews have added to the history.
pub record Asked (w : DeviceCleanupConfig) (h : History) (ps : List Planned)
    (r : History × Option (DeviceObjects × Chain)) : Type 0 where
  pub quiet : all reads_only h ≡ true → all reads_only r.0 ≡ true
  pub passed : r.1 ≡ none → Previews w h ps r.0

pub ask-Asked :
    (w : DeviceCleanupConfig) (h : History) (ps : List Planned) → Asked w h ps (ask w h ps)
unfolding ask
ask-Asked w h [] = record { quiet = λ q. q; passed = λ n. none_left h }
ask-Asked w h (p ∷ ps) =
    let e = preview_at w h p in
    let silent : reads_only e ≡ true =
      preview_quiet (request_at w h p) (w.deployers h p.connection) in
    let rest = ask-Asked w (e ∷ h) ps in
    elim (Option-cases e.error) [
      | inr (why, f) ↦ rw (f, ask) record { quiet = λ q. rw (silent, q) refl; passed = λ n. cc }
      | inl f ↦
          rw (f, ask)
            record {
              quiet = λ q. rest.quiet (rw (silent, q) refl);
              passed = λ n.
                  next_preview h _ p ps (request_at w h p) e (request-RequestFor w h p) refl f
                    (rest.passed n);
            }
    ]

-- The removal of a planned surface without an error, and the attempt that records it.
pub record Done (w : DeviceCleanupConfig) (h : History) (p : Planned) (e : Ended)
    (a : DeviceCleanupAttempt) : Type 0 where
  pub request : RemovalRequest
  pub requested : RequestFor w h p request
  pub run : e ≡ remove_from_device request (w.deployers h p.connection) (w.backups h)
  pub no_error : e.error ≡ none
  pub output : a.output_id ≡ p.entry.objects.output_id
  pub device : a.device_id ≡ p.entry.device.id
  pub endpoint : a.endpoint ≡ p.entry.objects.endpoint
  pub result : a.result ≡ e.progress.result
  pub status : a.status ≡ succeeded

-- One removal of each planned surface, in their order: the history before and after, and the attempts.
pub data Removals (w : DeviceCleanupConfig)
    : History → List Planned → History → List DeviceCleanupAttempt → Type 0 where
  all_removed : (h : History) → Removals w h [] h []
  next_removal :
      (h after : History) (p : Planned) (ps : List Planned) (e : Ended) (a : DeviceCleanupAttempt)
      (attempts : List DeviceCleanupAttempt)
      → Done w h p e a
      → Removals w (e ∷ h) ps after attempts
      → Removals w h (p ∷ ps) after (a ∷ attempts)

-- What the removals have added to the history, and the attempts of a cleanup that has gone through.
pub record Acted (w : DeviceCleanupConfig) (h : History) (prior : List DeviceCleanupAttempt)
    (ps : List Planned) (c : Cleanup) : Type 0 where
  pub removals : History
  pub before : c.history ≡ removals ++ h
  pub done :
      is_cleaned c.outcome ≡ true
      → (attempts : List DeviceCleanupAttempt) × (c.attempts ≡ prior ++ attempts)
        × Removals w h ps c.history attempts

joined-none : (e f : Option Chain) → joined e f ≡ none → e ≡ none
joined-none none f h = refl
joined-none (some e) none h = cc
joined-none (some e) (some f) h = cc

made-injective :
    (e f : Ended) (a b : DeviceCleanupAttempt) (x y : Option Chain)
    → made e a x ≡ made f b y
    → (e ≡ f) × (a ≡ b) × (x ≡ y)
made-injective e f a b x y h = (cc, cc, cc)

completed-Done :
    (w : DeviceCleanupConfig) (h : History) (id : Text) (p : Planned)
    → (removal_at w h p).error ≡ none
    → Done w h p
        (removal_at w h p)
        (completed_attempt w h (removal_at w h p) (proposed_attempt w h id p))
completed-Done w h id p n = record {
  request = request_at w h p;
  requested = request-RequestFor w h p;
  run = refl;
  no_error = n;
  output = refl;
  device = refl;
  endpoint = refl;
  result = refl;
  status = ap status_of n;
}

begun-Done :
    (w : DeviceCleanupConfig) (h : History) (prior : List DeviceCleanupAttempt) (p : Planned)
    (id : Text) (e : Ended) (a : DeviceCleanupAttempt) (f : Option Chain)
    → attempt_begun w h prior p (proposed_attempt w h id p) f ≡ made e a none
    → Done w h p e a
begun-Done w h prior p id e a (some why) m = cc
begun-Done w h prior p id e a none m =
    let d = removal_at w h p in
    let (run, same, n) =
      made-injective d e (completed_attempt w h d (proposed_attempt w h id p)) a _ none m in
    subst (λ k. Done w h p k a) run
      (subst (Done w h p d) same (completed-Done w h id p (joined-none d.error _ n)))

named-Done :
    (w : DeviceCleanupConfig) (h : History) (prior : List DeviceCleanupAttempt) (p : Planned)
    (e : Ended) (a : DeviceCleanupAttempt) (x : Answered Text)
    → attempt_named w h prior p x ≡ made e a none
    → Done w h p e a
named-Done w h prior p e a (refused why) m = cc
named-Done w h prior p e a (found id) m =
    begun-Done w h prior p id e a (w.begin prior (proposed_attempt w h id p)) m

-- An attempt without an error has removed its surface.
attempt-Done :
    (w : DeviceCleanupConfig) (h : History) (prior : List DeviceCleanupAttempt) (p : Planned)
    (e : Ended) (a : DeviceCleanupAttempt)
    → attempt_at w h prior p ≡ made e a none
    → Done w h p e a
unfolding attempt_at
attempt-Done w h prior p e a m = named-Done w h prior p e a (w.random_id h) m

-- The rest of the removals, after an attempt.
abbrev next_act :
    (w : DeviceCleanupConfig)
    → History
    → List DeviceCleanupAttempt
    → Planned
    → List Planned
    → Attempted
    → Cleanup
next_act w h prior p ps (not_begun why) = cleanup h prior (stopped p.entry.objects why)
next_act w h prior p ps (made e a (some why)) =
    cleanup (e ∷ h) (prior ++ a ∷ []) (stopped p.entry.objects why)
next_act w h prior p ps (made e a none) = act w (e ∷ h) (prior ++ a ∷ []) ps

next-Acted :
    (w : DeviceCleanupConfig) (h : History) (prior : List DeviceCleanupAttempt) (p : Planned)
    (ps : List Planned) (t : Attempted)
    → attempt_at w h prior p ≡ t
    → ((k : History) (bs : List DeviceCleanupAttempt) → Acted w k bs ps (act w k bs ps))
    → Acted w h prior (p ∷ ps) (next_act w h prior p ps t)
next-Acted w h prior p ps (not_begun why) m f = record {
  removals = [];
  before = refl;
  done = λ i. cc;
}
next-Acted w h prior p ps (made e a (some why)) m f = record {
  removals = e ∷ [];
  before = refl;
  done = λ i. cc;
}
next-Acted w h prior p ps (made e a none) m f =
    let rest = f (e ∷ h) (prior ++ a ∷ []) in
    record {
      removals = rest.removals ++ e ∷ [];
      before = rest.before ∙ sym (append_assoc rest.removals (e ∷ []) h);
      done = λ i.
          let (attempts, same, all_of) = rest.done i in
          (
            a ∷ attempts,
            same ∙ append_assoc prior (a ∷ []) attempts,
            next_removal h _ p ps e a attempts (attempt-Done w h prior p e a m) all_of,
          );
    }

pub act-Acted :
    (w : DeviceCleanupConfig) (h : History) (prior : List DeviceCleanupAttempt) (ps : List Planned)
    → Acted w h prior ps (act w h prior ps)
unfolding act
act-Acted w h prior [] = record {
  removals = [];
  before = refl;
  done = λ i. ([], sym (append-nil prior), all_removed h);
}
act-Acted w h prior (p ∷ ps) =
    next-Acted w h prior p ps (attempt_at w h prior p) refl (λ k bs. act-Acted w k bs ps)
