-- ===== src/Deploy/Service/Machine.antt =====
-- The calls of `Deploy` and `DeployUnattended` of several processes on one journal, one step at a
-- time; a process may end at any point.
use routevane.Common.{ℕ, Bool, true, false, List, [], ◌∷◌, ◌++◌, Option, none, ◌≡◌}
use routevane.Common.Text.{Text}
use routevane.Deploy.Failure.{Chain}
use routevane.Deploy.Attempt.{DeployCommand, DeployResult, DeploymentAttempt}
use routevane.Deploy.Journal.{Rows, Faults}
use routevane.Deploy.Service.{
  Externals, Send, AttemptError, Answer, go, settled, claim, finish, unattended_begin,
  unattended_end, proposed,
}

-- Before the call of the deployment service, or with its answer.
pub data Stage : Type 0 where
  ready : Stage
  answered : DeployResult × Option Chain → Stage

-- `fault` is the journal's fault so far of an unattended call.
pub record Process : Type 0 where
  pub id : Text
  pub proposal : DeploymentAttempt
  pub command : DeployCommand
  pub attended : Bool
  pub fault : Option AttemptError
  pub stage : Stage

pub record Machine : Type 0 where
  pub rows : Rows
  pub sends : List Send
  pub active : List Process

abbrev pub machine : Rows → List Send → List Process → Machine
machine rows sends active = record { rows = rows; sends = sends; active = active }

abbrev pub at_stage : Process → Stage → Process
at_stage p s = record p { stage = s }

abbrev pub send_of : Process → Send
send_of p = record { attempt_id = p.id; command = p.command; attended = p.attended }

abbrev pub process : Text → DeploymentAttempt → DeployCommand → Bool → Option AttemptError → Process
process id p c attended fault = record {
  id = id;
  proposal = p;
  command = c;
  attended = attended;
  fault = fault;
  stage = ready;
}

module _ (x : Externals) where
  pub data Step : Machine → Machine → Type 0 where
    begin :
        (f : Faults) (now : ℕ) (id : Text) (c : DeployCommand) (p : DeploymentAttempt) (rows : Rows)
        (sends : List Send) (ps : List Process)
        → (claim x f now id c rows).1 ≡ go p
        → Step
            (machine rows sends ps)
            (machine (claim x f now id c rows).0 sends (process id p c true none ∷ ps))
    answer_at_once :
        (f : Faults) (now : ℕ) (id : Text) (c : DeployCommand) (a : Answer) (rows : Rows)
        (sends : List Send) (ps : List Process)
        → (claim x f now id c rows).1 ≡ settled a
        → Step (machine rows sends ps) (machine (claim x f now id c rows).0 sends ps)
    begin_unattended :
        (f : Faults) (now : ℕ) (id : Text) (c : DeployCommand) (rows : Rows) (sends : List Send)
        (ps : List Process)
        → Step (machine rows sends ps) (
            machine (unattended_begin x f now id c rows).0 sends (
              process id (proposed x now id c) c false (unattended_begin x f now id c rows).1 ∷ ps))
    send :
        (rows : Rows) (sends : List Send) (ps qs : List Process) (p : Process)
        → p.stage ≡ ready
        → Step (machine rows sends (ps ++ p ∷ qs)) (
            machine rows
              (send_of p ∷ sends)
              (ps ++ at_stage p (answered (x.execute sends p.command)) ∷ qs))
    record_outcome :
        (f : Faults) (now : ℕ) (rows : Rows) (sends : List Send) (ps qs : List Process)
        (p : Process) (outcome : DeployResult × Option Chain)
        → p.attended ≡ true
        → p.stage ≡ answered outcome
        → Step
            (machine rows sends (ps ++ p ∷ qs))
            (machine (finish x f now p.proposal outcome rows).0 sends (ps ++ qs))
    record_unattended :
        (f : Faults) (now : ℕ) (rows : Rows) (sends : List Send) (ps qs : List Process)
        (p : Process) (outcome : DeployResult × Option Chain)
        → p.attended ≡ false
        → p.stage ≡ answered outcome
        → Step
            (machine rows sends (ps ++ p ∷ qs))
            (machine (unattended_end x f now p.proposal outcome p.fault rows).0 sends (ps ++ qs))
    die :
        (rows : Rows) (sends : List Send) (ps qs : List Process) (p : Process)
        → Step (machine rows sends (ps ++ p ∷ qs)) (machine rows sends (ps ++ qs))

  pub data Reachable : Machine → Type 0 where
    start : Reachable (machine [] [] [])
    next : (m n : Machine) → Reachable m → Step m n → Reachable n

  -- Steps from a state on.
  pub data Run : Machine → Machine → Type 0 where
    stop : (m : Machine) → Run m m
    more : (m n k : Machine) → Step m n → Run n k → Run m k
