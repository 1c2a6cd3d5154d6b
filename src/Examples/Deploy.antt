-- ===== src/Examples/Deploy.antt =====
-- The theorems on deliveries, their journal and managed routes at concrete inputs.
use routevane.Common.{ap, ◌≡◌, ◌≢◌, ◌≤◌, refl, true, [], ◌∷◌, none, some, arith, count}
use routevane.Common.Text.{Text, codes, Text-discrete}
use routevane.Common.Assoc.{get, put, is_key}
use routevane.Encoding.Hex.{is_hex_id, valid_attempt_id, hex_decode, hex_encode, valid_hash}
use routevane.Deploy.Attempt.{
  Connection, DeployCommand, DeployResult, DeploymentAttempt, empty_result,
}
use routevane.Deploy.Journal.{
  no_faults, begin_attempt, complete_attempt, valid_pending, valid_completed, pending_row,
}
use routevane.Deploy.Journal.Laws.{RowStep}
use routevane.Deploy.Service.{
  Externals, World, deploy, answer, claim, go, proposed, completed, request_hash, finish,
  outcome_unknown, deploy_unattended,
}
use routevane.Deploy.Service.Machine.{
  Machine, machine, process, at_stage, answered, Reachable, start, next, begin, send, send_of, Step,
}
use routevane.Deploy.Service.Once.{deploy_once, sent_by, step-RowStep}
use routevane.Deploy.Service.Replay.{deploy-replay}
use routevane.Deploy.Service.Unattended.{deploy_unattended-SentOnce, SentOnce}

abbrev id : Text
id = codes "0123456789abcdef0123456789abcdef"

abbrev connection : Connection
connection = record {
  url = codes "http://192.168.1.1";
  username = codes "admin";
  password = [];
  interface_name = codes "Wireguard0";
}

abbrev command : DeployCommand
command = record {
  artifact_id = id;
  device_id = [];
  expected_connection = none;
  connection = connection;
  confirm = true;
  saved_device_id = [];
}

abbrev sent_result : DeployResult
sent_result = record (empty_result id) { applied = true }

abbrev services : Externals
services = record {
  sha256_hex = λ s. codes "0123456789abcdef0123456789abcdef0123456789abcdef0123456789abcdef";
  redacted_json = λ a b c d. a;
  reread = λ r. r;
  execute = λ sends c. (sent_result, none);
}

abbrev world : World
world = record { rows = []; sends = [] }

abbrev proposal : DeploymentAttempt
proposal = proposed services 5 id command

claimed_rows :
    claim services no_faults 5 id command [] ≡ ((id, pending_row proposal) ∷ [], go proposal)
unfolding claim begin_attempt proposed request_hash valid_attempt_id valid_pending is_hex_id
    valid_hash hex_decode hex_encode get put is_key Text-discrete
claimed_rows = refl

abbrev claimed_machine : Machine
claimed_machine =
    machine (claim services no_faults 5 id command []).0 []
      (process id proposal command true none ∷ [])

first_step : Step services (machine [] [] []) claimed_machine
first_step = begin no_faults 5 id command proposal [] [] [] (ap (λ t. t.1) claimed_rows)

sent_machine : Reachable services (
    machine claimed_machine.rows
      (send_of (process id proposal command true none) ∷ [])
      (at_stage (process id proposal command true none) (answered (sent_result, none)) ∷ []))
sent_machine =
    next claimed_machine _ (next (machine [] [] []) _ start first_step)
      (send claimed_machine.rows [] [] [] (process id proposal command true none) refl)

deploy_once_example : count (sent_by id) (send_of (process id proposal command true none) ∷ []) ≤ 1
deploy_once_example = deploy_once services id _ sent_machine

step-RowStep_example : RowStep (get id []) (get id claimed_machine.rows)
step-RowStep_example = step-RowStep services id (machine [] [] []) claimed_machine first_step

abbrev done : DeploymentAttempt
done = completed services 6 proposal (sent_result, none)

first_answer : (deploy services no_faults 5 6 id command world).1 ≡ answer (some done) none
unfolding deploy claim finish begin_attempt complete_attempt completed proposed request_hash
    valid_attempt_id valid_pending valid_completed is_hex_id valid_hash hex_decode hex_encode get
    put is_key Text-discrete
first_answer = refl

no_error : none ≢ some outcome_unknown
no_error h = cc

same_result : services.reread done.result ≡ done.result
same_result = refl

deploy-replay_example :
    deploy services no_faults 7 8 id command (deploy services no_faults 5 6 id command world).0
    ≡ ((deploy services no_faults 5 6 id command world).0, answer (some done) none)
deploy-replay_example =
    deploy-replay services no_faults 5 6 7 8 id command world done none first_answer no_error
      same_result (omega arith)

deploy_unattended-SentOnce_example :
    SentOnce services 6 id command world (deploy_unattended services no_faults 5 6 id command world)
deploy_unattended-SentOnce_example =
    deploy_unattended-SentOnce services no_faults 5 6 id command world
