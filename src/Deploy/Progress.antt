-- ===== src/Deploy/Progress.antt =====
-- What a step of a delivery leaves, and the parts that may end it.
use routevane.Common.{Bool, true, false, [], ◌∷◌, ◌++◌, Option, none, some, if◌then◌else◌}
use routevane.Common.Text.{Text}
use routevane.Deploy.Failure.{Chain}
use routevane.Deploy.Attempt.{DeployResult}
use routevane.Deploy.Calls.{Call, Calls}

pub record Progress : Type 0 where
  pub calls : Calls
  pub result : DeployResult

pub record Ended : Type 0 where
  pub progress : Progress
  pub error : Option Chain

abbrev pub stop : Progress → Chain → Ended
stop p e = record { progress = p; error = some e }

abbrev pub is_nil : Option Chain → Bool
is_nil none = true
is_nil (some e) = false

abbrev pub call : Call → Progress → Progress
call c p = record p { calls = c ∷ p.calls }

-- `record(step, ...)`
abbrev pub audit : Text → Option Chain → Text → Progress → Progress
audit step e detail p = record p {
  result = record (p.result) {
    events = p.result.events ++ record { step = step; succeeded = is_nil e; detail = detail } ∷ [];
  };
}

-- The outcome of a part that may end the delivery.
pub data Part (V : Type 0) : Type 0 where
  ended : Ended → Part V
  go_on : Progress → V → Part V

infixl 4 ◌>>=◌
unfoldable pub ◌>>=◌ : {V W : Type 0} → Part V → (Progress → V → Part W) → Part W
ended e >>= f = ended e
go_on p v >>= f = f p v

unfoldable pub refuse_if : {V : Type 0} → Progress → Bool → Chain → V → Part V
refuse_if p bad e v = if bad then ended (stop p e) else go_on p v

unfoldable pub fail_on : {V : Type 0} → Progress → Option Chain → (Chain → Chain) → V → Part V
fail_on p none wrap v = go_on p v
fail_on p (some e) wrap v = ended (stop p (wrap e))
