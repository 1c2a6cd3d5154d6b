-- ===== src/Application/Gate/Exclusive.antt =====
-- The gate lets one client in at a time, and a client that has the token never waits to return it.
use routevane.Common.{ℕ, ◌+◌, ◌≡◌, refl, ◌∙◌, Bool, true, false, List, [], ◌∷◌, ◌++◌, arith}
use routevane.Application.Gate.{
  Phase, waiting, checking, holding, released, refused, DeliveryGate, at_gate, Step, call,
  call_canceled, receive, give_up, pass, put_back, release, release_again, Reachable, start, next,
}

abbrev pub has_token : Phase → Bool
has_token checking = true
has_token holding = true
has_token _ = false

abbrev weight : Phase → ℕ
weight p = elim (has_token p) [ true ↦ 1 | false ↦ 0 ]

weight-has_token : (p : Phase) → has_token p ≡ true → weight p ≡ 1
weight-has_token checking h = refl
weight-has_token holding h = refl
weight-has_token waiting h = cc
weight-has_token released h = cc
weight-has_token refused h = cc

-- How many clients have a token.
abbrev pub owners : List Phase → ℕ
owners [] = 0
owners (p ∷ ps) = weight p + owners ps

owners-append : (cs ds : List Phase) → owners (cs ++ ds) ≡ owners cs + owners ds
owners-append [] ds = omega arith
owners-append (c ∷ cs) ds = omega (arith, owners-append cs ds)

-- The tokens, in the channel and with clients.
abbrev total : DeliveryGate → ℕ
total g = g.tokens + owners g.clients

Step-total : (g h : DeliveryGate) → Step g h → total h ≡ total g
Step-total g h (call n cs) = omega arith
Step-total g h (call_canceled n cs) = omega arith
Step-total g h (receive n cs ds) =
    omega (arith, owners-append cs (waiting ∷ ds), owners-append cs (checking ∷ ds))
Step-total g h (give_up n cs ds) =
    omega (arith, owners-append cs (waiting ∷ ds), owners-append cs (refused ∷ ds))
Step-total g h (pass n cs ds) =
    omega (arith, owners-append cs (checking ∷ ds), owners-append cs (holding ∷ ds))
Step-total g h (put_back cs ds) =
    omega (arith, owners-append cs (checking ∷ ds), owners-append cs (refused ∷ ds))
Step-total g h (release cs ds) =
    omega (arith, owners-append cs (holding ∷ ds), owners-append cs (released ∷ ds))
Step-total g h (release_again n cs ds) = refl

-- In every state that the gate reaches there is one token, in the channel or with a client.
pub reachable_total : (g : DeliveryGate) → Reachable g → g.tokens + owners g.clients ≡ 1
reachable_total g start = refl
reachable_total g (next f h r s) = Step-total f h s ∙ reachable_total f r

-- While a client has the token the channel is empty, so that it returns the token without waiting,
-- and no other client has one.
pub gate_exclusive :
    (n : ℕ) (cs ds : List Phase) (p : Phase)
    → has_token p ≡ true
    → Reachable (at_gate n (cs ++ p ∷ ds))
    → (n ≡ 0) × (owners cs ≡ 0) × (owners ds ≡ 0)
gate_exclusive n cs ds p h r =
    let one = reachable_total (at_gate n (cs ++ p ∷ ds)) r in
    let split = owners-append cs (p ∷ ds) in
    let own = weight-has_token p h in (omega arith, omega arith, omega arith)
