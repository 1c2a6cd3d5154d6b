-- ===== src/Application/Gate.antt =====
-- internal/application/delivery_gate.go: the one token that a delivery holds.
-- A client of the gate stands at a line of `Acquire` or of the function that it returns, and a step
-- of one client is a step of the gate. A send on the channel, which has room for one token, waits
-- until the channel is empty.
pub mod Exclusive
use routevane.Common.{ℕ, suc, List, [], ◌∷◌, ◌++◌}

-- Before the `select`; with the token, before the second check of the context; with the release
-- function; after its first call; and after an error.
pub data Phase : Type 0 where
  waiting checking holding released refused : Phase

pub record DeliveryGate : Type 0 where
  pub tokens : ℕ
  pub clients : List Phase

abbrev pub at_gate : ℕ → List Phase → DeliveryGate
at_gate n cs = record { tokens = n; clients = cs }

-- `NewDeliveryGate`
abbrev pub new_delivery_gate : DeliveryGate
new_delivery_gate = at_gate 1 []

pub data Step : DeliveryGate → DeliveryGate → Type 0 where
  call : (n : ℕ) (cs : List Phase) → Step (at_gate n cs) (at_gate n (waiting ∷ cs))
  call_canceled : (n : ℕ) (cs : List Phase) → Step (at_gate n cs) (at_gate n (refused ∷ cs))
  receive :
      (n : ℕ) (cs ds : List Phase)
      → Step (at_gate (suc n) (cs ++ waiting ∷ ds)) (at_gate n (cs ++ checking ∷ ds))
  give_up :
      (n : ℕ) (cs ds : List Phase)
      → Step (at_gate n (cs ++ waiting ∷ ds)) (at_gate n (cs ++ refused ∷ ds))
  pass :
      (n : ℕ) (cs ds : List Phase)
      → Step (at_gate n (cs ++ checking ∷ ds)) (at_gate n (cs ++ holding ∷ ds))
  put_back :
      (cs ds : List Phase) → Step (at_gate 0 (cs ++ checking ∷ ds)) (at_gate 1 (cs ++ refused ∷ ds))
  release :
      (cs ds : List Phase) → Step (at_gate 0 (cs ++ holding ∷ ds)) (at_gate 1 (cs ++ released ∷ ds))
  release_again :
      (n : ℕ) (cs ds : List Phase)
      → Step (at_gate n (cs ++ released ∷ ds)) (at_gate n (cs ++ released ∷ ds))

pub data Reachable : DeliveryGate → Type 0 where
  start : Reachable new_delivery_gate
  next : (g h : DeliveryGate) → Reachable g → Step g h → Reachable h
