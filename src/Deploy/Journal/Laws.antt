-- ===== src/Deploy/Journal/Laws.antt =====
-- What each operation of the journal does to the row of an identity.
use routevane.Common.{
  ◌≡◌, refl, sym, ◌⊎◌, inl, inr, Bool, true, false, ◌&&◌, not, Option, none, some, arith,
  Bool-cases, Option-cases, and-true,
}
use routevane.Common.Text.{Text, text_eq}
use routevane.Common.Assoc.{get, put, is_key, get-put, text_eq_sound, text_eq_complete}
use routevane.Deploy.Attempt.{DeployResult, is_pending, DeploymentAttempt}
use routevane.Deploy.Journal.{
  Row, Rows, Faults, no_faults, begun, begin_attempt, complete_attempt, valid_pending,
  valid_completed, pending_row, completed_row, scan_attempt, selected, insert_new, same_identity,
}

-- The life of an identity: absent, then pending, then settled for good.
pub data RowStep : Option Row → Option Row → Type 0 where
  same_row : (o : Option Row) → RowStep o o
  claimed : (a : DeploymentAttempt) → RowStep none (some (pending_row a))
  settled_row :
      (a : DeploymentAttempt) (r : Row)
      → is_pending r.status ≡ true
      → is_pending a.status ≡ false
      → RowStep (some r) (some (completed_row a r))

-- What a call of `begin_attempt` that answers with an attempt has done.
abbrev pub Found :
    (DeployResult → DeployResult)
    → DeploymentAttempt
    → Rows
    → Rows
    → DeploymentAttempt
    → Bool
    → Type 0
Found reread a rows next b c =
    (r : Row) × (get a.id rows ≡ some r)
    × (next ≡ rows)
    × (b ≡ scan_attempt reread a.id r)
    × (c ≡ false)

abbrev pub Created :
    (DeployResult → DeployResult)
    → DeploymentAttempt
    → Rows
    → Rows
    → DeploymentAttempt
    → Bool
    → Type 0
Created reread a rows next b c =
    (get a.id rows ≡ none)
    × (next ≡ put a.id (pending_row a) rows)
    × (b ≡ scan_attempt reread a.id (pending_row a))
    × (c ≡ true)

pub get-put_same : (k : Text) (r : Row) (m : Rows) → get k (put k r m) ≡ some r
get-put_same k r m = rw (get-put k k r m, text_eq_complete k k refl) refl

-- The rows after an insertion, by what the identity was.
insert-absent :
    (a : DeploymentAttempt) (rows : Rows)
    → get a.id rows ≡ none
    → insert_new a rows ≡ put a.id (pending_row a) rows
unfolding is_key
insert-absent a rows e = ground arith

insert-present :
    (a : DeploymentAttempt) (rows : Rows) (r : Row)
    → get a.id rows ≡ some r
    → insert_new a rows ≡ rows
unfolding is_key
insert-present a rows r e = ground arith

pub get-other : (j k : Text) (r : Row) (m : Rows) → (k ≡ j → ⊥) → get j (put k r m) ≡ get j m
get-other j k r m n = elim (Bool-cases (text_eq k j)) [
  | inl e ↦ absurd (n (text_eq_sound k j e))
  | inr f ↦ rw (get-put j k r m, f) refl
]

valid_completed-settled :
    (a : DeploymentAttempt) → valid_completed a ≡ true → is_pending a.status ≡ false
unfolding valid_completed
valid_completed-settled a h = ground arith

put-RowStep :
    (j k : Text) (r : Row) (m : Rows)
    → RowStep (get k m) (some r)
    → RowStep (get j m) (get j (put k r m))
put-RowStep j k r m step = elim (Bool-cases (text_eq k j)) [
  | inl e ↦ rw (sym (text_eq_sound k j e), get-put_same k r m) step
  | inr f ↦ rw (get-put j k r m, f) (same_row (get j m))
]

insert-RowStep :
    (j : Text) (a : DeploymentAttempt) (rows : Rows)
    → RowStep (get j rows) (get j (insert_new a rows))
insert-RowStep j a rows = elim (Option-cases (get a.id rows)) [
  | inl e ↦ rw (insert-absent a rows e) (put-RowStep j a.id (pending_row a) rows (rw e (claimed a)))
  | inr (r, e) ↦ rw (insert-present a rows r e) (same_row (get j rows))
]

-- An identity's row stays, or an absent one becomes pending.
pub begin-RowStep :
    (reread : DeployResult → DeployResult) (f : Faults) (a : DeploymentAttempt) (rows : Rows)
    (j : Text)
    → RowStep (get j rows) (get j (begin_attempt reread f a rows).0)
unfolding begin_attempt
begin-RowStep reread f a rows j = elim (Bool-cases (valid_pending a)) [
  | inr v ↦ rw v (same_row (get j rows))
  | inl v ↦ elim (Bool-cases f.insert_fails) [
    | inl i ↦ rw (v, i) (same_row (get j rows))
    | inr i ↦ elim (Bool-cases f.read_fails) [
      | inl d ↦ rw (v, i, d) (insert-RowStep j a rows)
      | inr d ↦ rw (v, i, d) (insert-RowStep j a rows)
    ]
  ]
]

-- A row that an update changes is pending and becomes settled.
pub complete-RowStep :
    (f : Faults) (a : DeploymentAttempt) (rows : Rows) (j : Text)
    → RowStep (get j rows) (get j (complete_attempt f a rows).0)
unfolding complete_attempt
complete-RowStep f a rows j = elim (Bool-cases (valid_completed a)) [
  | inr v ↦ rw v (same_row (get j rows))
  | inl v ↦ elim (Bool-cases f.update_fails) [
    | inl i ↦ rw (v, i) (same_row (get j rows))
    | inr i ↦ elim (Option-cases (get a.id rows)) [
      | inl e ↦ rw (v, i, e) (same_row (get j rows))
      | inr (r, e) ↦ elim (Bool-cases (same_identity a r && is_pending r.status)) [
        | inr other ↦ rw (v, i, e, other) (same_row (get j rows))
        | inl fits ↦
            rw (v, i, e, fits)
              (put-RowStep j a.id (completed_row a r) rows
                (rw e (settled_row a r (and-true _ _ fits).1 (valid_completed-settled a v))))
      ]
    ]
  ]
]

absent-is_key : (k : Text) (m : Rows) → get k m ≡ none → is_key k m ≡ false
unfolding is_key
absent-is_key k m e = ground arith

present-is_key : (k : Text) (m : Rows) (r : Row) → get k m ≡ some r → is_key k m ≡ true
unfolding is_key
present-is_key k m r e = ground arith

begun-injective : {a b : DeploymentAttempt} {c d : Bool} → begun a c ≡ begun b d → (a ≡ b) × (c ≡ d)
begun-injective h = (cc, cc)

selected-begun :
    (reread : DeployResult → DeployResult) (a : DeploymentAttempt) (rows : Rows)
    (b : DeploymentAttempt) (c : Bool)
    → selected reread a.id (not (is_key a.id rows)) (get a.id (insert_new a rows)) ≡ begun b c
    → Found reread a rows (insert_new a rows) b c ⊎ Created reread a rows (insert_new a rows) b c
selected-begun reread a rows b c h = elim (Option-cases (get a.id rows)) [
  | inl e ↦
      let (eb, ec) = begun-injective (
        rw
          (
            insert-absent a rows e,
            get-put_same a.id (pending_row a) rows,
            absent-is_key a.id rows e,
          )
          at h) in
      inr (e, insert-absent a rows e, sym eb, sym ec)
  | inr (r, e) ↦
      let (eb, ec) =
        begun-injective (rw (insert-present a rows r e, e, present-is_key a.id rows r e) at h) in
      inl (r, e, insert-present a rows r e, sym eb, sym ec)
]

-- A call that answers with an attempt has found the identity's row or has made it.
pub begin-begun :
    (reread : DeployResult → DeployResult) (f : Faults) (a : DeploymentAttempt) (rows : Rows)
    (b : DeploymentAttempt) (c : Bool)
    → (begin_attempt reread f a rows).1 ≡ begun b c
    → (valid_pending a ≡ true)
      × (Found reread a rows (begin_attempt reread f a rows).0 b c
          ⊎ Created reread a rows (begin_attempt reread f a rows).0 b c)
unfolding begin_attempt
begin-begun reread f a rows b c h = elim (Bool-cases (valid_pending a)) [
  | inr v ↦ cc (rw v at h)
  | inl v ↦ elim (Bool-cases f.insert_fails) [
    | inl i ↦ cc (rw (v, i) at h)
    | inr i ↦ elim (Bool-cases f.read_fails) [
      | inl d ↦ cc (rw (v, i, d) at h)
      | inr d ↦ rw (v, i, d) (refl, selected-begun reread a rows b c (rw (v, i, d) at h))
    ]
  ]
]

-- A call that reports nothing has settled the pending row of the same request.
pub complete-settled :
    (f : Faults) (a : DeploymentAttempt) (rows : Rows)
    → (complete_attempt f a rows).1 ≡ none
    → (r : Row) × (get a.id rows ≡ some r)
      × (same_identity a r ≡ true)
      × ((complete_attempt f a rows).0 ≡ put a.id (completed_row a r) rows)
unfolding complete_attempt
complete-settled f a rows h = elim (Bool-cases (valid_completed a)) [
  | inr v ↦ cc (rw v at h)
  | inl v ↦ elim (Bool-cases f.update_fails) [
    | inl i ↦ cc (rw (v, i) at h)
    | inr i ↦ elim (Option-cases (get a.id rows)) [
      | inl e ↦ cc (rw (v, i, e) at h)
      | inr (r, e) ↦ elim (Bool-cases (same_identity a r && is_pending r.status)) [
        | inr other ↦ cc (rw (v, i, e, other) at h)
        | inl fits ↦ rw (v, i) (r, e, (and-true _ _ fits).0, rw (e, fits) refl)
      ]
    ]
  ]
]

-- A row that stands answers a later call for its identity.
pub begin-present :
    (reread : DeployResult → DeployResult) (a : DeploymentAttempt) (rows : Rows) (r : Row)
    → valid_pending a ≡ true
    → get a.id rows ≡ some r
    → begin_attempt reread no_faults a rows ≡ (rows, begun (scan_attempt reread a.id r) false)
unfolding begin_attempt
begin-present reread a rows r v e =
    rw (v, insert-present a rows r e, present-is_key a.id rows r e, e) refl
