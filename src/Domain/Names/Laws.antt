-- ===== src/Domain/Names/Laws.antt =====
-- Normalization of a domain name is idempotent, and its result is a name in lower case.
use routevane.Common.{
  ℕ, suc, ◌≡◌, refl, sym, ap, ◌∙◌, ap₂, subst, Bool, true, false, not, List, [], ◌∷◌, map, arith,
  ◌==◌, if◌then◌else◌, length, all, Bool-cases, and-true, inl, inr,
}
use routevane.Common.Text.{Text}
use routevane.Domain.Result.{ok}
use routevane.Domain.Names.{
  last_or, trim_dot, name_byte, cons_first, split_dots, label_byte, label_is_valid, lower, to_lower,
  is_empty, domain_is_valid, normalize_domain,
}

lower_idem : (c : ℕ) → lower (lower c) ≡ lower c
lower_idem c = ground arith

lower_dot : (c : ℕ) → (lower c == b'.') ≡ (c == b'.')
lower_dot c = ground arith

lower_dash : (c : ℕ) → (lower c == b'-') ≡ (c == b'-')
lower_dash c = ground arith

label_byte-lower : (c : ℕ) → label_byte c ≡ true → label_byte (lower c) ≡ true
label_byte-lower c h = ground arith

name_byte-lower : (c : ℕ) → name_byte c ≡ true → name_byte (lower c) ≡ true
name_byte-lower c h = ground arith

pub to_lower_idem : (s : Text) → to_lower (to_lower s) ≡ to_lower s
unfolding to_lower
to_lower_idem [] = refl
to_lower_idem (c ∷ s) = ap₂ ◌∷◌ (lower_idem c) (to_lower_idem s)

length-to_lower : (s : Text) → length (to_lower s) ≡ length s
unfolding to_lower
length-to_lower [] = refl
length-to_lower (c ∷ s) = ap suc (length-to_lower s)

last-to_lower : (s : Text) (c : ℕ) → last_or (to_lower s) (lower c) ≡ lower (last_or s c)
unfolding to_lower
last-to_lower [] c = refl
last-to_lower (d ∷ s) c = last-to_lower s d

all-to_lower :
    (p : ℕ → Bool)
    → ((c : ℕ) → p c ≡ true → p (lower c) ≡ true)
    → (s : Text) → all p s ≡ true
    → all p (to_lower s) ≡ true
unfolding to_lower
all-to_lower p keep [] h = refl
all-to_lower p keep (c ∷ s) h =
    let (hc, hs) = and-true (p c) (all p s) h in rw (keep c hc) (all-to_lower p keep s hs)

label-to_lower : (s : Text) → label_is_valid s ≡ true → label_is_valid (to_lower s) ≡ true
unfolding label_is_valid to_lower
label-to_lower [] h = h
label-to_lower (c ∷ s) h = ground (
  arith,
  length-to_lower s,
  last-to_lower s c,
  lower_dash c,
  lower_dash (last_or s c),
  label_byte-lower c,
  all-to_lower label_byte label_byte-lower s,
)

cons_first-to_lower :
    (c : ℕ) (ls : List Text)
    → cons_first (lower c) (map to_lower ls) ≡ map to_lower (cons_first c ls)
unfolding to_lower
cons_first-to_lower c [] = refl
cons_first-to_lower c (l ∷ ls) = refl

split-to_lower : (s : Text) → split_dots (to_lower s) ≡ map to_lower (split_dots s)
unfolding split_dots to_lower
split-to_lower [] = refl
split-to_lower (c ∷ s) = rw (lower_dot c) (elim (Bool-cases (c == b'.')) [
  | inl dot ↦ rw dot (ap (◌∷◌ []) (split-to_lower s))
  | inr other ↦
      rw other (ap (cons_first (lower c)) (split-to_lower s) ∙ cons_first-to_lower c (split_dots s))
])

labels-to_lower :
    (ls : List Text) → all label_is_valid ls ≡ true → all label_is_valid (map to_lower ls) ≡ true
labels-to_lower [] h = refl
labels-to_lower (l ∷ ls) h =
    let (hl, hs) = and-true (label_is_valid l) (all label_is_valid ls) h in
    rw (label-to_lower l hl) (labels-to_lower ls hs)

not_empty-to_lower : (s : Text) → is_empty (to_lower s) ≡ is_empty s
unfolding to_lower
not_empty-to_lower [] = refl
not_empty-to_lower (c ∷ s) = refl

domain-to_lower : (s : Text) → domain_is_valid s ≡ true → domain_is_valid (to_lower s) ≡ true
unfolding domain_is_valid
domain-to_lower s h = ground (
  arith,
  not_empty-to_lower s,
  length-to_lower s,
  all-to_lower name_byte name_byte-lower s,
  ap (all label_is_valid) (split-to_lower s),
  labels-to_lower (split_dots s),
)

-- The last label is not empty.
abbrev ends_in_label : List Text → Bool
ends_in_label [] = false
ends_in_label (l ∷ []) = not (is_empty l)
ends_in_label (l ∷ m ∷ ms) = ends_in_label (m ∷ ms)

label_not_empty : (l : Text) → label_is_valid l ≡ true → not (is_empty l) ≡ true
unfolding label_is_valid
label_not_empty [] h = h
label_not_empty (c ∷ l) h = refl

ends_of_valid :
    (l : Text) (ls : List Text) → all label_is_valid (l ∷ ls) ≡ true → ends_in_label (l ∷ ls) ≡ true
ends_of_valid l [] h = label_not_empty l (and-true (label_is_valid l) true h).0
ends_of_valid l (m ∷ ms) h =
    ends_of_valid m ms (and-true (label_is_valid l) (all label_is_valid (m ∷ ms)) h).1

-- The first label of a text, and those after it.
split_cases : (s : Text) → (l : Text) × (ls : List Text) × (split_dots s ≡ l ∷ ls)
unfolding split_dots
split_cases [] = ([], [], refl)
split_cases (c ∷ s) =
    let (l, ls, e) = split_cases s in
    elim (Bool-cases (c == b'.')) [
      | inl dot ↦ ([], split_dots s, rw dot refl)
      | inr other ↦ (c ∷ l, ls, rw (other, e) refl)
    ]

ends_in_label-cons_first :
    (c : ℕ) (l : Text) (ls : List Text)
    → is_empty l ≡ false
    → ends_in_label (cons_first c (l ∷ ls)) ≡ ends_in_label (l ∷ ls)
ends_in_label-cons_first c [] ls h = cc
ends_in_label-cons_first c (d ∷ l) [] h = refl
ends_in_label-cons_first c (d ∷ l) (m ∷ ms) h = refl

-- What `split_dots` does with one more byte.
abbrev split_byte : ℕ → List Text → List Text
split_byte c ls = if c == b'.' then [] ∷ ls else cons_first c ls

ends_step :
    (c d : ℕ) (l : Text) (ls : List Text)
    → ends_in_label (split_byte c (split_byte d (l ∷ ls))) ≡ true
    → ends_in_label (split_byte d (l ∷ ls)) ≡ true
ends_step c d l [] h = ground arith
ends_step c d l (m ∷ ms) h = ground arith

-- A text whose last label is not empty does not end in a dot.
trim_dot_fixed : (s : Text) → ends_in_label (split_dots s) ≡ true → trim_dot s ≡ s
unfolding split_dots trim_dot
trim_dot_fixed [] h = refl
trim_dot_fixed (c ∷ []) h = ground arith
trim_dot_fixed (c ∷ d ∷ s) h =
    let (l, ls, e) = split_cases s in
    let shown : ends_in_label (split_byte c (split_byte d (l ∷ ls))) ≡ true =
      subst (λ ms. ends_in_label (split_byte c (split_byte d ms)) ≡ true) e h in
    let rest : ends_in_label (split_byte d (split_dots s)) ≡ true =
      subst (λ ms. ends_in_label (split_byte d ms) ≡ true) (sym e) (ends_step c d l ls shown) in
    ap (◌∷◌ c) (trim_dot_fixed (d ∷ s) rest)

trim_dot_valid : (s : Text) → domain_is_valid s ≡ true → trim_dot s ≡ s
unfolding domain_is_valid
trim_dot_valid s h =
    let (l, ls, e) = split_cases s in
    let labels : all label_is_valid (split_dots s) ≡ true = ground arith in
    trim_dot_fixed s (
      subst (λ ms. ends_in_label ms ≡ true) (sym e)
        (ends_of_valid l ls (subst (λ ms. all label_is_valid ms ≡ true) e labels)))

not_empty_valid : (s : Text) → domain_is_valid s ≡ true → is_empty s ≡ false
unfolding domain_is_valid
not_empty_valid s h = ground arith

-- A name that normalization gives is a valid name, in lower case and with no final dot.
pub normalize_domain_result :
    (raw d : Text)
    → normalize_domain raw ≡ ok d
    → (d ≡ to_lower (trim_dot raw)) × (domain_is_valid d ≡ true)
unfolding normalize_domain
normalize_domain_result raw d h = ground (arith, domain-to_lower (trim_dot raw))

normalize_valid :
    (s : Text) → domain_is_valid s ≡ true → normalize_domain (to_lower s) ≡ ok (to_lower s)
unfolding normalize_domain
normalize_valid s h =
    let v = domain-to_lower s h in
    rw (not_empty_valid (to_lower s) v, trim_dot_valid (to_lower s) v, v, to_lower_idem s) refl

-- Normalization leaves its own result as it is.
pub normalize_domain_idem : (raw d : Text) → normalize_domain raw ≡ ok d → normalize_domain d ≡ ok d
normalize_domain_idem raw d h =
    let (e, v) = normalize_domain_result raw d h in
    let lowered : to_lower d ≡ d = ap to_lower e ∙ to_lower_idem (trim_dot raw) ∙ sym e in
    subst (λ t. normalize_domain t ≡ ok t) lowered (normalize_valid d v)
