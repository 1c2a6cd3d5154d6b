-- ===== src/Domain/Plan/Stable.antt =====
-- `StableStrings` of internal/domain/plan.go gives the canonical list of a set of texts.
use routevane.Common.{◌≡◌, ◌↔◌, List, In}
use routevane.Common.Text.{Text, text_eq, text_compare}
use routevane.Common.Text.Order.{text_compare-TotalOrder}
use routevane.Common.Assoc.{text_eq_sound, text_eq_complete}
use routevane.Common.Sort.{sort_by}
use routevane.Common.Sort.Laws.{
  IsAscending, In-sort, In-compact, sort-IsSorted, compact-IsAscending, ascending_unique,
}
use routevane.Domain.Plan.{stable_strings}

pub In-stable_strings : (a : Text) (xs : List Text) → In a (stable_strings xs) ↔ In a xs
unfolding stable_strings
In-stable_strings a xs =
    let sorted = sort_by text_compare xs in
    let kept =
      In-compact text_compare text_compare-TotalOrder text_eq text_eq_sound text_eq_complete a
        sorted in
    let same = In-sort text_compare a xs in (λ h. same.0 (kept.0 h), λ h. kept.1 (same.1 h))

pub stable_strings-IsAscending : (xs : List Text) → IsAscending text_compare (stable_strings xs)
unfolding stable_strings
stable_strings-IsAscending xs =
    compact-IsAscending text_compare text_compare-TotalOrder text_eq text_eq_sound text_eq_complete
      (sort_by text_compare xs) (sort-IsSorted text_compare text_compare-TotalOrder xs)

-- Any two lists with the same texts have one stable form, whatever their order and their repeats.
pub stable_strings_canonical :
    (xs ys : List Text) → ((a : Text) → In a xs ↔ In a ys) → stable_strings xs ≡ stable_strings ys
stable_strings_canonical xs ys h =
    ascending_unique text_compare text_compare-TotalOrder (stable_strings xs) (stable_strings ys)
      (stable_strings-IsAscending xs) (stable_strings-IsAscending ys)
      (λ a i. (In-stable_strings a ys).1 ((h a).0 ((In-stable_strings a xs).0 i)))
      (λ a i. (In-stable_strings a xs).1 ((h a).1 ((In-stable_strings a ys).0 i)))

-- A stable list is its own stable form.
pub stable_strings_idem : (xs : List Text) → stable_strings (stable_strings xs) ≡ stable_strings xs
stable_strings_idem xs = stable_strings_canonical _ xs (λ a. In-stable_strings a xs)
