-- ===== src/Examples/Domain.antt =====
-- The theorems on names, texts and observations at concrete inputs.
use routevane.Common.{◌≡◌, refl, true, false, List, [], ◌∷◌, ◌↔◌, In, inl, inr}
use routevane.Common.Text.{Text, codes, Text-discrete}
use routevane.Domain.Result.{ok}
use routevane.Domain.Kind.{valid}
use routevane.Domain.Names.{normalize_domain, trim_dot, to_lower, domain_is_valid, split_dots}
use routevane.Domain.Resource.{resource_is_valid, domain_is_normal}
use routevane.Domain.Observation.{lifecycle_at}
use routevane.Domain.Plan.{stable_strings}
use routevane.Domain.Plan.Stable.{stable_strings_canonical}
use routevane.Examples.{name_seen}

normalized : normalize_domain (codes "Mail.Example.") ≡ ok (codes "mail.example")
unfolding normalize_domain trim_dot to_lower domain_is_valid split_dots
normalized = refl

abbrev repeated : List Text
repeated = codes "dns" ∷ codes "feed" ∷ codes "dns" ∷ []

abbrev swapped : List Text
swapped = codes "feed" ∷ codes "dns" ∷ []

same_texts : (a : Text) → In a repeated ↔ In a swapped
same_texts a = (
  λ h. elim h [
    | inl e ↦ inr (inl e)
    | inr (inl e) ↦ inl e
    | inr (inr (inl e)) ↦ inr (inl e)
    | inr (inr (inr n)) ↦ absurd n
  ],
  λ h. elim h [ inl e ↦ inr (inl e) | inr (inl e) ↦ inl e | inr (inr n) ↦ absurd n ],
)

stable_strings_canonical_example : stable_strings repeated ≡ stable_strings swapped
stable_strings_canonical_example = stable_strings_canonical repeated swapped same_texts

name_is_valid : resource_is_valid name_seen.resource ≡ true
unfolding resource_is_valid domain_is_normal normalize_domain trim_dot to_lower domain_is_valid
    split_dots Text-discrete
name_is_valid = refl

name_is_current : valid ≡ lifecycle_at 100 50 false
unfolding lifecycle_at
name_is_current = refl
