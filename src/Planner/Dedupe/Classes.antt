-- ===== src/Planner/Dedupe/Classes.antt =====
-- The precedence of source classes is a strict order, and a merge keeps the stronger class.
use routevane.Common.{◌≡◌, true, false, arith, if◌then◌else◌, Bool-cases, inl, inr}
use routevane.Common.Text.Order.{text_compare-TotalOrder}
use routevane.Common.Order.{compare-TotalOrder, compare_refl}
use routevane.Domain.Kind.{SourceClass, class_text}
use routevane.Planner.Dedupe.{source_class_precedence, stronger_class}

pub stronger_trans :
    (a b c : SourceClass)
    → stronger_class a b ≡ true
    → stronger_class b c ≡ true
    → stronger_class a c ≡ true
unfolding stronger_class
stronger_trans a b c h k =
    let t = text_compare-TotalOrder in
    ground (
      arith,
      t.trans (class_text a) (class_text b) (class_text c),
      t.same (class_text a) (class_text b),
      t.same (class_text b) (class_text c),
    )

pub stronger_irrefl : (a : SourceClass) → stronger_class a a ≡ false
unfolding stronger_class
stronger_irrefl a = ground (
  arith,
  compare_refl compare-TotalOrder (source_class_precedence a),
  compare_refl text_compare-TotalOrder (class_text a),
)

-- The class that a merge gives.
abbrev pub stronger_of : SourceClass → SourceClass → SourceClass
stronger_of c d = if stronger_class c d then c else d

pub no_stronger_before :
    (c d x : SourceClass) → stronger_class x d ≡ false → stronger_class x (stronger_of c d) ≡ false
no_stronger_before c d x h = elim (Bool-cases (stronger_class c d)) [
  | inr b ↦ rw b h
  | inl b ↦ rw b (ground (arith, stronger_trans x c d))
]

pub no_stronger_new : (c d : SourceClass) → stronger_class c (stronger_of c d) ≡ false
no_stronger_new c d = elim (Bool-cases (stronger_class c d)) [
  | inr b ↦ rw b b
  | inl b ↦ rw b (stronger_irrefl c)
]
