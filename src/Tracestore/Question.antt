-- ===== src/Tracestore/Question.antt =====
-- A comparison that referenceFirst turns around asks the question that it asked before.
use jaeger.Prelude.{arith, ◌≡◌, refl, inl, inr, Bool, true, not, ◌&&◌, Bool-cases}
use jaeger.Prelude.Int.{ℤ, ltb_ℤ, leb_ℤ}
use jaeger.Tracestore.Expression.{Operator, Call, Term, nil, cons}
use jaeger.Tracestore.Validate.{is_constant}
use jaeger.Tracestore.Resolve.{turned_around, reference_first}

-- What a comparison operator says of two ordered values.
abbrev pub holds : Operator → ℤ → ℤ → Bool
holds Operator.eq m n = leb_ℤ m n && leb_ℤ n m
holds Operator.ne m n = not (leb_ℤ m n && leb_ℤ n m)
holds Operator.gt m n = ltb_ℤ n m
holds Operator.lt m n = ltb_ℤ m n
holds Operator.gte m n = leb_ℤ n m
holds Operator.lte m n = leb_ℤ m n
holds _ m n = true

-- A comparison under a reading of its terms as ordered values.
abbrev pub answer : (Term → ℤ) → Call → Bool
answer value (Call.call op (cons a (cons b nil))) = holds op (value a) (value b)
answer value (Call.call op _) = true

holds-turned_around : (op : Operator) (m n : ℤ) → holds (turned_around op) n m ≡ holds op m n
unfolding turned_around
holds-turned_around op m n = ground arith

-- Whatever ordered values the operands stand for, a comparison is true of them exactly if what
-- referenceFirst makes of it is.
pub answer-reference_first :
    (value : Term → ℤ) (op : Operator) (a b : Term)
    → answer value (reference_first op a b) ≡ answer value (Call.call op (cons a (cons b nil)))
unfolding reference_first
answer-reference_first value op a b = elim (Bool-cases (is_constant a && not (is_constant b))) [
  | inl e ↦ rw (reference_first, e) (holds-turned_around op (value a) (value b))
  | inr e ↦ rw (reference_first, e) refl
]
