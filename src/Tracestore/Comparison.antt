-- ===== src/Tracestore/Comparison.antt =====
-- When validateCall accepts a comparison, stated without the operator's part in the errors; and
-- what resolveComparison makes of an accepted one.
use jaeger.Prelude.{◌≡◌, refl, Bool, true, false, ◌||◌, Option, arith, ok, >>-ok, String}
use jaeger.Tracestore.Expression.{Operator, TermKind, Term, Vocabulary}
use jaeger.Tracestore.Errors.{FilterError}
use jaeger.Tracestore.Validate.{
  guard, same_domain, Domain, is_constant, time_constant_beside, validate_time_constant,
  domain_of_operand, orderable, validate_operand, same_kinds, validate_comparison,
  validate_ordered_comparison, validate_pair,
}
use jaeger.Tracestore.Pattern.{Regexp}
use jaeger.Tracestore.Resolve.{is_comparison}

guard-true : (b : Bool) (e : FilterError) → guard b e ≡ ok tt → b ≡ true
guard-true true e h = refl
guard-true false e h = cc

abbrev pub is_ordered : Operator → Bool
is_ordered Operator.gt = true
is_ordered Operator.lt = true
is_ordered Operator.gte = true
is_ordered Operator.lte = true
is_ordered _ = false

module _ (v : Vocabulary) where
  abbrev pub kinds_agree : Term → Term → Bool
  kinds_agree a b =
      same_domain (domain_of_operand v a) Domain.unknown
      || same_domain (domain_of_operand v b) Domain.unknown
      || same_domain (domain_of_operand v a) (domain_of_operand v b)

  -- An accepted comparison; `ordered` tells whether its operator asks for an order.
  pub record IsComparable (ordered : Bool) (a b : Term) : Type 0 where
    pub left : validate_operand v Operator.eq a ≡ ok tt
    pub right : validate_operand v Operator.eq b ≡ ok tt
    pub time_left : time_constant_beside Operator.eq a b ≡ ok tt
    pub time_right : time_constant_beside Operator.eq b a ≡ ok tt
    pub kinds : kinds_agree a b ≡ true
    pub order_left : ordered ≡ true → orderable v a ≡ true
    pub order_right : ordered ≡ true → orderable v b ≡ true

  operand_any :
      (op op' : Operator) (t : Term)
      → validate_operand v op t ≡ ok tt
      → validate_operand v op' t ≡ ok tt
  unfolding validate_operand is_constant
  operand_any op op' (Term.nil_of TermKind.attribute) h = cc
  operand_any op op' _ h = ground arith

  time_any :
      (op op' : Operator) (a b : Term)
      → time_constant_beside op a b ≡ ok tt
      → time_constant_beside op' a b ≡ ok tt
  unfolding time_constant_beside
  time_any op op' (Term.attribute l k) (Term.duration d) h = cc
  time_any op op' (Term.attribute l k) (Term.timestamp d) h = cc
  time_any op op' (Term.attribute l k) (Term.nil_of TermKind.duration) h = cc
  time_any op op' (Term.attribute l k) (Term.nil_of TermKind.timestamp) h = cc
  time_any op op' _ _ h = ground arith

  comparison-split :
      (op : Operator) (a b : Term)
      → validate_comparison v op a b ≡ ok tt
      → (validate_operand v op a ≡ ok tt)
        × (validate_operand v op b ≡ ok tt)
        × (time_constant_beside op a b ≡ ok tt)
        × (time_constant_beside op b a ≡ ok tt)
        × (kinds_agree a b ≡ true)
  unfolding validate_comparison validate_time_constant same_kinds
  comparison-split op a b h =
      let (h3, k) = >>-ok _ _ h in
      let (h2, t) = >>-ok _ _ h3 in
      let (l, r) = >>-ok _ _ h2 in let (tl, tr) = >>-ok _ _ t in (l, r, tl, tr, guard-true _ _ k)

  comparison-join :
      (op : Operator) (a b : Term)
      → validate_operand v op a ≡ ok tt
      → validate_operand v op b ≡ ok tt
      → time_constant_beside op a b ≡ ok tt
      → time_constant_beside op b a ≡ ok tt
      → kinds_agree a b ≡ true
      → validate_comparison v op a b ≡ ok tt
  unfolding validate_comparison validate_time_constant same_kinds
  comparison-join op a b l r tl tr k = rw (l, r, tl, tr, k) refl

  ordered-split :
      (op : Operator) (a b : Term)
      → validate_ordered_comparison v op a b ≡ ok tt
      → (validate_comparison v op a b ≡ ok tt) × (orderable v a ≡ true) × (orderable v b ≡ true)
  unfolding validate_ordered_comparison
  ordered-split op a b h =
      let (h2, r) = >>-ok _ _ h in
      let (c, l) = >>-ok _ _ h2 in (c, guard-true _ _ l, guard-true _ _ r)

  ordered-join :
      (op : Operator) (a b : Term)
      → validate_comparison v op a b ≡ ok tt
      → orderable v a ≡ true
      → orderable v b ≡ true
      → validate_ordered_comparison v op a b ≡ ok tt
  unfolding validate_ordered_comparison
  ordered-join op a b c l r = rw (c, l, r) refl

  comparable :
      (op : Operator) (ordered : Bool) (a b : Term)
      → validate_comparison v op a b ≡ ok tt
      → (ordered ≡ true → orderable v a ≡ true)
      → (ordered ≡ true → orderable v b ≡ true)
      → IsComparable ordered a b
  comparable op ordered a b h l r =
      let s = comparison-split op a b h in
      record {
        left = operand_any op Operator.eq a s.0;
        right = operand_any op Operator.eq b s.1;
        time_left = time_any op Operator.eq a b s.2;
        time_right = time_any op Operator.eq b a s.3;
        kinds = s.4;
        order_left = l;
        order_right = r;
      }

  ordered-IsComparable :
      (op : Operator) (a b : Term)
      → validate_ordered_comparison v op a b ≡ ok tt
      → IsComparable true a b
  ordered-IsComparable op a b h =
      let (c, l, r) = ordered-split op a b h in comparable op true a b c (λ _. l) (λ _. r)

  uncomparable :
      (op : Operator) {ordered : Bool} (a b : Term)
      → IsComparable ordered a b
      → validate_comparison v op a b ≡ ok tt
  uncomparable op a b c =
      comparison-join op a b (operand_any Operator.eq op a c.left)
        (operand_any Operator.eq op b c.right) (time_any Operator.eq op a b c.time_left)
        (time_any Operator.eq op b a c.time_right) c.kinds

  -- An accepted comparison is accepted with its operands swapped.
  pub IsComparable-swap :
      {ordered : Bool} (a b : Term) → IsComparable ordered a b → IsComparable ordered b a
  IsComparable-swap a b c = record {
    left = c.right;
    right = c.left;
    time_left = c.time_right;
    time_right = c.time_left;
    kinds = agree (domain_of_operand v a) (domain_of_operand v b) c.kinds;
    order_left = c.order_right;
    order_right = c.order_left;
  }
    where
      agree :
          (d e : Domain)
          → (same_domain d Domain.unknown || same_domain e Domain.unknown || same_domain d e) ≡ true
          → (same_domain e Domain.unknown || same_domain d Domain.unknown || same_domain e d) ≡ true
      agree Domain.unknown Domain.unknown h = refl
      agree Domain.unknown e h = ground arith
      agree d e h = ground arith

  module _ (parse_regexp : String → Option Regexp) where
    pub validate_pair-IsComparable :
        (op : Operator) (a b : Term)
        → is_comparison op ≡ true
        → validate_pair v parse_regexp op a b ≡ ok tt
        → IsComparable (is_ordered op) a b
    unfolding is_comparison validate_pair
    validate_pair-IsComparable Operator.eq a b e h =
        comparable Operator.eq false a b h (λ e. cc) (λ e. cc)
    validate_pair-IsComparable Operator.ne a b e h =
        comparable Operator.ne false a b h (λ e. cc) (λ e. cc)
    validate_pair-IsComparable Operator.gt a b e h = ordered-IsComparable Operator.gt a b h
    validate_pair-IsComparable Operator.lt a b e h = ordered-IsComparable Operator.lt a b h
    validate_pair-IsComparable Operator.gte a b e h = ordered-IsComparable Operator.gte a b h
    validate_pair-IsComparable Operator.lte a b e h = ordered-IsComparable Operator.lte a b h
    validate_pair-IsComparable _ a b e h = cc

    pub IsComparable-validate_pair :
        (op : Operator) (a b : Term)
        → is_comparison op ≡ true
        → IsComparable (is_ordered op) a b
        → validate_pair v parse_regexp op a b ≡ ok tt
    unfolding is_comparison validate_pair
    IsComparable-validate_pair Operator.eq a b e c = uncomparable Operator.eq a b c
    IsComparable-validate_pair Operator.ne a b e c = uncomparable Operator.ne a b c
    IsComparable-validate_pair Operator.gt a b e c =
        ordered-join Operator.gt a b (uncomparable Operator.gt a b c) (c.order_left refl)
          (c.order_right refl)
    IsComparable-validate_pair Operator.lt a b e c =
        ordered-join Operator.lt a b (uncomparable Operator.lt a b c) (c.order_left refl)
          (c.order_right refl)
    IsComparable-validate_pair Operator.gte a b e c =
        ordered-join Operator.gte a b (uncomparable Operator.gte a b c) (c.order_left refl)
          (c.order_right refl)
    IsComparable-validate_pair Operator.lte a b e c =
        ordered-join Operator.lte a b (uncomparable Operator.lte a b c) (c.order_left refl)
          (c.order_right refl)
    IsComparable-validate_pair _ a b e c = cc
