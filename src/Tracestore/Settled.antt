-- ===== src/Tracestore/Settled.antt =====
-- What resolveComparison makes of an accepted comparison: one that is accepted, and that a second
-- run leaves as it is.
use jaeger.Prelude.{
  arith, ◌≡◌, refl, inl, inr, true, false, none, ok, ◌>>=◌, >>=-ok, Bool-cases, Option-cases,
}
use jaeger.Tracestore.Expression.{Operator, FieldType, Call, Term, Vocabulary, nil, cons}
use jaeger.Tracestore.Validate.{is_constant}
use jaeger.Tracestore.Resolve.{
  text_to_read, turned_around, is_comparison, reference_first, read_as, read_opposite,
  resolve_comparison,
}
use jaeger.Tracestore.Comparison.{IsComparable, IsComparable-swap, is_ordered}
use jaeger.Tracestore.Typed.{reading-IsComparable}

turned_around-comparison :
    (op : Operator) → is_comparison op ≡ true → is_comparison (turned_around op) ≡ true
unfolding is_comparison turned_around
turned_around-comparison op h = ground arith

turned_around-ordered : (op : Operator) → is_ordered (turned_around op) ≡ is_ordered op
unfolding turned_around
turned_around-ordered op = ground arith

reference_first-reference :
    (op : Operator) (a b : Term)
    → is_constant a ≡ false
    → reference_first op a b ≡ Call.call op (cons a (cons b nil))
unfolding reference_first
reference_first-reference op a b h = rw (reference_first, h) refl

reference_first-constant :
    (op : Operator) (a b : Term)
    → is_constant b ≡ true
    → reference_first op a b ≡ Call.call op (cons a (cons b nil))
unfolding reference_first
reference_first-constant op a b h = elim (Bool-cases (is_constant a)) [
  | inl e ↦ rw (reference_first, e, h) refl
  | inr e ↦ rw (reference_first, e) refl
]

reference_first-turned :
    (op : Operator) (a b : Term)
    → is_constant a ≡ true
    → is_constant b ≡ false
    → reference_first op a b ≡ Call.call (turned_around op) (cons b (cons a nil))
unfolding reference_first turned_around
reference_first-turned op a b h k = rw (reference_first, h, k) refl

text_to_read-reference :
    (t : FieldType) (a : Term) → is_constant a ≡ false → text_to_read t a ≡ none
unfolding text_to_read is_constant
text_to_read-reference t a h = ground arith

module _ (v : Vocabulary) where
  read_opposite-constant : (a b : Term) → is_constant a ≡ true → read_opposite v a b ≡ ok b
  unfolding read_opposite is_constant
  read_opposite-constant (Term.field l n) b h = cc
  read_opposite-constant _ b h = refl

  -- A reference is read as itself.
  read_opposite-reference : (a b : Term) → is_constant b ≡ false → read_opposite v a b ≡ ok b
  unfolding read_opposite
  read_opposite-reference (Term.field l n) b h = elim (Option-cases (v.lookup_field l n)) [
    | inl look ↦ rw (read_opposite, look) refl
    | inr (t, look) ↦ rw (read_opposite, look, read_as, text_to_read-reference t b h) refl
  ]
  read_opposite-reference _ b h = refl

  module _ (op : Operator) where
    resolve-reference :
        (a b b' : Term)
        → is_constant a ≡ false
        → read_opposite v a b ≡ ok b'
        → resolve_comparison v op a b ≡ ok (Call.call op (cons a (cons b' nil)))
    unfolding resolve_comparison
    resolve-reference a b b' h e =
        rw
          (
            resolve_comparison,
            e,
            read_opposite-reference b' a h,
            reference_first-reference op a b' h,
          )
          refl

    resolve-turned :
        (a a' b : Term)
        → is_constant a ≡ true
        → is_constant b ≡ false
        → read_opposite v b a ≡ ok a'
        → is_constant a' ≡ true
        → resolve_comparison v op a b ≡ ok (Call.call (turned_around op) (cons b (cons a' nil)))
    unfolding resolve_comparison turned_around
    resolve-turned a a' b h k e h' =
        rw
          (resolve_comparison, read_opposite-constant a b h, e, reference_first-turned op a' b h' k)
          refl

    resolve-constants :
        (a b : Term)
        → is_constant a ≡ true
        → is_constant b ≡ true
        → resolve_comparison v op a b ≡ ok (Call.call op (cons a (cons b nil)))
    unfolding resolve_comparison
    resolve-constants a b h k =
        rw
          (
            resolve_comparison,
            read_opposite-constant a b h,
            read_opposite-constant b a k,
            reference_first-constant op a b k,
          )
          refl

  -- A comparison that is accepted and resolved.
  pub record IsSettled (c : Call) : Type 0 where
    pub op : Operator
    pub a : Term
    pub b : Term
    pub form : c ≡ Call.call op (cons a (cons b nil))
    pub comparison : is_comparison op ≡ true
    pub comparable : IsComparable v (is_ordered op) a b
    pub stays : resolve_comparison v op a b ≡ ok c

  settled :
      (op : Operator) (a b : Term) (c : Call)
      → c ≡ Call.call op (cons a (cons b nil))
      → is_comparison op ≡ true
      → IsComparable v (is_ordered op) a b
      → resolve_comparison v op a b ≡ ok (Call.call op (cons a (cons b nil)))
      → IsSettled c
  settled op a b c form k h e = record {
    op = op;
    a = a;
    b = b;
    form = form;
    comparison = k;
    comparable = h;
    stays = cc;
  }

  module _ (op : Operator) (a b : Term) (c : Call) (k : is_comparison op ≡ true)
      (h : IsComparable v (is_ordered op) a b) (e : resolve_comparison v op a b ≡ ok c) where
    from_reference : is_constant a ≡ false → IsSettled c
    unfolding resolve_comparison
    from_reference f =
        let (b', r, _) = >>=-ok _ _ e in
        let (h', r', _) = reading-IsComparable v a b b' h r in
        settled op a b' c (cc (resolve-reference op a b b' f r)) k h'
          (resolve-reference op a b' b' f r')

    from_turned : is_constant a ≡ true → is_constant b ≡ false → IsSettled c
    unfolding resolve_comparison
    from_turned f g =
        let (b', r, e') =
          >>=-ok (read_opposite v a b)
            (λ b'. (read_opposite v b' a >>= λ a'. ok (reference_first op a' b'))) e in
        let (a', r', _) = >>=-ok (read_opposite v b' a) (λ a'. ok (reference_first op a' b')) e' in
        let q : b ≡ b' = cc (read_opposite-constant a b f, r) in
        let s : read_opposite v b a ≡ ok a' = rw q r' in
        let (h', s', k') = reading-IsComparable v b a a' (IsComparable-swap v a b h) s in
        settled (turned_around op) b a' c (cc (resolve-turned op a a' b f g s (k' f)))
          (turned_around-comparison op k) (rw (turned_around-ordered op) h')
          (resolve-reference (turned_around op) b a' a' g s')

    pub resolve_comparison-IsSettled : IsSettled c
    resolve_comparison-IsSettled = elim (Bool-cases (is_constant a)) [
      | inr f ↦ from_reference f
      | inl f ↦ elim (Bool-cases (is_constant b)) [
        | inr g ↦ from_turned f g
        | inl g ↦
            settled op a b c (cc (resolve-constants op a b f g)) k h (resolve-constants op a b f g)
      ]
    ]
