-- ===== src/Tracestore/Typed.antt =====
-- What resolveComparison reads from a constant: a constant of the field's type, which a second
-- reading leaves as it is.
use jaeger.Prelude.{
  ◌≡◌, refl, ◌∙◌, ◌||◌, sym, inl, inr, Bool, true, none, some, arith, String, ok, Bool-cases,
  Option-cases, Result-cases,
}
use jaeger.Prelude.Parse.{one_of}
use jaeger.Tracestore.Expression.{Level, Operator, FieldType, Term, Vocabulary}
use jaeger.Tracestore.Validate.{
  same_domain, Domain, is_constant, time_constant_beside, domain_of, domain_of_field_type,
  domain_of_operand, orderable, validate_operand, field_type,
}
use jaeger.Tracestore.Resolve.{text_to_read, read_word, read_constant, read_as, read_opposite}
use jaeger.Tracestore.Comparison.{IsComparable}

module _ (v : Vocabulary) where
  -- A constant that is of a field's type already.
  record IsTyped (t : FieldType) (b : Term) : Type 0 where
    constant : is_constant b ≡ true
    operand : validate_operand v Operator.eq b ≡ ok tt
    domain : domain_of_operand v b ≡ domain_of_field_type t
    order : orderable v b ≡ true
    free : (l : Level) (n : String) → time_constant_beside Operator.eq b (Term.field l n) ≡ ok tt
    stays : (l : Level) (n : String) → read_as v l n t b ≡ ok b

  typed : (t : FieldType) (raw : String) (b : Term) → read_constant v t raw ≡ ok b → IsTyped t b
  unfolding read_constant read_word text_to_read read_as validate_operand is_constant
      domain_of_operand domain_of orderable time_constant_beside domain_of_field_type
  typed FieldType.string raw b h =
      let e : b ≡ Term.str raw = cc in
      rw e (record {
        constant = refl;
        operand = refl;
        domain = refl;
        order = refl;
        free = λ l n. refl;
        stays = λ l n. refl;
      })
  typed FieldType.duration raw b h = elim (Option-cases (v.parse_duration raw)) [
    | inl bad ↦ absurd (cc (rw bad at h))
    | inr (d, good) ↦
        let e : b ≡ Term.duration d = cc (rw good at h) in
        rw e (record {
          constant = refl;
          operand = refl;
          domain = refl;
          order = refl;
          free = λ l n. refl;
          stays = λ l n. refl;
        })
  ]
  typed FieldType.timestamp raw b h = elim (Option-cases (v.parse_time raw)) [
    | inl bad ↦ absurd (cc (rw bad at h))
    | inr (d, good) ↦
        let e : b ≡ Term.timestamp d = cc (rw good at h) in
        rw e (record {
          constant = refl;
          operand = refl;
          domain = refl;
          order = refl;
          free = λ l n. refl;
          stays = λ l n. refl;
        })
  ]
  typed FieldType.span_kind raw b h = elim (Bool-cases (one_of raw v.span_kinds)) [
    | inl good ↦
        let e : b ≡ Term.str raw = cc (rw good at h) in
        rw e (record {
          constant = refl;
          operand = refl;
          domain = refl;
          order = refl;
          free = λ l n. refl;
          stays = λ l n. rw good refl;
        })
    | inr bad ↦ absurd (cc (rw bad at h))
  ]
  typed FieldType.span_status raw b h = elim (Bool-cases (one_of raw v.span_statuses)) [
    | inl good ↦
        let e : b ≡ Term.str raw = cc (rw good at h) in
        rw e (record {
          constant = refl;
          operand = refl;
          domain = refl;
          order = refl;
          free = λ l n. refl;
          stays = λ l n. rw good refl;
        })
    | inr bad ↦ absurd (cc (rw bad at h))
  ]
  typed _ raw b h = absurd (cc)

  agree_refl :
      (d : Domain)
      → (same_domain d Domain.unknown || same_domain d Domain.unknown || same_domain d d) ≡ true
  agree_refl Domain.unknown = refl
  agree_refl _ = ground arith

  -- The operand that stands opposite to a built-in field, once it is read.
  module _ (l : Level) (n : String) where
    field_domain :
        (t : FieldType)
        → v.lookup_field l n ≡ some t
        → domain_of_operand v (Term.field l n) ≡ domain_of_field_type t
    unfolding domain_of_operand field_type
    field_domain t look = rw (domain_of_field_type, look) refl

    typed_beside :
        {ordered : Bool} (t : FieldType) (b c : Term)
        → v.lookup_field l n ≡ some t
        → IsComparable v ordered (Term.field l n) b
        → IsTyped t c
        → IsComparable v ordered (Term.field l n) c
    unfolding time_constant_beside
    typed_beside t b c look h k = record {
      left = h.left;
      right = k.operand;
      time_left = refl;
      time_right = k.free l n;
      kinds = rw (field_domain t look, k.domain) (agree_refl (domain_of_field_type t));
      order_left = h.order_left;
      order_right = λ _. k.order;
    }

    -- Lookup and text decide what a reading gives.
    read_unknown :
        (b : Term) → v.lookup_field l n ≡ none → read_opposite v (Term.field l n) b ≡ ok b
    unfolding read_opposite
    read_unknown b look = rw (read_opposite, look) refl

    read_known :
        (t : FieldType) (b : Term)
        → v.lookup_field l n ≡ some t
        → read_opposite v (Term.field l n) b ≡ read_as v l n t b
    unfolding read_opposite
    read_known t b look = rw (read_opposite, look) refl

    read_no_text : (t : FieldType) (b : Term) → text_to_read t b ≡ none → read_as v l n t b ≡ ok b
    unfolding read_as
    read_no_text t b e = rw (read_as, e) refl

    read_text :
        (t : FieldType) (b c : Term) (raw : String)
        → text_to_read t b ≡ some raw
        → read_as v l n t b ≡ ok c
        → read_constant v t raw ≡ ok c
    unfolding read_as
    read_text t b c raw e h = elim (Result-cases (read_constant v t raw)) [
      | inl (d, good) ↦ rw good (cc (rw (read_as, e, good) at h))
      | inr (x, bad) ↦ absurd (cc (rw (read_as, e, bad) at h))
    ]

    read_beside :
        {ordered : Bool} (b c : Term)
        → IsComparable v ordered (Term.field l n) b
        → read_opposite v (Term.field l n) b ≡ ok c
        → (IsComparable v ordered (Term.field l n) c
            × (read_opposite v (Term.field l n) c ≡ ok c)
            × (is_constant b ≡ true → is_constant c ≡ true))
    read_beside {ordered = ordered} b c h e = elim (Option-cases (v.lookup_field l n)) [
      | inl look ↦ same c (cc (read_unknown b look)) (read_unknown c look)
      | inr (t, look) ↦ elim (Option-cases (text_to_read t b)) [
        | inl textless ↦
            let q : b ≡ c = cc (read_known t b look, read_no_text t b textless) in same c q (cc)
        | inr (raw, text) ↦
            let k = typed t raw c (read_text t b c raw text (sym (read_known t b look) ∙ e)) in
            (typed_beside t b c look h k, read_known t c look ∙ k.stays l n, λ _. k.constant)
      ]
    ]
      where
        same :
            (c : Term)
            → b ≡ c
            → read_opposite v (Term.field l n) c ≡ ok c
            → (IsComparable v ordered (Term.field l n) c
                × (read_opposite v (Term.field l n) c ≡ ok c)
                × (is_constant b ≡ true → is_constant c ≡ true))
        same c q r = (rw (sym q) h, r, λ k. rw (sym q) k)

  -- The operand opposite to any reference, once it is read, is comparable with it still, is read
  -- as itself, and is a constant when it was one.
  pub reading-IsComparable :
      {ordered : Bool} (a b c : Term)
      → IsComparable v ordered a b
      → read_opposite v a b ≡ ok c
      → (IsComparable v ordered a c
          × (read_opposite v a c ≡ ok c)
          × (is_constant b ≡ true → is_constant c ≡ true))
  unfolding read_opposite
  reading-IsComparable (Term.field l n) b c h e = read_beside l n b c h e
  reading-IsComparable _ b c h e = let q : b ≡ c = cc in (rw (sym q) h, refl, λ k. rw (sym q) k)
