-- ===== src/Tracestore/Elements.antt =====
-- The elements of a list that checkMembership accepted are read by ReadFilterElement.
use jaeger.Prelude.{
  String, List, [], ◌∷◌, ◌||◌, some, ◌≡◌, refl, ap, inl, inr, Result, ok, err, ◌>>=◌, >>=-ok, >>-ok,
  In,
}
use jaeger.Tracestore.Expression.{Level, ValueType, FieldType, Term, Vocabulary}
use jaeger.Tracestore.Errors.{FilterError}
use jaeger.Tracestore.Validate.{
  guard, is_undeclared, same_domain, domain_of_value_type, domain_of_field_type,
}
use jaeger.Tracestore.Resolve.{
  map_error, read_constant, typed_value, read_declared_elements, read_elements, check_field_list,
  check_list_beside, check_membership, read_filter_element,
}

map_error-value :
    {E F A B : Type 0} (f : E → F) (m : Result E A) (next : A → Result F B) (b : B)
    → (map_error f m >>= next) ≡ ok b
    → (a : A) × (m ≡ ok a)
map_error-value f (ok a) next b h = (a, refl)
map_error-value f (err e) next b h = absurd (cc)

module _ (v : Vocabulary) where
  read_elements-each :
      (l : Level) (n : String) (t : FieldType) (xs : List String) (x : String)
      → read_elements v l n t xs ≡ ok tt
      → In x xs
      → (c : Term) × (read_constant v t x ≡ ok c)
  unfolding read_elements
  read_elements-each l n t [] x h i = elim i [ ]
  read_elements-each l n t (y ∷ ys) x h (inl e) = rw e (
      map_error-value (FilterError.cannot_compare l n y) (read_constant v t y)
        (λ _. read_elements v l n t ys) tt h)
  read_elements-each l n t (y ∷ ys) x h (inr i) =
      let (_, _, h') =
        >>=-ok (map_error (FilterError.cannot_compare l n y) (read_constant v t y))
          (λ _. read_elements v l n t ys) h in
      read_elements-each l n t ys x h' i

  read_declared-each :
      (t : ValueType) (xs : List String) (x : String)
      → read_declared_elements v t xs ≡ ok tt
      → In x xs
      → (c : Term) × (typed_value v t x ≡ ok c)
  unfolding read_declared_elements
  read_declared-each t [] x h i = elim i [ ]
  read_declared-each t (y ∷ ys) x h (inl e) = rw e (
      map_error-value (FilterError.bad_element y t) (typed_value v t y)
        (λ _. read_declared_elements v t ys) tt h)
  read_declared-each t (y ∷ ys) x h (inr i) =
      let (_, _, h') =
        >>=-ok (map_error (FilterError.bad_element y t) (typed_value v t y))
          (λ _. read_declared_elements v t ys) h in
      read_declared-each t ys x h' i

  -- Either reading of an element gives a value.
  element-read :
      (wanted : ValueType) (t : FieldType) (x : String) (c d : Term)
      → typed_value v wanted x ≡ ok c
      → read_constant v t x ≡ ok d
      → (e : Term) × (read_filter_element v (some wanted) t x ≡ ok e)
  unfolding read_filter_element
  element-read ValueType.undeclared FieldType.undeclared x c d h k = (Term.any x, refl)
  element-read ValueType.undeclared t x c d h k = (d, ap (map_error FilterError.unreadable) k)
  element-read wanted t x c d h k = (c, ap (map_error (FilterError.bad_element x wanted)) h)

  list_beside-elements :
      (l : Level) (n : String) (t : FieldType) (wanted : ValueType) (xs : List String)
      → v.lookup_field l n ≡ some t
      → check_list_beside v (Term.field l n) wanted xs ≡ ok tt
      → read_elements v l n t xs ≡ ok tt
  unfolding check_field_list check_list_beside
  list_beside-elements l n t wanted xs look h =
      (>>-ok
        (guard
          (is_undeclared wanted
            || same_domain (domain_of_value_type wanted) (domain_of_field_type t))
          (FilterError.cannot_compare_list l n wanted t))
        (read_elements v l n t xs) (rw (check_list_beside, look) at h)).1

  -- ReadFilterElement does not fail on an element of a list that checkMembership accepted beside a
  -- built-in field, read at the type of that field.
  pub read_filter_element-total :
      (l : Level) (n : String) (t : FieldType) (wanted : ValueType) (xs : List String) (x : String)
      → check_membership v (Term.field l n) (Term.list wanted xs) ≡ ok tt
      → v.lookup_field l n ≡ some t
      → In x xs
      → (c : Term) × (read_filter_element v (some wanted) t x ≡ ok c)
  unfolding check_membership
  read_filter_element-total l n t wanted xs x h look i =
      let (h1, h2) =
        >>-ok (read_declared_elements v wanted xs) (check_list_beside v (Term.field l n) wanted xs)
          h in
      let (c, k) = read_declared-each wanted xs x h1 i in
      let (d, k') =
        read_elements-each l n t xs x (list_beside-elements l n t wanted xs look h2) i in
      element-read wanted t x c d k k'
