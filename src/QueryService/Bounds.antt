-- ===== src/QueryService/Bounds.antt =====
-- The bound on the number of results, from normalizeEnvelope to the settling of a filter.
use jaeger.Prelude.{
  Bool, true, false, none, some, string_eq, ◌≡◌, refl, sym, ap, inl, inr, Result, ok, err, ◌>>=◌,
  ◌>>◌, >>=-ok, >>-ok, Bool-cases, Option-cases, arith,
}
use jaeger.Prelude.Int.{ℤ, pos, ltb_ℤ, ◌≤ℤ◌}
use jaeger.Tracestore.Errors.{ShapeError}
use jaeger.Tracestore.Query.{TraceQueryParams}
use jaeger.Tracestore.Shape.{is_zero_duration}
use jaeger.QueryService.Errors.{QueryError, in_shape}
use jaeger.QueryService.Envelope.{
  check, check_ranges, check_depth, with_depth, min_ℤ, max_page_size, normalize_envelope,
}
use jaeger.QueryService.Interceptor.{Environment}
use jaeger.QueryService.Prepare.{
  Deployment, clamp, check_page_use, check_page_size, check_filter_use, finalize_query_filter,
  settle_pagination, settle_query_filter,
}
use jaeger.QueryService.Served.{bound_of}

pub check-ok : (b : Bool) (e : QueryError) → check b e ≡ ok tt → b ≡ true
check-ok true e h = refl
check-ok false e h = cc

pub in_shape-ok : {A : Type 0} (m : Result ShapeError A) (a : A) → in_shape m ≡ ok a → m ≡ ok a
in_shape-ok (ok b) a h = cc
in_shape-ok (err e) a h = cc

-- A bound that a reader can be asked for.
abbrev pub IsBound : ℤ → Type 0
IsBound n = (pos 1 ≤ℤ n) × (n ≤ℤ pos 10000)

-- What normalizeEnvelope leaves: a depth that is in range, and is a bound where there is no page.
pub record IsNormal (q : TraceQueryParams) : Type 0 where
  depth : (pos 0 ≤ℤ q.search_depth) × (q.search_depth ≤ℤ pos 10000)
  page_or_depth : q.pagination ≡ none → IsBound q.search_depth

check_depth-ok : (n : ℤ) → check_depth n ≡ ok tt → (pos 0 ≤ℤ n) × (n ≤ℤ pos 10000)
check_depth-ok n h = ground arith

with_depth-IsNormal :
    (q : TraceQueryParams)
    → (pos 0 ≤ℤ q.search_depth) × (q.search_depth ≤ℤ pos 10000)
    → IsNormal (with_depth q)
with_depth-IsNormal q h = elim (Bool-cases (is_zero_duration q.search_depth)) [
  | inr z ↦ rw z (record { depth = h; page_or_depth = λ _. (nonzero q.search_depth z h.0, h.1) })
  | inl z ↦ elim (Option-cases q.pagination) [
    | inl e ↦
        rw (z, e)
          (record {
            depth = (omega arith, omega arith);
            page_or_depth = λ _. (omega arith, omega arith);
          })
    | inr (p, e) ↦ rw (z, e) (record { depth = h; page_or_depth = λ e'. absurd (cc (e, e')) })
  ]
]
  where
    nonzero : (n : ℤ) → is_zero_duration n ≡ false → pos 0 ≤ℤ n → pos 1 ≤ℤ n
    nonzero n z h = ground arith

pub normalize_envelope-IsNormal :
    (q r : TraceQueryParams) → normalize_envelope q ≡ ok r → IsNormal r
unfolding normalize_envelope
normalize_envelope-IsNormal q r h =
    let (h', e) = >>-ok (check_ranges q >> check_depth q.search_depth) (ok (with_depth q)) h in
    let (_, k) = >>-ok (check_ranges q) (check_depth q.search_depth) h' in
    let s : with_depth q ≡ r = cc in
    rw (sym s) (with_depth-IsNormal q (check_depth-ok q.search_depth k))

module _ {C : Type 0} (env : Environment) (d : Deployment C) where
  page-IsBound : (n : ℤ) → ltb_ℤ (pos 0) n ≡ true → IsBound (min_ℤ n max_page_size)
  page-IsBound n h = ground arith

  pub settle_pagination-IsBound :
      (q r : TraceQueryParams)
      → IsNormal q
      → settle_pagination env d q ≡ ok r
      → IsBound (bound_of r)
  unfolding settle_pagination
  settle_pagination-IsBound q r n h = elim (Option-cases q.pagination) [
    | inl e ↦
        let s : q ≡ r = cc (rw (settle_pagination, e) at h) in rw (sym s, e) (n.page_or_depth e)
    | inr (p, e) ↦
        let (c, t) =
          >>-ok (check_page_use env d q >> check_page_size env d p)
            (ok (record q { pagination = some (clamp p) })) (rw (settle_pagination, e) at h) in
        let (_, c') = >>-ok (check_page_use env d q) (check_page_size env d p) c in
        let s : record q { pagination = some (clamp p) } ≡ r = cc in
        rw (sym s) (page-IsBound p.page_size (check-ok _ _ c'))
  ]

  pub settle_query_filter-bound :
      (q r : TraceQueryParams) → settle_query_filter env d q ≡ ok r → bound_of r ≡ bound_of q
  unfolding settle_query_filter
  settle_query_filter-bound q r h = elim (Option-cases q.filter) [
    | inl e ↦ let s : r ≡ q = cc (rw (settle_query_filter, e) at h) in ap bound_of s
    | inr (f, e) ↦
        let (_, _, h') =
          >>=-ok (check_filter_use env d q)
            (λ _. (finalize_query_filter env d f >>= λ f'. ok (record q { filter = some f' })))
            (rw (settle_query_filter, e) at h) in
        let (f', _, t) =
          >>=-ok (finalize_query_filter env d f) (λ f'. ok (record q { filter = some f' })) h' in
        let s : r ≡ record q { filter = some f' } = cc in ap bound_of s
  ]
