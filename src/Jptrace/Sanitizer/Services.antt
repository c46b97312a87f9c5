-- ===== src/Jptrace/Sanitizer/Services.antt =====
-- What sanitizeEmptyServiceName, internal/jptrace/sanitizer/emptyservicename.go, does to each
-- resource.
use jaeger.Prelude.{
  String, [], ◌∷◌, false, Option, none, some, map, ◌==◌, string_eq, ==_iff, ◌≡◌, ◌≢◌, refl, sym,
  Bool-cases, inl, inr, arith, ap, Each, Each-map,
}
use jaeger.Prelude.Map.{lookup, lookup-insert_self, lookup-insert_ne}
use jaeger.Otlp.{Value, ResourceSpans, Traces}
use jaeger.Jptrace.Sanitizer.{
  any, service_name_fix, service_name_is_bad, put_service_name, fix_service_name,
  sanitize_empty_service_name,
}

abbrev pub name_of : ResourceSpans → Option Value
name_of r = lookup "service.name" r.resource

-- `r'` is `r` with a service name that is a text and not empty: its own, or the placeholder for
-- what `r` has instead.
pub record Repairs (r r' : ResourceSpans) : Type 0 where
  pub text : (s : String) × (s ≢ "") × (name_of r' ≡ some (Value.str s))
  pub own : (s : String) → s ≢ "" → name_of r ≡ some (Value.str s) → r' ≡ r
  pub blank : name_of r ≡ some (Value.str "") → name_of r' ≡ some (Value.str "empty-service-name")
  pub missing : name_of r ≡ none → name_of r' ≡ some (Value.str "missing-service-name")
  pub mistyped :
      (v : Value)
      → ((s : String) → v ≢ Value.str s)
      → name_of r ≡ some v
      → name_of r' ≡ some (Value.str "service-name-wrong-type")
  pub others : (k : String) → "service.name" ≢ k → lookup k r'.resource ≡ lookup k r.resource
  pub schema : r'.schema_url ≡ r.schema_url
  pub scopes : r'.scope_spans ≡ r.scope_spans

mistyped_lem :
    (r : ResourceSpans) (v : Value)
    → ((s : String) → v ≢ Value.str s)
    → name_of r ≡ some v
    → Repairs r (put_service_name (some "service-name-wrong-type") r)
unfolding put_service_name
mistyped_lem r v other h = record {
  text = (
    "service-name-wrong-type",
    λ e. ground (arith, ==_iff {A = String} "service-name-wrong-type" ""),
    lookup-insert_self _ _ r.resource,
  );
  own = λ s n e. absurd (other s (cc));
  blank = λ e. absurd (other "" (cc));
  missing = λ e. cc;
  mistyped = λ w o e. lookup-insert_self _ _ r.resource;
  others = λ k n. lookup-insert_ne _ k _ r.resource n;
  schema = refl;
  scopes = refl;
}

missing_lem :
    (r : ResourceSpans)
    → name_of r ≡ none
    → Repairs r (put_service_name (some "missing-service-name") r)
unfolding put_service_name
missing_lem r h = record {
  text = (
    "missing-service-name",
    λ e. ground (arith, ==_iff {A = String} "missing-service-name" ""),
    lookup-insert_self _ _ r.resource,
  );
  own = λ s n e. cc;
  blank = λ e. cc;
  missing = λ e. lookup-insert_self _ _ r.resource;
  mistyped = λ w o e. cc;
  others = λ k n. lookup-insert_ne _ k _ r.resource n;
  schema = refl;
  scopes = refl;
}

blank_lem :
    (r : ResourceSpans)
    → name_of r ≡ some (Value.str "")
    → Repairs r (put_service_name (some "empty-service-name") r)
unfolding put_service_name
blank_lem r h = record {
  text = (
    "empty-service-name",
    λ e. ground (arith, ==_iff {A = String} "empty-service-name" ""),
    lookup-insert_self _ _ r.resource,
  );
  own = λ s n e. absurd (n (cc));
  blank = λ e. lookup-insert_self _ _ r.resource;
  missing = λ e. cc;
  mistyped = λ w o e. absurd (o "" (cc));
  others = λ k n. lookup-insert_ne _ k _ r.resource n;
  schema = refl;
  scopes = refl;
}

own_lem : (r : ResourceSpans) (s : String) → s ≢ "" → name_of r ≡ some (Value.str s) → Repairs r r
own_lem r s full h = record {
  text = (s, full, h);
  own = λ t n e. refl;
  blank = λ e. absurd (full (cc));
  missing = λ e. cc;
  mistyped = λ w o e. absurd (o s (cc));
  others = λ k n. refl;
  schema = refl;
  scopes = refl;
}

put_service_name-Repairs :
    (r : ResourceSpans) (o : Option Value)
    → name_of r ≡ o
    → Repairs r (put_service_name (service_name_fix o) r)
unfolding put_service_name service_name_fix
put_service_name-Repairs r none h = missing_lem r h
put_service_name-Repairs r (some (Value.str s)) h = elim (Bool-cases (s == "")) [
  | inl blank ↦ rw blank (blank_lem r (rw (← (==_iff s "").0 blank) h))
  | inr full ↦ rw full (own_lem r s (λ e. ground (arith, ==_iff s "")) h)
]
put_service_name-Repairs r (some Value.empty) h = mistyped_lem r _ (λ s. cc) h
put_service_name-Repairs r (some (Value.bool _)) h = mistyped_lem r _ (λ s. cc) h
put_service_name-Repairs r (some (Value.int _)) h = mistyped_lem r _ (λ s. cc) h
put_service_name-Repairs r (some (Value.double _)) h = mistyped_lem r _ (λ s. cc) h
put_service_name-Repairs r (some (Value.bytes _)) h = mistyped_lem r _ (λ s. cc) h
put_service_name-Repairs r (some (Value.slice _)) h = mistyped_lem r _ (λ s. cc) h
put_service_name-Repairs r (some (Value.kvlist _)) h = mistyped_lem r _ (λ s. cc) h

fix_service_name-Repairs : (r : ResourceSpans) → Repairs r (fix_service_name r)
unfolding fix_service_name
fix_service_name-Repairs r = put_service_name-Repairs r (name_of r) refl

-- A resource that is not bad keeps its name.
put-fix-good : (r : ResourceSpans) → service_name_is_bad r ≡ false → fix_service_name r ≡ r
unfolding service_name_is_bad fix_service_name put_service_name
put-fix-good r h = ground arith

map-fix-good : (t : Traces) → any service_name_is_bad t ≡ false → map fix_service_name t ≡ t
map-fix-good [] h = refl
map-fix-good (r ∷ t) h =
    rw (put-fix-good r (ground arith)) (ap (◌∷◌ r) (map-fix-good t (ground arith)))

sanitize-map : (t : Traces) → sanitize_empty_service_name t ≡ map fix_service_name t
unfolding sanitize_empty_service_name
sanitize-map t = elim (Bool-cases (any service_name_is_bad t)) [
  | inl bad ↦ rw bad refl
  | inr good ↦ rw good (sym (map-fix-good t good))
]

-- sanitizeEmptyServiceName keeps the resources in their places and gives each a service name that
-- is a text and not empty. A resource that has such a name stays as it is. Any other gets the
-- placeholder for what it has, an empty text, no service name or a value of another type, and
-- keeps its other attributes, its schema URL and its scopes with their spans.
pub sanitize_empty_service_name-Repairs :
    (t : Traces) → Each Repairs t (sanitize_empty_service_name t)
sanitize_empty_service_name-Repairs t =
    rw (sanitize-map t) (Each-map Repairs fix_service_name fix_service_name-Repairs t)
