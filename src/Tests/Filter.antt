-- ===== src/Tests/Filter.antt =====
-- Tests of the modules below Tracestore and QueryService.
use jaeger.Prelude.{
  ℕ, String, [], ◌∷◌, Bool, true, false, Option, none, some, if◌then◌else◌, ◌==◌, string_eq, ==_iff,
  ◌≡◌, refl, ok, inl, inr,
}
use jaeger.Prelude.Int.{pos}
use jaeger.Prelude.Map.{lookup}
use jaeger.Otlp.{Value}
use jaeger.Tracestore.Expression.{Level, Operator, ValueType, FieldType, Call, Term, Vocabulary}
use jaeger.Tracestore.Pattern.{Regexp}
use jaeger.Tracestore.Resolve.{
  finalize_filter, reference_first, check_membership, read_filter_element,
}
use jaeger.Tracestore.Elements.{read_filter_element-total}
use jaeger.Tracestore.Finalize.{finalize_filter_idem}
use jaeger.Tracestore.Question.{answer, answer-reference_first}
use jaeger.Tracestore.Query.{TraceQueryParams, SearchCapabilities, FilterCapabilities}
use jaeger.Tracestore.Shape.{FieldNames, compare, to_filter_shape, to_legacy_shape}
use jaeger.Tracestore.Legacy.{as_text, to_legacy_shape-to_filter_shape}
use jaeger.Tracestore.Admission.{ensure_supported}
use jaeger.Tracestore.Declared.{IsDeclared, ensure_supported-IsDeclared}
use jaeger.QueryService.Reader.{query_to_reader_shape}
use jaeger.QueryService.Served.{IsServed, bound_of, query_to_reader_shape-IsServed}
use jaeger.QueryService.Interceptor.{
  Interceptor, InterceptorQuery, Environment, on_trace_query, run_hooks, is_there,
}
use jaeger.QueryService.Restriction.{on_trace_query-keeps}
use jaeger.QueryService.Prepare.{Deployment, prepare_search_query, capabilities_or_default}
use jaeger.QueryService.Bounds.{IsBound}
use jaeger.QueryService.Dispatch.{
  IsAdmissible, prepare_search_query-IsBound, prepare_search_query-IsAdmissible,
}
use jaeger.Tests.Data.{text}

abbrev field_type_of : String → FieldType
field_type_of n = if n == "duration" then FieldType.duration else FieldType.string

abbrev vocabulary : Vocabulary
vocabulary = record {
  lookup_field = λ l n. some (field_type_of n);
  span_kinds = "server" ∷ [];
  span_statuses = "error" ∷ [];
  level_valid = λ l. true;
  value_type_valid = λ t. true;
  level_name = λ l. "span";
  max_nesting_depth = 8;
  parse_int = λ s. none;
  parse_float = λ s. none;
  parse_duration = λ s. some (pos 2000000000);
  parse_time = λ s. none;
}

abbrev no_regexp : String → Option Regexp
no_regexp s = none

-- `"2s" < span.duration`, and the same as FinalizeFilter gives it.
abbrev asked : Call
asked = compare Operator.lt (Term.any "2s") (Term.field Level.span "duration")

abbrev answered : Call
answered = compare Operator.gt (Term.field Level.span "duration") (Term.duration (pos 2000000000))

finalize_filter_idem_example : finalize_filter vocabulary no_regexp (some answered) ≡ ok answered
unfolding finalize_filter
finalize_filter_idem_example = finalize_filter_idem vocabulary no_regexp (some asked) answered refl

answer-reference_first_example :
    answer
      (λ t. pos 1)
      (reference_first Operator.lt (Term.any "2s") (Term.field Level.span "duration"))
    ≡ answer (λ t. pos 1) asked
answer-reference_first_example =
    answer-reference_first (λ t. pos 1) Operator.lt (Term.any "2s")
      (Term.field Level.span "duration")

read_filter_element-total_example :
    (c : Term) × (read_filter_element vocabulary (some ValueType.undeclared) FieldType.duration "2s"
      ≡ ok c)
unfolding check_membership
read_filter_element-total_example =
    read_filter_element-total vocabulary Level.span "duration" FieldType.duration
      ValueType.undeclared ("1s" ∷ "2s" ∷ []) "2s" refl refl (inr (inl refl))

abbrev names : FieldNames
names = record { service = "service"; name = "name"; duration = "duration" }

abbrev tagged : TraceQueryParams
tagged = record {
  service_name = "a";
  operation_name = "";
  attributes = ("k", Value.bool true) ∷ [];
  start_time_min = some (pos 1);
  start_time_max = some (pos 2);
  duration_min = pos 5;
  duration_max = pos 0;
  search_depth = pos 0;
  filter = none;
  pagination = some (record { page_size = pos 20000; page_token = "" });
}

to_legacy_shape-to_filter_shape_example :
    to_legacy_shape names (to_filter_shape names text tagged)
    ≡ ok (record tagged { attributes = as_text names text tagged tagged.attributes })
unfolding lookup
to_legacy_shape-to_filter_shape_example =
    to_legacy_shape-to_filter_shape names text tagged refl
      (λ e. absurd (cc ((==_iff names.duration names.name).1 e))) (refl, refl, tt)

abbrev declared : FilterCapabilities
declared = record { levels = Level.span ∷ []; operators = Operator.gt ∷ [] }

ensure_supported-IsDeclared_example : IsDeclared declared answered
unfolding ensure_supported
ensure_supported-IsDeclared_example = ensure_supported-IsDeclared declared answered refl

abbrev evaluates : SearchCapabilities
evaluates = record {
  without_service_name = true;
  same_span_conjunction = false;
  filter = some declared;
  paginated = false;
  span_search = false;
}

abbrev plain : TraceQueryParams
plain = record tagged { service_name = ""; attributes = []; duration_min = pos 0 }

abbrev filtered : TraceQueryParams
filtered = record plain { filter = some answered }

abbrev folded : TraceQueryParams
folded = record filtered { search_depth = pos 20000; pagination = none }

query_to_reader_shape-IsServed_example : IsServed evaluates filtered folded
unfolding query_to_reader_shape
query_to_reader_shape-IsServed_example =
    query_to_reader_shape-IsServed names evaluates filtered folded refl

abbrev same_filter : Option Call → Option Call → Bool
same_filter none none = true
same_filter _ _ = false

abbrev environment : Environment
environment = record {
  vocabulary = vocabulary;
  parse_regexp = no_regexp;
  names = names;
  text = text;
  same_filter = same_filter;
}

-- An interceptor that narrows a search, and one that passes it on.
abbrev hooked : Bool → Interceptor ℕ
hooked narrows = record {
  on_trace_query = λ ctx q. ok (ctx, if narrows then record q { filter = some asked } else q);
  on_trace_result = λ ctx ts. ok (ctx, ts);
  on_span_query = λ ctx q. ok (ctx, q);
  on_span_result = λ ctx ts. ok (ctx, ts);
}

abbrev narrowed : InterceptorQuery
narrowed = record {
  filter = some asked;
  start_time_min = some (pos 1);
  start_time_max = some (pos 2);
}

on_trace_query-keeps_example :
    is_there (to_filter_shape environment.names environment.text filtered).filter ≡ true
unfolding on_trace_query run_hooks to_filter_shape finalize_filter
on_trace_query-keeps_example =
    on_trace_query-keeps environment (hooked true ∷ []) (hooked false ∷ []) 0 plain (0, narrowed)
      (0, filtered) sound refl refl refl
  where
    sound : (f g : Option Call) → same_filter f g ≡ true → f ≡ g
    sound none none h = refl
    sound none (some g) h = cc
    sound (some f) g h = cc

abbrev deployment : Deployment ℕ
deployment = record {
  pagination_enabled = true;
  filters_enabled = true;
  interceptors = hooked true ∷ [];
  search_capabilities = λ ctx. some evaluates;
}

abbrev dispatched : TraceQueryParams
dispatched = record folded { search_depth = pos 10000 }

prepare_search_query-IsBound_example : IsBound (bound_of dispatched)
unfolding prepare_search_query
prepare_search_query-IsBound_example =
    prepare_search_query-IsBound environment deployment 0 plain (0, dispatched) refl

prepare_search_query-IsAdmissible_example :
    IsAdmissible environment deployment
      (capabilities_or_default environment deployment 0)
      dispatched
unfolding prepare_search_query
prepare_search_query-IsAdmissible_example =
    prepare_search_query-IsAdmissible environment deployment 0 plain (0, dispatched) refl
