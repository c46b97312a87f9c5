-- ===== src/CriticalPath/Diverges.antt =====
-- computeCriticalPath has no guard against a cycle among the listed children.
use jaeger.Prelude.{nat_eq, ℕ, zero, suc, String, ◌≡◌, refl, ◌∙◌, List, none, some}
use jaeger.Prelude.Map.{lookup}
use jaeger.CriticalPath.Spans.{CpSpan, SpanMap}
use jaeger.CriticalPath.Compute.{Section, find_last_finishing_child_span, compute_critical_path}
use jaeger.CriticalPath.Walk.{compute_down}

-- From a span that is its own last finishing child no fuel is enough: the recursion does not end.
-- A trace gets there with one identifier on two spans, one of them the parent of the other.
pub compute_critical_path-diverges :
    (show_id : ℕ → String) (m : SpanMap) (k : ℕ) (s c : CpSpan)
    → lookup k m ≡ some s
    → find_last_finishing_child_span m s none ≡ some c
    → c.span_id ≡ k
    → (fuel : ℕ) (path : List Section) → compute_critical_path show_id fuel m k path none ≡ none
unfolding compute_critical_path
compute_critical_path-diverges show_id m k s c found last self zero path = refl
compute_critical_path-diverges show_id m k s c found last self (suc fuel) path =
    compute_down show_id m fuel k s path none found c last
    ∙ rw self (compute_critical_path-diverges show_id m k s c found last self fuel _)
