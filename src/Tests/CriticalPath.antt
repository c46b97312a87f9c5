-- ===== src/Tests/CriticalPath.antt =====
-- Tests of the modules below CriticalPath.
use mathlib.Core.Path.{subst}
use native.Mathlib.Decide.{ℕ_discrete}
use jaeger.Prelude.{
  ℕ, ◌==◌, false, ◌⊎◌, sym, ap, zero, suc, String, ◌+◌, ◌<◌, ◌≡◌, refl, none, some, List, [], ◌∷◌,
  All, In, inl, inr, arith, nat_eq,
}
use jaeger.Prelude.Map.{lookup}
use jaeger.Prelude.Words.{add64, sub64, u64_mod}
use jaeger.CriticalPath.Spans.{CpSpan, SpanMap, create_cp_span_map}
use jaeger.CriticalPath.Sanitize.{remove_overflowing_children}
use jaeger.CriticalPath.Compute.{Section, find_last_finishing_child_span, compute_critical_path}
use jaeger.CriticalPath.Latest.{Last, find_last_finishing_child_span-Last}
use jaeger.CriticalPath.Forest.{IsForest, Tiles, Owned, bound}
use jaeger.CriticalPath.Walk.{compute_critical_path-Tiles}
use jaeger.CriticalPath.Diverges.{compute_critical_path-diverges}
use jaeger.CriticalPath.Fit.{IsKeyed, Fits}
use jaeger.CriticalPath.Nesting.{remove_overflowing_children-nests}
use jaeger.Tests.Data.{span, one_resource}

abbrev show : ℕ → String
show _ = "s"

abbrev root : CpSpan
root = record {
  span_id = 1;
  parent_span_id = 0;
  start_time = 10;
  duration = 20;
  child_span_ids = 2 ∷ 3 ∷ [];
}

abbrev kid : CpSpan
kid = record { span_id = 2; parent_span_id = 1; start_time = 12; duration = 8; child_span_ids = [] }

abbrev tree : SpanMap
tree = (1, root) ∷ (2, kid) ∷ []

abbrev depth : ℕ → ℕ
depth zero = 0
depth (suc zero) = 0
depth (suc (suc k)) = 1

abbrev home : ℕ → ℕ
home _ = 1

lookup_two :
    (a b : CpSpan) (k : ℕ) (s : CpSpan)
    → lookup k ((1, a) ∷ (2, b) ∷ []) ≡ some s
    → ((k ≡ 1) × (s ≡ a)) ⊎ ((k ≡ 2) × (s ≡ b))
unfolding lookup
lookup_two a b k s found = elim (ℕ_discrete k 1) [
  | yes one ↦ let f : some a ≡ some s = rw one at found in inl (one, cc)
  | no first ↦
      let e : (1 == k) ≡ false = ground arith in
      elim (ℕ_discrete k 2) [
        | yes two ↦ let f : some b ≡ some s = rw two at found in inr (two, cc)
        | no second ↦ let e' : (2 == k) ≡ false = ground arith in absurd (cc (rw (e, e') at found))
      ]
]

tree_cases :
    (k : ℕ) (s : CpSpan) → lookup k tree ≡ some s → ((k ≡ 1) × (s ≡ root)) ⊎ ((k ≡ 2) × (s ≡ kid))
tree_cases = lookup_two root kid

tree-child :
    (k c : ℕ) (s x : CpSpan)
    → lookup k tree ≡ some s
    → In c s.child_span_ids
    → lookup c tree ≡ some x
    → (k ≡ 1) × (s ≡ root) × (c ≡ 2) × (x ≡ kid)
tree-child k c s x found listed found' = elim (tree_cases k s found) [
  | inl (a, b) ↦ elim (tree_cases c x found') [
    | inl (d, e) ↦ absurd (elim (subst (λ (s : CpSpan). In c s.child_span_ids) b listed) [
      | inl two ↦ omega arith
      | inr later ↦ elim later [ inl three ↦ omega arith | inr none_left ↦ none_left ]
    ])
    | inr (d, e) ↦ (a, b, d, e)
  ]
  | inr (a, b) ↦ absurd (subst (λ (s : CpSpan). In c s.child_span_ids) b listed)
]

tree-IsForest : IsForest tree depth home 1
unfolding lookup
tree-IsForest = record {
  key = λ k s found. ground arith;
  no_wrap = λ k s found. ground arith;
  below = λ k s found. elim (tree_cases k s found) [
    | inl (a, _) ↦ rw a (omega arith)
    | inr (a, _) ↦ rw a (omega arith)
  ];
  child = λ k c s x found listed found'.
      let (a, b, d, e) = tree-child k c s x found listed found' in
      rw (a, b, d, e) (omega arith, omega arith, omega arith, refl, refl);
  parent = λ k s found has. elim (tree_cases k s found) [
    | inl (_, b) ↦ absurd (has (rw b refl))
    | inr (a, b) ↦ rw (a, b) (root, refl, omega arith, omega arith, refl, refl)
  ];
  root = λ k s found parentless. elim (tree_cases k s found) [
    | inl (a, _) ↦ sym a
    | inr (_, b) ↦ absurd (omega (arith, ap (λ (s : CpSpan). s.parent_span_id) b))
  ];
}

compute_critical_path-Tiles_example :
    (path : List Section) × (compute_critical_path show 1000 tree 1 [] none ≡ some path)
    × Tiles 10 30 path
    × All (Owned show tree) path
unfolding lookup bound
compute_critical_path-Tiles_example =
    compute_critical_path-Tiles show tree tree-IsForest 1 root refl refl 1000 (omega arith)

path_run :
    compute_critical_path show 1000 tree 1 [] none
    ≡ some (
        record { span_id = "s"; section_start = 20; section_end = 30 }
        ∷ record { span_id = "s"; section_start = 12; section_end = 20 }
        ∷ record { span_id = "s"; section_start = 10; section_end = 12 }
        ∷ [])
unfolding compute_critical_path add64
path_run = refl

find_last_finishing_child_span-Last_example :
    Last tree none (2 ∷ 3 ∷ []) (find_last_finishing_child_span tree root none)
find_last_finishing_child_span-Last_example = find_last_finishing_child_span-Last tree root none

-- The second span has the identifier of the first one, and names it as its parent.
abbrev knot : SpanMap
knot = (1, record root { parent_span_id = 1; child_span_ids = 1 ∷ [] }) ∷ []

knot_arises :
    remove_overflowing_children
      (1 ∷ [])
      (create_cp_span_map (one_resource (span 9 1 0 10_000 30_000 ∷ span 9 1 1 10_000 30_000 ∷ [])))
    ≡ knot
unfolding remove_overflowing_children create_cp_span_map add64 sub64
knot_arises = refl

compute_critical_path-diverges_example : compute_critical_path show 77 knot 1 [] none ≡ none
unfolding find_last_finishing_child_span lookup add64
compute_critical_path-diverges_example =
    compute_critical_path-diverges show knot 1 _ _ refl refl refl 77 []

abbrev parent_of : ℕ → ℕ
parent_of zero = 0
parent_of (suc zero) = 0
parent_of (suc (suc k)) = 1

abbrev loose : SpanMap
loose = (1, root) ∷ (2, record kid { start_time = 5; duration = 90 }) ∷ []

abbrev long : CpSpan
long = record kid { start_time = 5; duration = 90 }

loose-IsKeyed : IsKeyed parent_of loose
loose-IsKeyed = record {
  id = λ k s found. (at k s found).0;
  up = λ k s found. (at k s found).1;
  no_wrap = λ k s found. (at k s found).2;
}
  where
    at :
        (k : ℕ) (s : CpSpan)
        → lookup k loose ≡ some s
        → (s.span_id ≡ k) × (s.parent_span_id ≡ parent_of k) × (s.start_time + s.duration < u64_mod)
    at k s found = elim (lookup_two root long k s found) [
      | inl (a, b) ↦ rw (a, b) (refl, refl, omega arith)
      | inr (a, b) ↦ rw (a, b) (refl, refl, omega arith)
    ]

loose_covered : (k : ℕ) (s : CpSpan) → lookup k loose ≡ some s → In k (1 ∷ 2 ∷ [])
loose_covered k s found = elim (lookup_two root long k s found) [
  | inl (a, _) ↦ inl a
  | inr (a, _) ↦ inr (inl a)
]

fitted :
    lookup 2 (remove_overflowing_children (1 ∷ 2 ∷ []) loose)
    ≡ some (record kid { start_time = 10; duration = 20 })
unfolding remove_overflowing_children add64 sub64
fitted = refl

remove_overflowing_children-nests_example :
    (p : CpSpan) × (lookup 1 (remove_overflowing_children (1 ∷ 2 ∷ []) loose) ≡ some p)
    × Fits (record kid { start_time = 10; duration = 20 }) p
remove_overflowing_children-nests_example =
    remove_overflowing_children-nests parent_of (1 ∷ 2 ∷ []) loose loose-IsKeyed loose_covered
      (λ e. omega (arith, e), not_listed, (λ e. omega (arith, e), λ i. i, tt)) 2 _ fitted
      (λ e. omega (arith, e))
  where
    not_listed : ¬ In {A = ℕ} 0 (2 ∷ [])
    not_listed i = elim i [ inl e ↦ omega (arith, e) | inr r ↦ r ]
