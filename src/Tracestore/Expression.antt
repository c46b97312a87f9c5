-- ===== src/Tracestore/Expression.antt =====
-- The terms of a structured filter, from the package query/expression of jaeger-idl, as far as
-- internal/storage/v2/api/tracestore reads them.
use jaeger.Prelude.{ℕ, String, List, Bool, true, false, ◌==◌, string_eq, Option}
use jaeger.Prelude.Int.{ℤ}

-- `unqualified` is the empty text.
pub data Level : Type 0 where
  unqualified span resource scope event link : Level
  other : String → Level

pub data Operator : Type 0 where
  and or not exists some in_list not_in regex eq ne gt lt gte lte : Operator
  other : String → Operator

-- `undeclared` is the empty text.
pub data ValueType : Type 0 where
  undeclared string int double bool : ValueType
  other : String → ValueType

pub data FieldType : Type 0 where
  undeclared string duration timestamp span_kind span_status : FieldType
  other : String → FieldType

-- The pointer types of terms, each of which has a nil.
pub data TermKind : Type 0 where
  attribute field nested any str int double bool duration timestamp list call : TermKind

-- A term; `absent` is the nil interface, `nil_of` a nil pointer of one of the types. A double is
-- given by its bits, a duration and an instant in nanoseconds.
mutual
  pub data Call : Type 0 where
    call : Operator → Terms → Call

  pub data Terms : Type 0 where
    nil : Terms
    cons : Term → Terms → Terms

  pub data Term : Type 0 where
    attribute : Level → String → Term
    field : Level → String → Term
    nested : Level → Term
    any : String → Term
    str : String → Term
    int : ℤ → Term
    double : ℕ → Term
    bool : Bool → Term
    duration : ℤ → Term
    timestamp : ℤ → Term
    list : ValueType → List String → Term
    predicate : Call → Term
    nil_of : TermKind → Term
    absent : Term

-- What is used of the package: the built-in fields with their types, the closed sets of words,
-- the tests of names, and the bound on nesting. Go's readers of numbers and times stand beside it.
pub record Vocabulary : Type 0 where
  pub lookup_field : Level → String → Option FieldType
  pub span_kinds : List String
  pub span_statuses : List String
  pub level_valid : Level → Bool
  pub value_type_valid : ValueType → Bool
  pub level_name : Level → String
  pub max_nesting_depth : ℕ
  pub parse_int : String → Option ℤ
  pub parse_float : String → Option ℕ
  pub parse_duration : String → Option ℤ
  pub parse_time : String → Option ℤ

abbrev pub op_of : Call → Operator
op_of (Call.call op args) = op

abbrev pub args_of : Call → Terms
args_of (Call.call op args) = args

abbrev pub same_level : Level → Level → Bool
same_level Level.unqualified Level.unqualified = true
same_level Level.span Level.span = true
same_level Level.resource Level.resource = true
same_level Level.scope Level.scope = true
same_level Level.event Level.event = true
same_level Level.link Level.link = true
same_level (Level.other a) (Level.other b) = a == b
same_level _ _ = false

abbrev pub same_operator : Operator → Operator → Bool
same_operator Operator.and Operator.and = true
same_operator Operator.or Operator.or = true
same_operator Operator.not Operator.not = true
same_operator Operator.exists Operator.exists = true
same_operator Operator.some Operator.some = true
same_operator Operator.in_list Operator.in_list = true
same_operator Operator.not_in Operator.not_in = true
same_operator Operator.regex Operator.regex = true
same_operator Operator.eq Operator.eq = true
same_operator Operator.ne Operator.ne = true
same_operator Operator.gt Operator.gt = true
same_operator Operator.lt Operator.lt = true
same_operator Operator.gte Operator.gte = true
same_operator Operator.lte Operator.lte = true
same_operator (Operator.other a) (Operator.other b) = a == b
same_operator _ _ = false
