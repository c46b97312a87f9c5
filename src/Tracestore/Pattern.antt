-- ===== src/Tracestore/Pattern.antt =====
-- The regular expressions of filters, checkPortable of
-- internal/storage/v2/api/tracestore/filter_validate.go. Go's regexp/syntax parses a pattern; here
-- is the shape of what it gives.
use jaeger.Prelude.{Bool, ok, err, Check, ◌>>◌, if◌then◌else◌}
use jaeger.Tracestore.Errors.{FilterError}

-- syntax.Op, with those that checkPortable asks for.
pub data RegexpOp : Type 0 where
  begin_line end_line begin_text end_text word_boundary no_word_boundary other : RegexpOp

mutual
  pub data Regexp : Type 0 where
    node : RegexpOp → Bool → Bool → Regexps → Regexp

  pub data Regexps : Type 0 where
    nil : Regexps
    cons : Regexp → Regexps → Regexps

unfoldable pub check_op : RegexpOp → Check FilterError
check_op RegexpOp.begin_line = err FilterError.anchored
check_op RegexpOp.end_line = err FilterError.anchored
check_op RegexpOp.begin_text = err FilterError.anchored
check_op RegexpOp.end_text = err FilterError.anchored
check_op RegexpOp.word_boundary = err FilterError.word_boundary
check_op RegexpOp.no_word_boundary = err FilterError.word_boundary
check_op RegexpOp.other = ok tt

unfoldable pub check_flags : Bool → Bool → Check FilterError
check_flags non_greedy fold_case =
    if non_greedy
    then err FilterError.lazy
    else if fold_case
    then err FilterError.folds_case
    else ok tt

-- checkPortable; the flags of a node are NonGreedy and FoldCase.
unfoldable mutual
  unfolding check_op check_flags

  pub check_portable : Regexp → Check FilterError
  check_portable (Regexp.node op non_greedy fold_case subs) =
      check_op op >> check_flags non_greedy fold_case >> check_portable_all subs

  pub check_portable_all : Regexps → Check FilterError
  check_portable_all Regexps.nil = ok tt
  check_portable_all (Regexps.cons re subs) = check_portable re >> check_portable_all subs
