-- ===== src/QueryService/Writes.antt =====
-- What ArchiveTrace writes and how it ends, told from the traces that come before the first error
-- of the reader.
use jaeger.Prelude.{
  arith, List, [], ◌∷◌, ◌++◌, append-nil, append_assoc, Bool, true, false, ◌||◌, Option, none, some,
  ◌≡◌, refl, sym, ap, ◌∙◌, Result, ok, err,
}
use jaeger.Otlp.{Traces}
use jaeger.QueryService.Archive.{
  Archived, State, joined, archive_batch, archive_all, outcome, archive_trace,
}

-- The traces before the first error, and that error.
abbrev pub until_error : {E : Type 0} → List (Result E (List Traces)) → List Traces × Option E
until_error [] = ([], none)
until_error (err e ∷ seq) = ([], some e)
until_error (ok ts ∷ seq) = let r = until_error seq in (ts ++ r.0, r.1)

abbrev pub any_of : List Traces → Bool
any_of [] = false
any_of (t ∷ ts) = true

abbrev pub failures : {E : Type 0} → Option E → List E
failures none = []
failures (some e) = e ∷ []

-- How an archiving ends that wrote `ts` with the failures `es`, by the error of the reader.
abbrev pub ending : {E : Type 0} → List Traces → List E → Option E → Archived E
ending ts es (some e) = Archived.failed (e ∷ [])
ending ts (e ∷ es) none = Archived.failed (e ∷ es)
ending (t ∷ ts) [] none = Archived.done
ending [] [] none = Archived.trace_not_found

module _ {E W : Type 0} (write : Traces → W → W × Option E) where
  -- Every trace is written, in order, and the errors are collected.
  abbrev pub write_all : List Traces → W → W × List E
  write_all [] w = (w, [])
  write_all (t ∷ ts) w = let r = write t w in let s = write_all ts r.0 in (s.0, failures r.1 ++ s.1)

  write_all-++ :
      (ts us : List Traces) (w : W)
      → write_all (ts ++ us) w ≡ (
        (write_all us (write_all ts w).0).0,
        (write_all ts w).1 ++ (write_all us (write_all ts w).0).1,
      )
  write_all-++ [] us w = refl
  write_all-++ (t ∷ ts) us w =
      rw
        (
          write_all-++ ts us (write t w).0,
          append_assoc (failures (write t w).1) (write_all ts (write t w).0).1
              (write_all us (write_all ts (write t w).0).0).1,
        )
        refl

  -- The error of the reader stands for all errors of writes before it.
  abbrev ended : List E → Option E → List E
  ended es none = es
  ended es (some e) = e ∷ []

  -- The state after these traces and this error of the reader.
  abbrev final : State E W → List Traces → Option E → State E W
  final s ts e = record {
    found = s.found || any_of ts;
    errors = ended (s.errors ++ (write_all ts s.archive).1) e;
    archive = (write_all ts s.archive).0;
  }

  joined-++ : (es : List E) (e : Option E) → joined es e ≡ es ++ failures e
  joined-++ es none = sym (append-nil es)
  joined-++ es (some e) = refl

  or_true : (b : Bool) → (b || true) ≡ true
  or_true b = ground arith

  or_false : (b : Bool) → (b || false) ≡ b
  or_false b = ground arith

  or_any :
      (b : Bool) (ts us : List Traces) → (b || any_of ts || any_of us) ≡ (b || any_of (ts ++ us))
  or_any b [] us = rw (or_false b) refl
  or_any b (t ∷ ts) us = rw (or_true b) refl

  archive_batch-final :
      (ts : List Traces) (s : State E W) → archive_batch write ts s ≡ final s ts none
  unfolding archive_batch
  archive_batch-final [] s = rw (or_false s.found, append-nil s.errors) refl
  archive_batch-final (t ∷ ts) s =
      let r = write t s.archive in
      let next : State E W = record { found = true; errors = joined s.errors r.1; archive = r.0 } in
      archive_batch-final ts next
      ∙ rw
          (
            or_true s.found,
            joined-++ s.errors r.1,
            append_assoc s.errors (failures r.1) (write_all ts r.0).1,
          )
          refl

  final-final :
      (s : State E W) (ts us : List Traces) (e : Option E)
      → final (final s ts none) us e ≡ final s (ts ++ us) e
  final-final s ts us e =
      rw
        (
          write_all-++ ts us s.archive,
          sym (or_any s.found ts us),
          append_assoc s.errors (write_all ts s.archive).1
              (write_all us (write_all ts s.archive).0).1,
        )
        refl

  archive_all-final :
      (seq : List (Result E (List Traces))) (s : State E W)
      → archive_all write seq s ≡ final s (until_error seq).0 (until_error seq).1
  unfolding archive_all
  archive_all-final [] s = rw (or_false s.found, append-nil s.errors) refl
  archive_all-final (err e ∷ seq) s = rw (or_false s.found) refl
  archive_all-final (ok ts ∷ seq) s =
      ap (archive_all write seq) (archive_batch-final ts s)
      ∙ archive_all-final seq (final s ts none)
      ∙ final-final s ts (until_error seq).0 (until_error seq).1

  outcome-ending :
      (ts : List Traces) (es : List E) (e : Option E)
      → outcome (any_of ts) (ended es e) ≡ ending ts es e
  unfolding outcome
  outcome-ending [] es (some e) = refl
  outcome-ending (t ∷ ts) es (some e) = refl
  outcome-ending [] [] none = refl
  outcome-ending (t ∷ ts) [] none = refl
  outcome-ending [] (x ∷ es) none = refl
  outcome-ending (t ∷ ts) (x ∷ es) none = refl

  -- ArchiveTrace, where there is an archive, writes all traces that come before the first error of
  -- the reader, in order. It fails with that error alone if there is one, otherwise with the errors
  -- of all writes that failed if there are any; with none of these it is done if it wrote a trace,
  -- and has found no trace if it wrote none.
  pub archive_trace-writes :
      (seq : List (Result E (List Traces))) (w : W)
      → archive_trace (some write) seq w ≡ (
        (write_all (until_error seq).0 w).0,
        ending (until_error seq).0 (write_all (until_error seq).0 w).1 (until_error seq).1,
      )
  unfolding archive_trace
  archive_trace-writes seq w =
      rw
        (
          archive_all-final seq (record { found = false; errors = []; archive = w }),
          outcome-ending (until_error seq).0 (write_all (until_error seq).0 w).1
              (until_error seq).1,
        )
        refl
