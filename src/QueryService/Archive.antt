-- ===== src/QueryService/Archive.antt =====
-- ArchiveTrace of querysvc/service.go: a trace is read from the primary storage and written to the
-- archive. The sequence that the reader gives is a list of batches and errors; `W` is the state of
-- the archive, and a write that fails gives its error.
use jaeger.Prelude.{List, [], ◌∷◌, ◌++◌, Bool, true, false, Option, none, some, Result, ok, err}
use jaeger.Otlp.{Traces}

-- How ArchiveTrace ends: the errors are those that it joins.
pub data Archived (E : Type 0) : Type 0 where
  done no_archive_storage trace_not_found : Archived E
  failed : List E → Archived E

-- The variables that the callback captures, and the archive.
pub record State (E W : Type 0) : Type 0 where
  pub found : Bool
  pub errors : List E
  pub archive : W

abbrev pub joined : {E : Type 0} → List E → Option E → List E
joined es none = es
joined es (some e) = es ++ e ∷ []

-- The end of ArchiveTrace.
unfoldable pub outcome : {E : Type 0} → Bool → List E → Archived E
outcome true [] = Archived.done
outcome false [] = Archived.trace_not_found
outcome found (e ∷ es) = Archived.failed (e ∷ es)

module _ {E W : Type 0} where
  module _ (write : Traces → W → W × Option E) where
    -- The loop of the callback over a batch.
    unfoldable pub archive_batch : List Traces → State E W → State E W
    archive_batch [] s = s
    archive_batch (t ∷ ts) s =
        let r = write t s.archive in
        archive_batch ts (record { found = true; errors = joined s.errors r.1; archive = r.0 })

    -- The callback on each element of the sequence, until it answers false.
    unfoldable pub archive_all : List (Result E (List Traces)) → State E W → State E W
    unfolding archive_batch
    archive_all [] s = s
    archive_all (err e ∷ seq) s = record s { errors = e ∷ [] }
    archive_all (ok ts ∷ seq) s = archive_all seq (archive_batch ts s)

  -- ArchiveTrace; `none` is a deployment without an archive.
  unfoldable pub archive_trace :
      Option (Traces → W → W × Option E) → List (Result E (List Traces)) → W → W × Archived E
  unfolding archive_all outcome
  archive_trace none seq w = (w, Archived.no_archive_storage)
  archive_trace (some write) seq w =
      let s = archive_all write seq (record { found = false; errors = []; archive = w }) in
      (s.archive, outcome s.found s.errors)
