-- ===== src/Lib.antt =====
-- Jaeger is a distributed tracing platform in Go. This library models the parts of it that
-- assemble and analyse traces: the aggregation of chunked trace data in internal/jptrace, which
-- every reader of the storage API goes through, the in-memory storage behind that API, the filters
-- of a search and the way of a search through the query service, and the critical path
-- computation. Traces come out of the storage as a sequence of chunks; the aggregator makes whole
-- traces of them, marks those it cuts by a warning on a span, and the critical path is computed on
-- one whole trace.
--
-- Which file models what:
--  - Prelude and its children: shared names, Boolean tests, signed integers, Go's maps as
--    association lists, uint64 with its wrap-around.
--  - Otlp: the shape of the third-party package pdata, the data that all parts read and write, and
--    `flatten`, which lists a trace's spans, each with its resource and scope.
--  - Jptrace.Warning: internal/jptrace/warning.go, AddWarnings and GetWarnings.
--  - Jptrace.Spans: internal/jptrace/spaniter.go, SpanIter and GetTraceID.
--  - Jptrace.Aggregator.Copy: copySpansUpToLimit, MergeTraces, mergeTracesWithLimit of
--    internal/jptrace/aggregator.go; Jptrace.Aggregator.Stream: markTraceTruncated,
--    AggregateTracesWithLimit and AggregateTraces. Groups holds the reference description of what
--    is emitted; CopyLaws, Merge, Tracks, Steps and Result prove that the code gives it; Protocol
--    is about when the consumer is called.
--  - CriticalPath.Spans, Sanitize and Compute: cpspan.go, sanitize.go, find_lfc.go and
--    criticalpath.go of
--    cmd/jaeger/internal/extension/jaegerquery/internal/mcptools/internal/criticalpath. Latest,
--    Forest and Walk, Fit and Nesting, and Diverges hold the proofs.
--  - Jptrace.Names: spankind.go, valuetype.go, statuscode.go and spanmap.go of internal/jptrace.
--    Jptrace.Convert: attributes.go, timestamp.go and ids.go beside them. Jptrace.Sanitizer:
--    sanitizer.go, emptyservicename.go, emptyspanname.go and negative_duration_santizer.go of
--    internal/jptrace/sanitizer. Services and Spans below it hold the proofs.
--  - Skew: the skew of a span against its parent, from clockskew.go of
--    cmd/jaeger/internal/extension/jaegerquery/internal/adjuster; its walk over the spans is not
--    modelled.
--  - Memory.Clock and Match: Go's times, and the span matcher of
--    internal/storage/v2/memory/tenant.go. Memory.Tenant: the ring of one tenant with its index,
--    storeTraces, findTraceAndIds and getTraces; Dependencies: getDependencies. Memory.Reshuffle
--    and Store: memory.go, the regrouping of what is written, and the store of all tenants. Ring,
--    Reads, Search, Spread and Grouping hold the proofs.
--  - Memory.Sampling: internal/storage/v2/memory/sampling.go; Window holds its proofs.
--  - Tracestore.Expression and Errors: the terms of filters, from the package query/expression of
--    jaeger-idl, and what the functions on filters answer. Pattern, Validate and Check:
--    filter_validate.go of internal/storage/v2/api/tracestore; Resolve: filter_resolve.go and
--    filter_finalize.go; Query: the query of reader.go and capabilities.go; Shape: shape.go;
--    Admission: admission.go. Comparison, Typed, Settled, Pairwise, Final, Finalize, Question,
--    Elements, Conjuncts, Legacy, Declared and Rewrite hold the proofs.
--  - QueryService: querysvc below cmd/jaeger/internal/extension/jaegerquery. Errors and Reader:
--    filter.go; Envelope and Prepare: the checks of service.go on a search; Interceptor:
--    interceptor.go, with the hooks of components/extension/jaegerquery/queryinterceptor as
--    parameters. Archive: ArchiveTrace; Summary: summary.go. Served, Hooks, Restriction, Bounds,
--    Steps, Dispatch, Writes and Counts hold the proofs.
--  - Tests: runs on concrete data, and each theorem with hypotheses applied to some.
--
-- How the code is read. A function that changes pdata in place returns the new value. The callback
-- of AggregateTracesWithLimit is a step on a record of the variables that it captures; the
-- consumer is a function from all that was emitted so far to its answer, so that it may answer
-- differently each time. A `return` in the middle of nested loops is a test that every outer loop
-- makes again. Identifiers are numbers with 0 for the empty one; timestamps are nanoseconds as
-- uint64. The order in which Go ranges over a map is an argument. Errors are values.
--
-- Parameters: the built-in fields of filters, with their types, levels and the bound on nesting
-- (Vocabulary in Tracestore.Expression, FieldNames in Shape), Go's readers of numbers and times
-- beside them, its parser of regular expressions, and reflect.DeepEqual on filters (Environment in
-- QueryService.Interceptor); the feature gates, the interceptors and the answer of the reader to
-- SearchCapabilities (Deployment in QueryService.Prepare), the same for one context. A panic on a
-- nil pointer is an error of its own in ToLegacyShape and EnsureSupported. The printing of
-- attribute values and of span identifiers, which pdata does (ValueText in Otlp, `show_id` in
-- CriticalPath.Compute), its conversion of timestamps and names of span kinds, and Go's conversion
-- of letters to upper and lower case (Readings in Memory.Match). cloneTrace copies, which values
-- need not.
--
-- Fuel and bounds: computeCriticalPath recurses without a measure of its own, so the model takes
-- fuel, and `none` means that it ran out. CriticalPath.Forest.bound is a number of calls that is
-- enough on a forest of nested spans. Arithmetic on times in the critical path wraps at 2^64.
-- Counts of spans are natural numbers: they are lengths of lists in memory, far below 2^63, and so
-- is the copy limit, which is positive wherever it is used. A maxSize is an integer, as it may be
-- negative.
--
-- Not modelled: serialization and servers (protobuf, gRPC, HTTP, JSON), configuration and
-- start-up, metrics and logging, the storage backends other than as listed, and locks, whose
-- critical sections run as single steps.
pub mod Prelude
pub mod Otlp
pub mod Jptrace
pub mod CriticalPath
pub mod Memory
pub mod Skew
pub mod Tracestore
pub mod QueryService
pub mod Tests
