-- ===== src/Lib.antt =====
-- A model of batchflow, a Go library that gathers requests into batches, coalesces duplicates in them,
-- and writes each batch to a back end with limited concurrency, retries and metrics.
--
-- How the parts interact. A Request holds the values of one row for a schema. BatchFlow.Submit puts it
-- into the channel of a pipeline, which belongs to another package and calls the flush function of
-- newBatchFlow with what it has received. That groups the requests by schema and hands the rows of each
-- group to ThrottledBatchExecutor, which lets a Coalescer merge duplicates, waits for a token of its
-- semaphore, and asks its processor for operations and to execute them, once or, if ClassifyError or
-- another classifier says that an error passes, again after a wait. SQLBatchProcessor makes its
-- operations by a driver, which deduplicates rows once more by the conflict columns and writes one
-- statement with placeholders, which a cache keeps; RedisBatchProcessor hands one command for each row
-- to a pipeline of the server.
--
-- Which file models which part, with paths from the root of the repository:
--   Model            model.go: Record, Batch; values by the dynamic types that request.go names
--   Schema           schema.go: Schema, SQLSchema, SQLOperationConfig and its options
--   Context          what the code reads of a context.Context: the answers of its Err method in order
--   Errors           error.go, and BatchError and SQLError with their texts
--   Request          request.go: the setters, the getters, Validate, GetOrderedValues
--   Coalescer        coalescer.go: KeyCoalescer.Coalesce; in Key its recordKey; in Slots the abstract
--                    list of slots that it implements
--   Driver           driver.go: prepareSQLRowsAndArgs and sqlUpdateColumns; in Placeholders
--                    generatePlaceholders with its cache; in Statements GenerateInsertSQL of the MySQL,
--                    PostgreSQL, SQLite and mock drivers; in Redis GenerateCmds
--   Classify         error_classification.go: ClassifyError; in Backends the rules of each database; in
--                    Registry RegisterErrorClassifier
--   Observability    observability.go: OperationPreview, BatchEvent, batchErrorFromError, fingerprints;
--                    in Observers the samplers, the redactors and the logging observer
--   SqlObservability sql_observability.go: GenerateSQLPreview and its OperationPreview
--   Executor         executor.go: ExecuteBatch; in Settings its options, in Attempt executeAttempt and
--                    handleRetry, in Backoff retryBackoff, in Reports what metrics reporters are told,
--                    in Limit concurrent calls at the semaphore, in Mock MockExecutor
--   Processor        processor.go: in Sql SQLBatchProcessor, in Redis RedisBatchProcessor; in Writes and
--                    Commands what they and ExecuteBatch do together, in Timeouts their time limits
--   BatchFlow        batchflow.go: Submit; in Config PipelineConfig with its defaults and Validate, in
--                    Setup the constructors, in Flush the flush function, in Stored that function over
--                    ExecuteBatch and a database, in Running the goroutines and the callers of Submit,
--                    Close and Wait, in Running.Entering how Submit is made of their steps, in Adapter
--                    the pipeline's own events
--   Prometheus       examples/metrics/prometheus: the labels of the metrics and of what the reporter writes
--   Prelude          lists, texts, maps, numbers and bits that the parts share
--   Tests            concrete runs
--
-- How state and effects are modelled. A method that changes an object returns the object that results.
-- A map is an association list, whose first entry for a key counts; a nil slice or map is the empty one.
-- An executor's effects are a history, newest action first: calls of the processor, of the reporter and
-- of the observer, tokens taken and given back, waits. The processor, the clock and the outcome of each
-- select are functions of the history before, so that they may be anything that a database, a scheduler
-- or a caller does; one call of ExecuteBatch is one sequence of steps. What the fmt package prints for
-- values, the hash and the word splitter behind fingerprints, and the floating-point product of the
-- jitter are parameters.
--
-- A schema is a pointer in the queue of BatchFlow, since the flush function groups by it; the order in
-- which Go walks through a map is a parameter. Where goroutines share state, at the semaphore and in
-- BatchFlow.Running, each atomic step of the source is a step of a relation, and a state is reachable by
-- any order of steps. What the pipeline's package does there is what it documents: it receives from the
-- channel in order, and AsyncPerform returns when the channel is closed and empty or after its context
-- is cancelled.
--
-- Bounds and fuel. Every loop is structural recursion on the list that it runs over; the loop of attempts
-- recurses on the number of attempts, as the source counts them. Numbers of 64 bits are kept
-- modulo 2^64 where the code can wrap: in the keys of the placeholder cache, in the ids of classifiers,
-- in retryBackoff. Go's int is a natural number where the code only counts.
--
-- Not modelled: the reporter that does nothing; the names, help texts and buckets of the Prometheus
-- metrics and the server that shows them; ErrorChan, which belongs to the pipeline; the pipeline itself,
-- the database, the Redis client, the logger, the context package and the clock, which are parameters. Two
-- calls of the mock executor do not run at one time here. The coalescer copies a row before it changes it,
-- so that rows are values here. A schema in the queue is never nil, as Submit refuses that.
pub mod Prelude
pub mod Model
pub mod Schema
pub mod Context
pub mod Errors
pub mod Coalescer
pub mod Driver
pub mod Request
pub mod Classify
pub mod Observability
pub mod Executor
pub mod SqlObservability
pub mod Processor
pub mod BatchFlow
pub mod Prometheus
pub mod Tests
