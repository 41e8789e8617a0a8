-- ===== src/Lib.antt =====
-- agent-sets reviews pull requests with a language model: a webhook queues a pull request, the
-- pipeline cuts its diff to size and asks the model, and the processor validates, deduplicates,
-- merges and posts the comments. This library models the parts that carry this logic, over byte
-- strings.
--
-- The parts and their files:
-- - internal/splitter is Splitter: ParseFiles in Splitter/Files, splitLargeFileByHunks in
--   Splitter/Hunks, splitLargeHunk and splitLargeFileByLines in Splitter/Hunks/Lines,
--   groupIntoChunks and Split in Splitter/Group.
-- - internal/aggregator/result_aggregator.go is Aggregator.
-- - internal/domain is Domain, with NormalizePath in Domain/Paths.
-- - internal/processor is Processor: the markers that are written into comments and read back in
--   Processor/Markers, parseTableComments in Processor/Tables, fetchExistingAIComments and the
--   checks that use it in Processor/Existing.
-- - internal/splitter/diff_preprocessor.go is Splitter/Preprocess, with formatInt and
--   compressSpaces in Splitter/Spaces.
-- - internal/validator/comment_validator.go is Validator: addValidLine in Validator/Ranges,
--   normalizeFilePath in Validator/Names, parseDiff in Validator/Parse, the questions in
--   Validator/Answers. Maps holds Go's maps as lists of entries.
-- - internal/processor/comment_merger.go is Processor/Merger: Merge there, the texts of
--   FormatFileComment and FormatSummaryAddons in Processor/Merger/Format.
-- - validateComments, filterExistingFileComments and cleanSummaryMarkdown of internal/processor
--   are Processor/Posting.
-- - internal/sync is Sync: the lock by key in Sync/Lock, the debouncer in Sync/Debounce.
-- - internal/webhook is Webhook: ServeHTTP up to the payload that it stores in Webhook/Handler,
--   the worker pool in Webhook/Pool, the parser in Webhook/Parser, and in Webhook/System the
--   goroutines that share the payloads, the debouncer, the pool and the locks, as steps that
--   come in any order.
-- - internal/pipeline is Pipeline: the chunked review in Pipeline/Chunks, the strategies for a
--   review that is too large in Pipeline/Degradation, and the three stages with the adapter that
--   runs them in Pipeline/Stages. A review is a function of the number of the call and its
--   arguments, and the strategies give the list of the calls that they make.
-- - postComments and ProcessPullRequest of internal/processor are Processor/Posting/Calls, as
--   the list of the calls that add comments.
-- - internal/client, the sessions of the servers of tools with their circuits and the attempts
--   of a call, is Client/Connection, for one server.
-- - internal/filter is Filter: the chain in Filter/Chain, the pruning of payloads in
--   Filter/Payload, the cutting of answers in Filter/Response, on the JSON values of
--   Filter/Values. Pruning stops below 11 levels, and prune is given the levels that are left.
-- - internal/storage is Storage: the statements of SQLite are the interface of Storage/Database,
--   with a table in memory in Storage/Database/Memory; SaveReview, GetReview and the lists are
--   Storage/Saved.
-- - internal/config is Config, with LoadConfig, Validate and the first steps of main in
--   Config/Load; the environment, the files and yaml.v3 are parameters.
-- - internal/client, the adapter of the language model with its semaphore, is Client/Model;
--   transport.go is Client/Transport, and the cache of tools of mcp_schemas.go is Client/Tools.
-- - internal/pipeline/prompt_loader.go is Pipeline/Prompts.
-- - InitializeConnections, SetResponseFilter and Close of internal/client/mcp.go are
--   Client/Startup, and the registry of internal/filter/chain.go is Filter/Registry.
-- - The rules of languages in internal/pipeline/stage_review.go and DetectLanguage of helpers.go
--   are Pipeline/Rules; a compiled regular expression is the test that it makes of a line.
-- - cmd/server/main.go is Server: the start up to the server, the routes with the probes, the
--   logger and the ways in which it ends.
-- - ProcessPullRequest with the storage and fetchDiff are Processor/Processing; the callers that
--   share a reconnection are Client/Connection/Shared.
-- - The data of the prompts of stage 3, with the loader and the rules of languages behind them,
--   are Pipeline/Stages/Prompted.
-- - The packages strings, strconv and regexp of Go, as far as the program calls them, are Text.
--   Prelude holds the names that all modules share.
--
-- A Go string is a list of bytes. A loop is a recursion on its collection, and its variables are
-- a record. The loops that move through lines by windows take the number of lines as fuel, which
-- is enough since each round moves on by at least one line. Counts and lengths are natural
-- numbers, for memory bounds them; scores and line numbers of comments are integers of 64 bits
-- that wrap around (Prelude/Int). A regular expression is a function that measures a match at
-- the head of a text; every part of the program's patterns ends in one place only, so no search
-- is left out. The case mappings of package strings are a parameter, CaseMap, and what gjson
-- reads from an answer of the server is an argument. sort.Slice and the order in which a map is
-- visited are parameters too, since Go fixes neither.
--
-- Webhook/System counts requests in fields that the program has not; they only say where each
-- request went.
--
-- Not modelled: the texts of prompts, logging, metrics, the listening of the server and its
-- signals, which are input and output through other packages; and the tests.
mod Prelude
pub mod Text
pub mod Maps
pub mod Domain
pub mod Aggregator
pub mod Splitter
pub mod Validator
pub mod Processor
pub mod Sync
pub mod Pipeline
pub mod Filter
pub mod Client
pub mod Webhook
pub mod Storage
pub mod Config
pub mod Server
mod Examples
