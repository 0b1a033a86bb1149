-- ===== src/Lib.antt =====
-- afair (afair/) is a self-hosted memory server: one SQLite vault of append-only events and
-- interpretations, an MCP endpoint with its own OAuth server and rate limits in front of it, and
-- cold-path workers that derive further rows in the background.
--
-- Each part below is a module that takes its state as a value and returns it changed.
--
-- - Prelude: Boolean tests, signed numbers (Prelude/Int), and a table as the list of its rows
--   with SELECT, UPDATE, DELETE and COUNT as functions (Prelude/Table) and their laws
--   (Prelude/TableLaws, Prelude/Counting), and ORDER BY with the first row of an order
--   (Prelude/Sorting).
-- - Oauth: afair/mcp/oauth. Oauth/Store has the four tables as a record `Vault` and the client
--   registry, Oauth/Codes the authorization codes and login states, Oauth/Refresh the refresh
--   tokens (all storage.py), Oauth/Jwt `issue_access_token` (jwt.py), Oauth/Grants the token and
--   revocation endpoints (routes.py). Oauth/Writes has a request as a sequence of statements, and
--   Oauth/History what holds over all such sequences.
-- - RateLimit: afair/mcp/rate_limit.py. Buckets is `TokenBucketRateLimiter`, Identity the two
--   ways to name a caller, Middleware the two ASGI middlewares.
-- - Watermarks: afair/substrate/watermarks.py. Store is the cursor table, Frontier the lagged
--   frontier, Cycle a drain cycle of SalienceWorker.run (afair/agents/salience.py) among
--   concurrent writers as a step relation, with its batch limit and the rows it passes over.
-- - Export: the asynchronous vault export. Jobs is the table (afair/substrate/export_jobs.py),
--   Runner the generation thread and the purge sweep (afair/mcp/export_job.py), Routes the
--   request and download endpoints (afair/mcp/export_async_routes.py). A row is returned whole
--   where the source drops the token's hash from it, and an artifact that is there is taken to be
--   readable.
-- - Belief: afair/substrate/belief.py. Predicates is the two gates on predicates, over the words
--   of a text, Trust the entrenchment, the auto-confirm policy and the trust states.
-- - Tuner: State is the table of the self-improvement tuner (afair/substrate/tuner_state.py),
--   Monitor what the rollback monitor watches and when it fires
--   (afair/agents/rollback_monitor.py). Values, Whitelist, Validate and Registry are the registry
--   of tunables (afair/agents/tunable_registry.py): what a value can be, which tunables there
--   are, which changes are accepted, and a reader with its cache and the recording of a change;
--   Registry also has the rollback that the monitor fires. Modes is the decision of the mode
--   switcher, by the thresholds in force (afair/agents/mode_switcher.py).
-- - Substrate: Events is the append-only log (afair/substrate/events.py), Interpretations the
--   table that is derived from it (afair/agents/interpretation.py), Invalidations the events that
--   supersede others (afair/agents/invalidation.py), and Retries the choice of extractions to try
--   again (afair/agents/extraction_retry.py). A payload is kept as far as the program reads it
--   again. The producer of an interpretation is its base with or without the number of a retry.
-- - Conflicts: afair/substrate/conflict_resolutions.py. Queue is the table with the reads of it
--   and the claim, Decide an operator's decision with what it writes to the log and the
--   interpretations, and the points where it can crash; Race has the queue among concurrent
--   claims and flags as a step relation. A losing side that is invalidated already is not
--   invalidated again.
-- - Entities: the merges of afair/substrate/entities.py. Merges has the two tables, the loop of
--   `resolve_canonical` over at most sixteen merges, and the recursive query of
--   `resolve_canonical_batch`, which follows as many; each has a query of its own for the latest
--   live merge of an entity, and Latest shows that they choose the same one.
--
-- What the program takes from elsewhere is a parameter: SHA-256, `str.lower`, PyJWT's encoder
-- (`Host`), the hash and the search text of a payload (Substrate's `Host`), SQL's LIKE and the
-- order of texts (`Likes`), Python's JSON and float() of a text (`Json`), text functions
-- (`Texts`), random texts and clock readings (`Draws`, or plain arguments). A uniqueness failure
-- of an INSERT is `none`, as is any exception that leaves a function; a statement that was
-- committed before it stays. Times are microseconds since the epoch as natural numbers, so that a
-- clock reading keeps its fraction of a second; an expiry is in whole seconds. Finite floats are
-- exact: a tunable is in millionths, or infinite or NaN, with Python's comparisons
-- (Tuner/Number); the monitor's rates are fractions, with what the rounding makes of a drop of
-- exactly a tenth as a parameter; and in the rate limiter a token is 60,000,000 units, so a
-- limiter of r requests a minute refills r units a microsecond, and what is said of a wait leaves
-- a second for the rounding. The only fuel is the source's own cap of sixteen merges; all other
-- loops run over a list.
--
-- Not modelled: HTTP parsing and rendering, SQL itself, logging, the LLM workers and their
-- prompts, embeddings, the MCP tool handlers, and the operator scripts; and, of the program's own
-- logic, the edges, mentions and kinds of the entity graph, corrections, the tuner's search, the
-- object store, API tokens and token validation, and the authorize and registration endpoints.
pub mod Prelude
pub mod Oauth
pub mod RateLimit
pub mod Watermarks
pub mod Export
pub mod Belief
pub mod Tuner
pub mod Substrate
pub mod Conflicts
pub mod Entities
