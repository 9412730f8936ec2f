-- ===== src/Lib.antt =====
-- Verification of the conversational memory system: the read path that retrieves, ranks and composes
-- what the assistant remembers, the turn that answers with it, and the write path that stores what
-- the turn taught it.
--
-- The parts, and the files that model them:
--   Breaker.antt            retrieve/breaker.py: the record in Redis and the three Lua scripts (_ALLOW_LUA,
--                           _FAILURE_LUA, _SUCCESS_LUA), each one atomic step
--   Breaker/Events.antt     a fleet's history: a list of script runs by any replicas, and lock expiries
--   Breaker/Replica.antt    CircuitBreaker: _eval, allow, record_success, record_failure, snapshot,
--                           force_open, with calls whose reply is lost and calls that fail
--   Breaker/Laws, Invariant, Probes, Recovery.antt   the theorems on these
--   Retrieve.antt           retrieve/types.py
--   Retrieve/Guarded.antt   retrieve/guarded.py: guarded_hybrid_search and _total_failure, which run the
--                           search behind the breaker; Guarded/Effects, Outage.antt have the
--                           theorems
--   Retrieve/Features.antt  retrieve/features.py: the five signals, with the OverflowError of an integer
--                           too large for a float; Features/Unit.antt has their bounds
--   Retrieve/Ranking.antt   retrieve/ranking.py: score_breakdown, _sort_key, rank; Ranking/Order.antt
--   Retrieve/Hybrid.antt    retrieve/hybrid.py: _run_path, _normalize, _merge, hybrid_search; Hybrid/Ids,
--                           Degraded.antt have the theorems
--   Context/Text.antt       the text functions of context/composer.py (_clean)
--   Context/Tokens.antt     context/tokens.py: count_tokens, estimate_tokens, encoding_for
--   Context/Composer.antt   context/composer.py: the drop loop and compose_profile_block;
--                           Composer/Victim, Fit, Block.antt have the theorems; Context/Compose.antt is
--                           compose, which ranks first
--   Store.antt              the rows of `memories`, row level security, UPDATE; Store/Updates.antt
--   Store/Attributes.antt   capture/attributes.py: the slots
--   Store/Audit.antt        store/audit.py: write_audit, write_audit_many; Audit/Once.antt; Audit/Reads.antt
--                           record_read_audit, count_actions
--   Store/Memories.antt     store/memories.py: the statements of the write path
--   Store/Persist.antt      store/memories.py: persist_candidates, which runs them and the audit;
--                           Persist/Isolation, Slots, Uniqueness, Assistant, Trails, Growth.antt
--   Store/Migrate.antt      store/migrate.py: render, apply_all; Migrate/Ledger.antt
--   Store/Invalidate.antt   store/memories.py: invalidate_summaries_for, on the owner's connection
--   Api/Memories.antt       api/memories.py: ensure_owned, list_my_memories, delete_memory, patch_memory
--   Api/Memories/Requests.antt   the same requests as sequences of transactions that a schedule
--                           interleaves, and served one by one; Memories/Runs, Listing,
--                           Cascade.antt have the theorems, Deletes and Changes.antt their lemmas
--   Api/Memories/Shelf.antt what the endpoints promise, with no table; Shelf/Refines.antt shows that
--                           they keep it
--   Capture.antt            capture/ and graphs/capture_graph.py: Capture/Extract, Pii, Evaluate, Embed (with
--                           capture/dedup.py) have the nodes, Capture/Graph.antt the gates and run_capture,
--                           which ends in persist_candidates; Capture/Stages, Clean, Retries.antt and
--                           Store/Persist/Growth.antt have the theorems
--   Capture/Worker.antt     capture/worker.py: enqueue, _consume, _run_job as a step relation; Worker/Fate.antt
--   Jobs/Decay.antt         jobs/claims.py, jobs/decay.py, graphs/decay_graph.py: claim_batch, compute_updates,
--                           apply_weights, archive_rows, run_decay_worker, and the interleaved
--                           transactions of a run's workers; Decay/Drain, Sweep, Ending,
--                           Erased.antt
--   Jobs/Reflection.antt   jobs/reflection.py: write_summary, rebuild_stale_summaries; Reflection/Cleared.antt
--   Respond.antt            graphs/response_state.py, graphs/response_graph.py: the state, the events, the
--                           prompt; Respond/Graph.antt the nodes and the run, Respond/Parts.antt what fills
--                           its interface, Respond/Queue.antt stream_response as a step relation;
--                           Respond/Recollection.antt says what a turn has to go on;
--                           Respond/Transcript, Ends, Degraded, Surface, Shown, Sinks.antt have
--                           the theorems
--   Api/Chat.antt           api/chat.py: POST /chat; Chat/Same, Captures.antt have the theorems
--   Llm.antt                llm/config.py: _with_rate_limit_retry, complete, stream, embed; Llm/Retry,
--                           Streams, Vectors.antt have the theorems
--   Evals.antt              evals/metrics.py: score_query, aggregate and the metrics; Evals/Agree, Bounds,
--                           Pooled.antt have the theorems, Evals/Sets.antt the sets
--   Prelude.antt            the shared names, lists, tests, orders, permutations, sorting and options
--   */Examples.antt         runs on concrete values; Breaker/Cells.antt is a Redis of two cells
--
-- State is passed explicitly: a function that runs a script or a statement takes the store and returns
-- it. An exception is a constructor or `none`. What a search finds for a turn is rows of the store,
-- whose numeric columns do not overflow a float (Found in Respond/Parts.antt). Redis (Keyspace), Postgres' vector search, ids and clock
-- (Backend), tiktoken, Python's floats (Floats) and the rounding of scores are parameters, with the laws
-- that are used of them. Times of the breaker are ticks of 0.1 ms, those of the features microseconds.
--
-- Bounds: the drop loop runs on fuel of one more than the number of memories, and is proved to end
-- within it; the decay worker's loop has the source's own bound on batches (DECAY_MAX_BATCHES), and is
-- proved to drain the table within it where it is large enough. All else recurses on its data.
--
-- Not modelled: the SQL of the two retrieval paths, the search for JSON in a model's text, the selection
-- of the clusters that the reflection job summarises, the export of a subject's data: they are further
-- parts. Metrics, log lines, connection pools, the SQL of the migrations, the time limits of asyncio,
-- the scripts of the evaluation and the frontend are outside of it. A capture transaction is one step,
-- as its advisory lock makes it for one subject, and so is each transaction of an endpoint; a failure,
-- which rolls it back, is not a step, but for the audit of a turn and the migrations, which have theirs.
-- Row level security lets a session update only the rows that it sees.
pub mod Prelude
pub mod Breaker
pub mod Retrieve
pub mod Context
pub mod Store
pub mod Jobs
pub mod Api
pub mod Capture
pub mod Respond
pub mod Llm
pub mod Evals
