-- ===== src/Lib.antt =====
-- A model of the core of milo-os/search, and what is proved of it.
--
-- The program keeps a Meilisearch instance in step with the resources of a Kubernetes control plane
-- and answers search requests over it. Policies (ResourceIndexPolicy) say which resources are indexed
-- and where. Audit events reach the indexer through JetStream. The indexer evaluates each against
-- the cached policies, turns matches into documents, and hands the operations of an event to a
-- batcher, together with the message. The batcher collects operations, flushes them in batches and
-- acknowledges the messages. A second consumer re-indexes single resources for a policy that changed.
-- The search endpoint classifies the requested kinds by the same policies, scopes the search to the
-- caller's tenant and pages through the results. A controller validates each policy, keeps its index
-- and the index's attributes in step with it, and publishes re-index messages when its spec changes.
--
-- The modules, each with the code it models:
--
-- Prelude: shared tests, lists, strings (as bytes), association lists for maps, errors, and signed
--   integers with the wrap-around of int32 and int64.
-- Api: JSON values (Api.Values) and pkg/apis/search/v1alpha1/policy_types.go (Api.Policies).
--   `ObjectApi` holds what the program asks of the Kubernetes library about an object.
-- Batcher: internal/indexer/batcher.go. `submit` is `Submit`, `flush` the ticker's `flush`,
--   `take_batch` is `takeBatch`; each is one critical section of the lock. Batcher.Flush is
--   `performFlush` with a client's answers as its parameter. Batcher.Flights has `launchFlush`,
--   `awaitTurn`, `acquireFlushSlot` and the phases of `performFlush` as the steps of a relation
--   between states of all the goroutines, with the channels that are closed. Batcher.Heartbeat is
--   `startAckProgress`, over what its `select` takes.
-- Evaluation: internal/policy/evaluation/evaluator.go, `Evaluate` and `Transform`.
-- Cel: internal/cel/validator.go, over a data type for the library's syntax tree.
-- Paths: internal/jsonpath/validator.go, and `ParsePath` of evaluator.go. Their loops have fuel for
--   each byte of the path, and every round takes at least one.
-- Validation: internal/policy/validation/validator.go. Validation.Strategy is `validate` and the
--   status update of internal/registry/policy/resourceindexpolicy/strategy.go.
-- Controller: internal/controllers/policy/policy_controller.go. Everything outside (the API server,
--   Meilisearch, the lists of resources, the publisher) is a state that every call may change.
--   `ensure_index`, Controller.Settings and Controller.Conditions are the parts of `Reconcile`,
--   which Controller.Reconcile composes as `prepare_conditions` (up to the conditions),
--   `first_status` (the first write) and `finish`; `finalize_policy` is the finalizer's
--   `Finalize`. Controller.Publish is `publishReindexMessages`. Its loop over the pages has fuel;
--   the list server is asked to have fewer pages left with each token. A write is taken to leave
--   the policy in memory as it is.
-- PolicyCache: internal/indexer/policy_cache.go, as a fold over the informer's events.
-- Consumer: internal/indexer/consumer.go and helper.go. `handle_message` is the callback of
--   `Start`, as the decision to acknowledge or to submit operations.
-- Reindex: internal/indexer/reindex_consumer.go, the event of reindex_publisher.go, and
--   `ComputeSpecHash` of internal/utils/search.go.
-- Paging: the limits, offsets and tokens of pages in internal/registry/resourcesearchquery/rest.go.
-- Query: the rest of internal/registry/resourcesearchquery (rest.go, classify.go and context.go), and
--   the request of `MultiSearch` in pkg/meilisearch/sdk_client.go. `prepare` is `Create` up to the
--   request that it sends, and Query.Response.create all of it.
-- Meilisearch: pkg/meilisearch/sdk_client.go, the requests in chunks with their retries and the waits
--   for tasks, as a client that the batcher can use. The loop over the chunks has fuel for one round
--   more than there are items, which is enough for any positive chunk size. Meilisearch.Admin has the
--   calls for indexes and settings, over a service with a state.
-- Tenants: internal/tenant, the map of project clients and what the removal of a project deletes.
--   Tenants.Events has the informer's handlers and the registry for a single tenant.
-- Kinds: cmd/milo-search/helpers.go and kinds.go, the references to kinds on the command line, and the
--   edit distance of a suggestion (Kinds.Distance), with the two arrays of its rows as lists.
--   Kinds.Listing is the order of the listed kinds.
-- Cli: cmd/milo-search/query.go, errors.go and transport.go. `run_query` is `runQuery` up to the
--   rendering. The loop over the pages of --all has fuel, which is enough if the pages end.
-- Tests: concrete data, and each theorem below applied to it.
--
-- All other functions are structurally recursive, without fuel. The iteration order of a Go map is
-- that of an association list here. Maps of operations, of documents and of conditions are only
-- read where the order makes no difference to what is stated.
--
-- Libraries are parameters: CEL, the Kubernetes API machinery, the answers of Meilisearch, JSON
-- encoding, SHA-256, JWT, title-casing, and the formatting of messages. reflect.DeepEqual is equality
-- of lists, so that a nil slice and an empty one are the same. Not modelled are logs and metrics,
-- the ticker of the batcher, the flags and the output of the command line, and the wiring of the
-- processes.
pub mod Prelude
pub mod Api
pub mod Batcher
pub mod Evaluation
pub mod PolicyCache
pub mod Consumer
pub mod Reindex
pub mod Paging
pub mod Query
pub mod Tenants
pub mod Kinds
pub mod Meilisearch
pub mod Cel
pub mod Paths
pub mod Validation
pub mod Controller
pub mod Cli
pub mod Tests
