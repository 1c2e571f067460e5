-- ===== src/Lib.antt =====
-- The proxy farm: share-links are fetched, probed from several vantages, scored and published.
--
-- The fetcher downloads subscriptions and sends batches of links (RAW) to the coordinator, which
-- keeps them in a database and plans jobs (L0 dial, L1 through sing-box, L2 speed, VAL from an edge).
-- Workers probe the nodes and send results, from which the coordinator computes status, class and
-- score of a node. The alive nodes are published as a subscription, and the API shows them. The parts
-- talk through a bus of streams and key-value buckets, which also holds the lease of the coordinator
-- and the heartbeats of the vantages.
--
-- Files, and the code that they model (paths from the root of the repository):
--   Text, Text/*     strings as lists of bytes, with what the sources use of Go's strings, strconv
--                    and net/url; `trim` of proxies/internal/parse/parse.go
--   Base64           encoding/base64, and b64Decode of parse.go
--   Parse, Parse/*   proxies/internal/parse/parse.go: Canonical and its helpers in Canonical, the
--                    builders in Build, ParseLine in Line, ParseMany in Many
--   Probe, Probe/Runner
--                    proxies/internal/probe: the outcome of a probe, and the runner of l1.go
--   Score            proxies/internal/score/score.go
--   Model            the rows of proxies/internal/model/model.go; the queries of pg.go are in
--                    Model/Store (nodes and checks), Model/Due (due queries), Model/Catalog (rest);
--                    Model/Cards and Model/Cities are the reads of the API
--   Wire, Streams    proxies/internal/natsb/natsb.go: subjects, ids and messages; streams, consumers
--   Bus, Bus/Lease   proxies/internal/natsb/bus.go; TryAcquireLease is a function from events, the
--                    calls of several instances in any order, to the state of all of them
--   Coordinator/Ingest, Coordinator/Aggregate, Coordinator/Consuming
--                    proxies/cmd/coordinator/consume.go
--   Coordinator/Plan, Coordinator/Publishing
--                    plan.go and publish.go beside it
--   Coordinator/System
--                    the goroutines of the coordinator, whose rounds and ticks come in any order
--   Worker, Worker/Loop, Worker/Lines, Worker/DryRun
--                    proxies/cmd/worker/main.go
--   Fetcher          proxies/cmd/fetcher/main.go
--   Api, Api/Public, Api/Admin, Api/Server
--                    proxies/cmd/api/main.go
--   Geo              proxies/internal/geo/geo.go
--   Metrics, Metrics/Render
--                    proxies/internal/metrics/metrics.go
--   Migrations       proxies/migrations/migrations.go, and Migrate of pg.go
--   Keyed            Go maps as lists with one entry for each key
--   Tests            concrete inputs at which the theorems are applied
-- Functions keep their names in snake case: `recomputeNode` is `recompute_node`. A function that
-- changes the database takes and returns the tables; one that publishes also returns the messages,
-- in order. A function that may fail returns an Option or a Result with the error.
--
-- What is not in the repository is a parameter: Runtime (wide case folding, SHA-256, the parser of
-- JSON texts), Floats (float64 and its operations), Network (addresses, name lookup and the MaxMind
-- database), World (the answers of URLs), Scripts (SQL scripts), and what sockets, processes and the
-- bus answer. The clock is an argument.
-- Go visits a map in any order, so the order is an argument where it matters. A query of the
-- database that fails is not modelled, except where the scan of a null fails in CityAggregates. An
-- error of a fetch from the bus is an argument, and the panic of a batch that cannot be made is a
-- result of the fetcher.
--
-- Fuel: `batches_from` has one round for each node, which is enough for a batch size that is not 0;
-- `itoa_onto` has one round more than the number. Everything else is structural recursion.
--
-- Not modelled: the loops around tickers and consumers, flags and the environment, the event stream
-- and the static files of the API, the printing of values as JSON, logging, the pool and the
-- partitions of the database; they only call libraries or repeat what is modelled.
pub mod Prelude
pub mod Text
pub mod Runtime
pub mod Base64
pub mod Parse
pub mod Floats
pub mod Probe
pub mod Model
pub mod Score
pub mod Wire
pub mod Coordinator
pub mod Keyed
pub mod Metrics
pub mod Worker
pub mod Geo
pub mod Bus
pub mod Streams
pub mod Fetcher
pub mod Migrations
pub mod Api
pub mod Tests
