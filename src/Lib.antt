-- ===== src/Lib.antt =====
-- Verification of the core of localstack: the routing of a request to its service and operation,
-- the CBOR codec of its body, the stores of emulated services, the Transfer provider on them,
-- the lifecycle and lazy loading of services, ports, batching, collections, init scripts, ARNs
-- and the CORS enforcer.
--
-- The parts and how they interact. A request is searched for its service
-- (localstack-core/localstack/aws/protocol/service_router.py) in the catalog of models
-- (localstack-core/localstack/aws/spec.py), then for its operation
-- (localstack-core/localstack/aws/protocol/op_router.py), and its body is parsed and its
-- response serialized (localstack-core/localstack/aws/protocol/parser.py and
-- localstack-core/localstack/aws/protocol/serializer.py). A service keeps its state in stores,
-- one for each account and region (localstack-core/localstack/services/stores.py). The Transfer
-- provider (localstack-core/localstack/services/transfer/provider.py) reads and writes the store
-- of its request's account and region. A service is held by a container with its lifecycle
-- state, a service manager keeps the containers by name, and a plugin manager loads them when
-- they are first asked for (localstack-core/localstack/services/plugins.py). Batchers
-- (localstack-core/localstack/utils/batching.py) and collections
-- (localstack-core/localstack/utils/collections.py) serve all of these, ARNs
-- (localstack-core/localstack/utils/aws/arns.py) name their resources, and the init scripts
-- (localstack-core/localstack/runtime/init.py) run at the four stages of the runtime.
--
-- Routing: service models and requests. Catalog has the index of the catalog, Loading
--   load_service, Indicators _extract_service_indicators, Protocols determine_aws_protocol,
--   Rules the custom rules and the resolution of conflicts, Service determine_aws_service_model
--   as a sequence of steps on candidates, each of which answers or goes on. Forms, Targets and
--   Uniques are about these answers.
-- OpRouter: the rules of operations with required arguments, whose iterators are state that
--   every match returns. Names has the path parameters, ServiceMap the groups by path and method
--   and RestServiceOperationRouter.match; Matching and Best are about the rules.
-- Cbor: items. Stream reads bytes, Parser is BaseCBORRequestParser, Serializer
--   BaseCBORResponseSerializer over the shapes of botocore, Utf8 the encoding of texts, Wire the
--   value that a shape describes. Heads, Reads, Nested, Dicts, Leaves, RoundTrip and Whole are
--   about the two together, Fuel is about the parser's fuel.
-- Net: PortRange and the searches for free ports of localstack-core/localstack/utils/net.py, and
--   CustomExpiryTTLCache.set_expiry. The cache of reserved ports is the interface PortCache,
--   whose laws Cache states and fills with a list of ports and expiries. Reserving, Expiry,
--   Ranges and Finds are about reservations.
-- Stores: the heap of shared objects. World holds dicts, stores and region bundles by address,
--   and AccountRegionBundle is its root. Attributes has the reads and writes of LocalAttribute,
--   CrossRegionAttribute and CrossAccountAttribute, Clear the two reset methods. Shape is the
--   well-formedness of a heap; Frame, Access, Sharing, Isolation, Reset and Defaults follow it
--   through the operations, History through whole runs. View is the abstract map from account
--   and region to fields that a client sees.
-- Transfer: servers and users of one store (create_server, describe_server, create_user,
--   list_users, delete_user). Backend is the interface of stores by account and region over
--   which the operations run; OnStores fills it with the stores of
--   localstack-core/localstack/services/stores.py. Servers, Users, Runs, Clients, Keyed,
--   Requests and Safety prove the operations, alone and in sequences.
-- Services: Service and ServiceContainer; the functions of a service take the outside world and
--   return it with the exception raised, if any. Lifecycle has the outcomes of start, check and
--   stop. Require is ServiceManager.require with poll_condition of
--   localstack-core/localstack/utils/sync.py: the steps of other threads during each sleep,
--   before the lock and between the accesses under it are parameters; a poll of 30 seconds in
--   intervals of 0.5 is 60 tests. Manager has the operations by name, Plugins the lazy load,
--   where the plugin manager of plux is a parameter, PluginErrors the collected errors and
--   Providers the ServiceProviderConfig of localstack-core/localstack/config.py.
-- Batching: Batcher, with the clock's readings as arguments; Async is AsyncBatcher as a relation
--   of steps, one for each block under the lock and each test or handler call of the loop.
-- Collections: lists in pages and chunks, unique lists, splits; Dicts the operations on dicts,
--   Json values read and set by paths.
-- Init: the stages and their scripts, with the run of a script as a parameter.
-- Arns: partitions and the generic builder of ARNs
--   (localstack-core/localstack/utils/aws/arns.py), which takes a pattern as its pieces between
--   the places and counts them, Builders one definition for each resource type.
-- Cors: the enforcer of localstack-core/localstack/aws/handlers/cors.py, with its dynamic
--   origins read character by character.
-- Base: dicts as association lists in insertion order, integers, the digits of \d, results,
--   heaps.
--
-- Fuel: the CBOR parser runs on three times the number of bytes and one, since each of its loops
-- takes at least a byte for every third call; load_service runs on two calls, the second being
-- by the naming convention, which ends it; the pattern of path parameters on the length of the
-- path, of which each step takes a character. iter_chunks runs on fuel, the number of items, of
-- which each chunk takes at least one, and so does a client that follows pages, one page more
-- than there are items. All other loops are structural.
--
-- Not modelled: locks, beyond the blocks that they make one step (a container's lock makes none,
-- since stops and checks do not take it); logging; the query, JSON and REST parsers and
-- serializers, the handler chain, clients, servers and the bootstrap, which are driven by
-- botocore, rolo and the operating system.
pub mod Base
pub mod Stores
pub mod Transfer
pub mod Services
pub mod Batching
pub mod Collections
pub mod Init
pub mod Arns
pub mod Cbor
pub mod Cors
pub mod Routing
pub mod Net
pub mod OpRouter
