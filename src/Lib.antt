-- ===== src/Lib.antt =====
-- Models and proofs for the mould system backend: the process runtime of the factory's backend, in
-- which a master starts modules as processes that exchange messages over shared memory, and an HTTP
-- gateway brings images in. Paths are from the repository's root.
--
-- Ring (common/comm/src/shm_ring_buffer.cpp and its header): the ring of message slots in shared
--   memory. Ring/Control has the packed control word, Ring/State the record of everything in the
--   mapped memory, Ring/Slots, Ring/Reclaim, Ring/Consumers, Ring/Metrics, Ring/Layout and
--   Ring/Publish the member functions of `RingLayoutView`, under their names. Ring/Invariant says
--   what holds between calls; Ring/Safety treats it call by call and Ring/History, with Ring/Head,
--   in histories of calls. Ring/Log is the abstract view, a list of messages of which the ring
--   stores the last lap; Ring/Waiting treats the rounds of the waiting loop, and Ring/Append,
--   Ring/Delivery and Ring/Progress publishing and reading against the log.
-- Store (common/comm/src/refcounted_message_store.cpp): messages that several readers share.
--   Store/Invariant, Store/Generations, Store/Handles and Store/Lifecycle have the proofs.
-- Restart (common/comm/src/restart_policy.cpp): backoff and fuse. Restart/Window counts failures,
--   Restart/Decisions treats one decision, Restart/History a history of them.
-- Supervisor (common/comm/src/supervisor.cpp): the state and the calls of the master.
--   Supervisor/Startup and Supervisor/Batches are the checks and batches of the launch plan,
--   Supervisor/Processes the maps of processes and the lifecycle, Supervisor/Monitor the monitor
--   loop, Supervisor/Exits one exit of a child, and Supervisor/Loop all runs of that loop. The
--   supervisor calls the restart policy by its definitions.
-- Gate (gate/): Gate/Handler is the template method of gate/handler/ihandler.hpp, Gate/Router and
--   Gate/Paths gate/router_dispatcher.hpp, Gate/Validator, Gate/CaptureTime
--   and Gate/Images gate/handler/request_validator.hpp. A route's handler is a `Handler.handle`.
-- Reliability (common/comm/src/reliability.cpp): publishing with retries and acknowledging;
--   Reliability/Retry has the proofs. The waits between retries are computed by an argument.
-- Config (common/config/src/launch_plan_config.cpp and channel_topology_config.cpp): what the master
--   starts from. Config/Json is the JSON reader that both files have a copy of: Json/Tree has its
--   values, Json/Reader its functions, Json/Printer a text for each value; Json/Total, on Json/Within
--   and Json/Lengths, treats any text, and Json/RoundTrip, on Json/Printed, Json/Begins and
--   Json/Lists, printed text. Config/Decimal is `std::stoll` and `std::to_string`, Config/Streams
--   `std::getline`. Config/Topology has the types of the channel topology: Build merges the modules
--   into an index and checks it, with proofs in Merge, Params, Repeats and Channels; Resolve has the sizes and
--   names of a channel, with proofs in Bounds; Proto checks the field numbers of a protobuf text;
--   Files reads a module's channels from JSON and Files/Lines from lines, with Files/Accepted and
--   Files/Indexed on what is accepted. Config/LaunchPlan has the plan's types: Scalars, CpuSet,
--   Resource, Fields and Io are the parts of `ParseLaunchPlanFile`, Parse the whole of it, Accepted
--   the proofs, Environment what services/backend/main.cpp does with the plan, and
--   Environment/Supervised the modules that it hands to the supervisor.
-- ControlPlane (common/comm/src/shm_bus_control_plane.cpp): taking the consumers of a dead process
--   offline in the rings of all channels; ControlPlane/Offline has the proofs, on those of the ring.
-- Launch (common/comm/src/module_factory_registry.cpp and ready_pipe_protocol.cpp): Launch/Registry has
--   the factories of modules, against whose names the launch plan is checked; Launch/ReadyPipe is the
--   message by which a module reports that it is ready.
-- Common has the shared types and lemmas: tests and lists on native numbers, machine words, memory
--   as a function of the offset, integers, maps with names as keys, byte strings.
--
-- State is passed on explicitly and the definitions compute. Integers of 32 and 64 bits wrap where
-- the source's do, and the signed sums and products of the restart policy as
-- the machine's do. Each call of the ring and the store is one step that no other thread interrupts,
-- with the failing branch of each compare-exchange written out; a history is a list of such calls.
-- What other processes do while a producer yields is a parameter. The waiting loop of
-- `PublishCommittedPayload` runs on fuel, of which two rounds are enough under the conditions
-- of Ring/Progress; `TryAcquireConsumerOnlineSlot` has the source's own bound; the monitor loop runs
-- over the list of what its rounds see of the system. `fork`, `waitpid`, `eventfd`, the clocks, the
-- random shuffles and the callbacks are parameters. Times of the steady clock are not negative.
--
-- The JSON reader runs on fuel, twice the length of the text and one more, which is proved to be
-- enough. A fractional number is kept as its text; which texts `std::stod` converts, its printed form
-- and its comparison are arguments, as are the files, the paths of std::filesystem, gflags and
-- `setenv`. An unordered map is the list of its entries in the order of insertion.
--
-- Not modelled: interleavings of the single atomic accesses of two calls, the layout of the mapped
-- segment in bytes, the bus runtime, the provisioning of channels, the callback queue, the logging
-- pipeline, the HTTP server, the body parser, the rate limiter on floating point, uploads to object
-- storage, and the sample modules: they call the system, the network or threads for the most part.
pub mod Common
pub mod Ring
pub mod Store
pub mod Restart
pub mod Supervisor
pub mod Gate
pub mod Launch
pub mod ControlPlane
pub mod Reliability
pub mod Config
