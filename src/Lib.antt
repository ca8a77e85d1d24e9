-- ===== src/Lib.antt =====
-- Pixel HQ: incident command, scheduling, and the relay with its tool gateway.
--
-- The program is a set of services that run an organisation of workers. The incident service keeps
-- incidents and says which state they put the company in; the scheduler reads that state, with the
-- calendar, the workforce and the resources, and decides whether a job may start, leases it a resource
-- and confirms the start just before the relay lets it run. The relay takes submissions, keeps the jobs
-- and has the tool gateway execute them. Time comes from a trusted clock.
--
-- Time models packages/contracts/src/trusted-time-v1.js. A canonical UTC timestamp is its instant in
-- milliseconds; what is no timestamp is `none`.
--
-- Incident models packages/contracts/src/incident-v1.js (Names, Contract, Environment, CompanyState),
-- adapters/simulator/src/incident-store-simulator-adapter.js (Store) and
-- services/incident/src/incident-service.js (Service, Operations, Closing). The service is written
-- over a record of the operations that it calls on its store (Port); the simulator's store fills it,
-- and in Ambiguity so does a store whose requests or answers get lost. A service call takes its input,
-- `none` for an input that is no object, and what the time source returns during it, and returns the
-- answer with the new store, clock and evidence. Event and trace identifiers are left out of the
-- evidence. Lifecycle relates the calls to the moves in Move.
--
-- Scheduler models packages/contracts/src/scheduler-v1.js (Contract),
-- adapters/simulator/src/scheduler-store-simulator-adapter.js (Store) and
-- services/scheduler/src/scheduler-service.js: the ladder `#decide` (Decide), `#recordIssuance`,
-- `reserve` and `release` (Service), `confirmExecutionStart` (Start). A reservation that JavaScript
-- changes in place is an entry that is written back under its key. The relay's job lookup, the
-- requirement's validation, the collection of the inputs and the hash of a requirement enter as
-- arguments. Scheduler.Service.Calls has sequences of calls.
--
-- Relay models packages/contracts/src/job-v1.js (Contract for transitions and results, Request for the
-- rest) and adapters/simulator/src/relay-store-simulator-adapter.js: a job (Job), what each method does
-- with it (Methods, Commit), sequences of calls (Calls), and the store's two maps (Store). A model
-- invocation carries the outcome of its own contract's check. recentWork, which only reads, is left out.
--
-- Relay.Gateway models services/tool-gateway/src/tool-gateway.js and Relay.Service
-- services/relay/src/relay-service.js, with the answers' checks in
-- packages/adapter-sdk/src/job-runtime-adapters.js. Their asynchronous methods are actions
-- (Relay.Action) on a world that both share: the store, the number of identifiers issued, the evidence,
-- the calls made to other dependencies, and the reservations that the relay tracks. An action returns
-- or throws, and the world comes back in either case. Identifiers and times are functions of the number
-- issued. The context provider, the grant provider, the worker, the scheduler and the hash are
-- functions that give an answer, or nothing where they throw; beside each stands a list of store
-- operations, which is what other requests do while the answer is awaited. A client's submission is a
-- tree of arrays and objects (Relay.Intent). The evidence is kept without service name, severity and
-- attributes, and the recorder takes every entry of the relay and the tool gateway: that it throws on
-- malformed identifiers is modelled for the access gate only. The relay takes the scheduler's answers as
-- they come. Relay.Gateway.Expected says how a request should end.
--
-- Policy models the decisions in services/policy/src, which neither keep nor change state.
--
-- Access models services/access-gate/src/access-gate.js, with what it validates
-- (packages/contracts/src/access-v1.js, packages/adapter-sdk/src/access-context-providers.js) in
-- Access.Contract. The gate's state is the number of identifiers issued and the evidence.
--
-- Values from callers are of the type Value (undefined, null, text, a safe integer that is not
-- negative, anything else); texts are lists of code points, with JavaScript's UTF-16 length. Fields
-- that are constant in every record, unknown extra fields and accessors that throw are not modelled,
-- nor are copies and freezing, which do not show in a value model. All loops are structural
-- recursions, so no fuel is needed.
--
-- Not modelled: the scheduler's `evaluate`, the relay's executeModelSummary, the shape checks of
-- constructors, and the services for organizational state, workforce, memory, calendar, models,
-- devices, HTTP and display, and telemetry but for the recorder.
pub mod Common
pub mod Time
pub mod Incident
pub mod Scheduler
pub mod Relay
pub mod Policy
pub mod Access
