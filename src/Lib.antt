-- ===== src/Lib.antt =====
-- The verification library of fastapi-agent-protocol, a server for LangGraph agents behind an event
-- protocol. A run executes a graph on a thread; what it does is published on the thread's hub, and
-- clients read the hub through event streams.
--
-- The parts, by file. Paths are from src/fastapi_agent_protocol/ in the repository.
--
-- Base: helpers (texts, lists, dicts in insertion order, equality tests, integers).
-- Value and PyText: Python values as far as the program looks into them, and `str` on them.
-- Subscription and Hub: hub.py, `Subscription` and `ThreadEventHub`. The hub's state is a record:
-- the last sequence number, the deque, the subscribers. A subscription object is shared by the hub
-- and the stream that reads it, so it has an identity under which both find it. Hubs:
-- `HubRegistry`.
-- Stream: router.py, the generator of `_stream`. Its turns, the publications of others, timeouts
-- and disconnection are the steps of a session. Stream/Rising, Delivery, Following, Turning,
-- Handoff and ExactOnce hold the lemmas in that order; Stream/Posted, Bounds and Draining are about
-- what is published, what is held at most, and when the generator waits. `step` is a step in which
-- `sse_block` does not raise; Stream/Encoding has the steps in which it may, and its end then.
-- Emitter and Translation: translation.py, `MessageFrameEmitter` and `MessagesTranslator`; the
-- sink is a list of frames. Translation/Grammar has the order of frames as a reader checks it,
-- Translation/Content the texts in them.
-- Interrupts: translation.py, `interrupts_from_snapshot` and `values_event_data`.
-- Serialize: state.py, `_to_jsonable`, `serialize_values`, `serialize_message`. Serialize/Json is
-- about what `json.dumps` takes, Serialize/Messages about the messages of a state.
-- Failure and Registry: the exceptions, and registry.py. A graph is a value of any type.
-- RunConfig, Manager and Runner: runner.py, `RunManager`. `start` suspends while the graph is
-- resolved, so it is `start_begin` and `start_finish`; Runner/System has the steps of the event
-- loop, with starts in flight between the two.
-- Execution: runner.py, `_execute`, as a function of what the graph streams and how it ends;
-- Execution/Lifecycle is about its lifecycle events, Execution/Frames about its message frames.
-- Execution/Publishing has the events that it publishes; Execution/Delivery puts it together with a
-- hub and a stream.
-- Threads: threads.py, the memory store and the SQLite store. Threads/Agreement runs both;
-- Threads/Refinement has the map from ids to records that they implement;
-- Threads/Store is the `ThreadStore` protocol, a record of operations with the laws that the routes
-- need, and both stores as instances of it.
-- History and ThreadState: state.py, `read_thread_history`, `empty_state`, `read_thread_state`.
-- Router, Params and Commands: router.py, the other routes, and `dispatch_command`. A handler takes
-- the server, that is the registry, the run manager and the thread store, and gives the answer and
-- the server after it. Commands/Starting, Answering, Stamping and Envelopes are about the commands,
-- Router/Requests, Paging and Searching about the routes, Stream/Request about the request for a
-- stream.
-- Server: handlers and runs that the event loop interleaves, over the run manager and the thread
-- store, with restarts of the process. A handler is suspended where it waits for the graph of a start.
-- Server/Quiet, Binding, Turns, Launching and Assignment are about its reachable states,
-- Server/Handling, Resuming and Dispatching about the commands as Commands has them, and
-- Server/Restart about an answer after a restart.
-- Feed: runner.py, the manager with what its tasks publish on their threads' hubs, as the event loop
-- interleaves them. What a run is to publish is settled when its task is made, as `execute` has it,
-- for any stream of its graph and any ending. Feed/Same, Sections, Publishing, Steps and
-- Recording are about its steps, Feed/Apart about its reachable states.
-- Factory: factory.py, `create_protocol`, `register` and `lifespan`.
-- Uuid7: uuid7.py, the bytes of an id.
-- Examples: tests, and the theorems at concrete inputs.
--
-- `json.loads` and `json.dumps`, langchain_core's `message_to_dict` and the `repr` of containers are
-- arguments of the definitions that use them. Recursion is structural, except in `decimal` of
-- Base/Text, whose fuel is the number that it prints, which has no more digits than that and one.
-- The queue of a subscription holds 4096 events and the replay buffer `replay_size`, as in hub.py.
-- Sequence numbers are Python's integers, which have no bound. The turns of a
-- stream are counted in Stream/Draining.
--
-- A handler of Router and Commands runs with nothing else run while it waits; what other coroutines
-- may do while a start waits for its graph is in Runner/System and Server. An `input.respond` of
-- Server starts at its call of the run manager, whatever the checkpoint said before. The id and the
-- time that a call gets from `uuid4`, `uuid7` and the clock are arguments, and so are LangGraph's
-- `aget_state` and the checkpointer's `alist`.
--
-- Not modelled: the re-exports of __init__.py, the example application, `now_ms` of hub.py, which
-- reads the clock, and what FastAPI does between a request and a handler. A response is its content:
-- that `JSONResponse` raises for content that is no JSON is not modelled. Cyclic values, and values
-- of other classes that have an `extend`, as a deque has, are no values of Value.
-- Stream/Request makes no session of a request whose filters hold other values than texts.
pub mod Base
pub mod Commands
pub mod Emitter
pub mod Examples
pub mod Execution
pub mod Factory
pub mod Failure
pub mod Feed
pub mod History
pub mod Hub
pub mod Hubs
pub mod Interrupts
pub mod Manager
pub mod Params
pub mod PyText
pub mod Registry
pub mod Router
pub mod RunConfig
pub mod Runner
pub mod Serialize
pub mod Server
pub mod Stream
pub mod Subscription
pub mod ThreadState
pub mod Threads
pub mod Translation
pub mod Uuid7
pub mod Value
