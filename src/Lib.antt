-- ===== src/Lib.antt =====
-- up-tck, the technology compatibility kit of Eclipse uProtocol: a test manager drives test
-- agents, which drive the transports under test. This library models the parts written in Python.
--
-- The program's parts and their files:
--
-- dispatcher/dispatcher.py, class Dispatcher: Dispatcher.antt holds the set of connected sockets,
-- the selector and the callbacks `_accept_client_conn`, `_receive_from_up_client`,
-- `_flood_to_sockets` and `_close_connected_socket`; Dispatcher/Server.antt the loop
-- `listen_for_client_connections` and `close`. Dispatcher/Invariant.antt has the invariant of the
-- reachable states, Dispatcher/Flood.antt what a flood delivers and how it fails,
-- Dispatcher/Bounds.antt what it sends at most, Dispatcher/Shutdown.antt what `close` releases.
--
-- test_manager/testmanager.py: Manager/Database.antt is `TestAgentConnectionDatabase`,
-- Manager/Queue.antt `DictWithQueue`, whose methods Manager/Queue/Serve.antt compares with a
-- queue for each key, Manager/Server.antt the callbacks of `TestManager`, and
-- Manager/Server/Request.antt its calls of the testing thread, `request` and `get_onreceive`,
-- with the listener thread beside them. The files below these hold their theorems:
-- Manager/Server/Reachable.antt has the states that the two threads reach, and their invariant,
-- Manager/Server/Request/Return.antt one request from its call to its return, Sequence.antt
-- beside it requests one after the other, and Onreceive.antt the call `get_onreceive`.
--
-- up_client_socket/python/socket_transport.py: Transport.antt is `SocketUTransport`, its
-- listeners, calls and timeouts, and Transport/Loop.antt the thread `__listen`.
-- Transport/Subscriptions.antt says which listeners a URI has after a call, Transport/Calls.antt
-- and the files below it what becomes of the future of a call beside responses and timers.
--
-- test_agent/python/testagent.py, constants/actioncommands.py: Agent/Codec.antt has
-- `message_to_dict` and `dict_to_proto`, Agent/Validation.antt and the file below it which
-- validators the requests ask, Agent.antt the table of actions and `send_to_test_manager`,
-- Agent/Handlers.antt the handlers and `process_message`, Agent/Receive.antt the listener
-- `on_receive` and the thread `receive_from_tm`.
--
-- test_manager/features/steps/tck_step_implementations.py: Steps.antt has `flatten_dict`,
-- `unflatten_dict` and `access_nested_dict`, which Steps/RoundTrip.antt and Steps/Leaves.antt
-- compare, Steps/Cast.antt `cast`. The steps that behave calls: Steps/Context.antt the context
-- that they share and the steps that set keys, Steps/Launch.antt `create_sdk_data` with the start
-- of the dispatcher and of the agents' processes, Steps/Sending.antt the steps that send
-- requests, Steps/Received.antt, Steps/Properties.antt and Steps/Payloads.antt those that compare
-- what was received: Steps/Properties/Uri.antt and Uuid.antt beside it describe what two of them
-- accept, Steps/Payloads/Returns.antt when one returns.
--
-- test_manager/features/environment.py: Environment.antt has `before_all` and `after_all`, and
-- Environment/Closing.antt what `after_all` closes, and Environment/Stuck.antt where it stops.
-- test_manager/features/utils/assertutils.py: Assert.antt has the wrappers around hamcrest.
-- test_manager/features/utils/loggerutils.py: Logging.antt has the set-up of the loggers and the
-- filter that keeps the time of the last record. scripts/install_dependencies.py: Install.antt
-- runs the commands of `main`.
--
-- Json.antt are the values that manager and agents exchange. Base.antt passes on what all files
-- share: Base/Exec.antt are methods that change a state and may raise, Base/Dict.antt
-- dictionaries in insertion order, Base/Text.antt and Base/Substrings.antt the methods of `str`.
--
-- The parts meet at messages: the manager's `request` sends what the agent's `process_message`
-- reads, the agent's reply is what `_receive_from_test_agent` puts on a queue, and `request`
-- waits at that queue: Protocol.antt puts the two sides together. A step of a scenario calls
-- `request` with the nested dicts of its keys and keeps the data of the response, with which the
-- next steps compare what they expect: Protocol/Scenario.antt follows a request from its step to
-- the agent and back, Protocol/Verdict.antt and the files below it go on to the verdict of the
-- scenario, and Protocol/Onreceive.antt follows what an agent's listener heard to the step that
-- waits for it. `after_all` closes the manager and the dispatcher. A transport sends to the
-- dispatcher, which floods to every transport: Network.antt fills the agent's interface of a
-- transport with `SocketUTransport`, and Network/Publish.antt follows a message from one agent to
-- the listener of the other, and Network/Rpc.antt a method call up to its response.
-- Network/Bus.antt is what the dispatcher and the transports promise together, a message bus, on
-- which clients come and go, subscribe and send; Network/System.antt are the dispatcher and a
-- transport behind each of its sockets, and the files below it compare the two operation by
-- operation.
--
-- State is passed explicitly: a method is a function from the object to a result and the object,
-- in which a raise keeps what was written before it. Sockets, futures and listeners are numbers;
-- what was sent, delivered or closed is recorded in traces. What sockets, `json`, `uuid4`,
-- protobuf and the uProtocol library answer are parameters. Threads are interleavings: a call
-- that waits takes a schedule, which lists for each poll that fails the events that the listener
-- handles before the next one, and the theorems on waiting hold for every schedule or name the
-- poll at which the call returns; the calls and timeouts of a transport are steps of a relation.
-- `getpeername` gives or raises for each socket what the parameter `peername` says; it stays the
-- same within a schedule, while in the reachable states of the manager each step has its own,
-- which gives the socket's address or raises. No loop runs on fuel.
--
-- Not modelled: the matching of steps by behave and what hamcrest prints; the calls that log,
-- except where `getpeername` in them raises; the sleeps; that a message may reach a socket in
-- several chunks, except where a theorem names it; and the agents and transports in Java and
-- Rust. In the steps, bytes are the text that they encode, and what the machine, hamcrest, base64
-- and the enums answer are parameters. `str.lower` is modelled on the letters of ASCII, and JSON
-- numbers are integers.
pub mod Base
pub mod Json
pub mod Dispatcher
pub mod Manager
pub mod Protocol
pub mod Transport
pub mod Agent
pub mod Steps
pub mod Environment
pub mod Assert
pub mod Install
pub mod Network
pub mod Logging
