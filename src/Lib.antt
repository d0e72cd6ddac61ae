-- ===== src/Lib.antt =====
-- A model of the openDAQ streaming protocol LT: the consumer's side, the producer's
-- side with its sessions and signals, and the control channel between them.
--
-- The parts, and the files that model them:
--   Base      shared names, numbers, results, texts and bits; the C++ library's number parsing
--   Json      nlohmann::json as a parameter: operations, and the documented laws that proofs use
--   Real      the type double as a parameter
--   Types     include/streaming_protocol/Types.h, lib/Types.cpp, lib/Unit.cpp; Types.TimeResolution is
--             Resolution::toString and lib/TimeResolution.cpp
--   Wire      lib/StreamWriter.cpp and the constants of include/streaming_protocol/Defines.h
--   Meta      lib/MetaInformation.cpp: one piece of meta information
--   StreamMeta lib/StreamMeta.cpp: meta information about the stream (signal number 0)
--   Signal    lib/SubscribedSignal.cpp: a subscribed signal; Signal.Definition is
--             processSignalMetaInformation, Signal.TypeName its reading of the data type,
--             Signal.DataType is getDataTypeSize, Signal.Measured is processMeasuredData,
--             Signal.Doubles is interpretValuesAsDouble
--   Container lib/SignalContainer.cpp: all subscribed signals and their tables; Container.Meta is
--             processMetaInformation, Container.Measured is processMeasuredData,
--             Container.Callbacks the registration of callbacks
--   Handler   lib/ProtocolHandler.cpp: reads headers and payloads and hands the payloads on
--   Producer  lib/BaseSignal.cpp and the classes under it: what time signals, synchronous and constant
--             signals write; Producer.Numbers is nextSignalNumber, Producer.Ticks is
--             nanosecondsFromTimeTicks, Producer.Samples is lib/SynchronousSignal.cpp,
--             Producer.Tables is lib/AsynchronousSignal.cpp and lib/ConstantSignal.cpp, Producer.Data is
--             addData; Producer.Converted is what the consumer converts the values of each type to;
--             Producer.DescribedTime, Producer.DescribedValues and Producer.Streaming bring producer
--             and consumer together
--   Session   lib/ProducerSession.cpp: the signals of one client; Session.View is what a client
--             learns from the announcements
--   Control   lib/Controller.cpp, lib/HttpPost.cpp (Control.Post) and lib/ControlServer.cpp
--             (Control.Requests is handle_request, Control.Connection the session and listener);
--             Control also holds subscribe and unsubscribe of lib/ProtocolHandler.cpp
--   Server    lib/Server.cpp: the sessions of the connected clients
--   Generator tool/SignalGenerator: synthetic signals that are configured and streamed through a session;
--             Generator.Function is function.h, Generator.Signals the generated signals,
--             Generator.State, Generator.Run and Generator.Start signalgenerator.h and .cpp,
--             Generator.Configure its configuration, Generator.Durations durationFromString;
--             Generator.Factors is factorization.cpp
--   Client    tool/StreamingClient/StreamingClient.cpp: the callbacks of the example client
--   Tests     a JSON type and a number type for the parameters, and examples of the theorems
--
-- How they interact: the handler reads a header, perhaps an additional length, and a payload. Data
-- goes to the container, which finds the signal and the time signal of its table. Meta information
-- is interpreted first; with signal number 0 it goes to StreamMeta, else to the container and from
-- there to the signal. On the other side a session greets its client, announces its data signals and
-- has the signals write their description and data; the client asks for signals by the controller,
-- whose requests the control server answers by a callback of the application.
--
-- A method is a function from the object to a result and the object. `fails` is the early return of
-- -1 (in the handler, the return after closing the session), `throws` is an exception and `aborts` a
-- failed assertion, a null pointer that is followed, a read past the end or an erased
-- iterator; the object beside them
-- holds what was written before. Callbacks are recorded in the order of the calls. Machine words are
-- native numbers with their wrap written out.
--
-- The signal generator adds its signals to a session, subscribes them itself and lets them write on the
-- session's stream; the example client is the application behind the container's and the handler's
-- callbacks.
--
-- Bounds and fuel: getDataTypeSize goes into nested definitions on fuel, one more than the depth of
-- the definition, which the laws on `depth` bound. `run` of the handler takes the number of
-- callbacks; `callbacks` of Handler.Frames is the number that given messages take. `run_loop` of the
-- generator takes the number of rounds, which `rounds_left` of Generator.Ends bounds. The loops of the
-- factorization take the input and one more, since each division makes the input smaller.
--
-- Not modelled: the stream library, sockets, threads and logging; the HTTP library, whose
-- completions are arguments of the handlers; of the tools the entry points with the command line,
-- the default signals and the old transport header, which no build target names. Range, post scaling,
-- resolution and unit are composed only into definitions that have no node of that name, as those of
-- the producers have none. In the generator points of time
-- are nanoseconds after the epoch that do not overflow, on Linux; arithmetic on doubles is a
-- parameter.
pub mod Base
pub mod Json
pub mod Real
pub mod Types
pub mod Wire
pub mod Meta
pub mod StreamMeta
pub mod Signal
pub mod Container
pub mod Handler
pub mod Producer
pub mod Session
pub mod Control
pub mod Server
pub mod Generator
pub mod Client
pub mod Tests
