-- ===== src/Lib.antt =====
-- A model of wshttp, an HTTP/2 server and client over TLS, and the theorems that make it correct.
--
-- The program. An endpoint (include/wshttp/endpoint.hpp) runs on an event loop (loop.hpp) and
-- keeps a listener for each port (listener.hpp) and a node for each host (node.hpp). A listener
-- makes an inbound session for each connection that it accepts, a node an outbound one
-- (session.hpp). A session sits between libevent's buffers and nghttp2, which calls its hooks; an
-- inbound one makes a stream for each request (stream.hpp), which answers with a file or with an
-- error page. Requests name their file by a url (address.hpp, parser.cpp), and headers and
-- settings are built by request.hpp. Two TLS contexts (context.hpp) belong to an endpoint.
--
-- The files.
--   Prelude: names of the libraries, Boolean tests, lists, bits; Outcome has exceptions as
--     values.
--   Maps: `std::unordered_map` as an association list over a key with an equality; its laws.
--   Utils: include/wshttp/utils.hpp.
--   Encoding: include/wshttp/encoding.hpp. Memory says how a machine stores the integers.
--   Address: include/wshttp/address.hpp and src/address.cpp (`ipv4`, `ipv6`, `ip_address`,
--     `path`).
--   Uri: `uri`, and `url_parser` of src/parser.cpp.
--   Request: include/wshttp/request.hpp, src/request.cpp, and the literals of types.hpp.
--   Stream: include/wshttp/stream.hpp and src/stream.cpp.
--   Session: include/wshttp/session.hpp and src/session.cpp. Hooks has what nghttp2 calls,
--     Transfer the buffers, Setup the steps before and after the connection stands, Driving what
--     libevent calls once it does, and Connection and Outbound the whole life of an inbound and of
--     an outbound session, with libevent calling it and nghttp2 calling it in between. Streams,
--     Paths, Blindness and Answers are about the requests that an inbound session receives.
--   Loop: include/wshttp/loop.hpp and src/loop.cpp. Jobs has the queue with whole calls and whole
--     passes, and Jobs/Results such a queue whose jobs may throw, Waker the same queue statement by
--     statement with several threads, Timers the watchers, Thread the start and the end of the
--     loop's thread and the deleters that bring work to it.
--   Listener, Node, Endpoint: the headers and sources of those names. Endpoint/Lifetime has the
--     ids, and Endpoint/Connecting takes a connection from the endpoint through
--     its node to the session. Node/Answering is about the responses that a node's session
--     receives.
--   Server: a listener, its sessions and the jobs of the loop as one system, composed of the
--     functions of Listener and Session. Keeping and Running are about what every run keeps,
--     Progress and Leaving about what a pass of the loop achieves, Changes and Peers about what
--     the peers see, and Queue ties its jobs to the queue of Loop.
--   Owned: what every part that owns sessions does with the jobs that they post. The part is a
--     parameter, a record of its tables and their laws (`Store`); Keeping, Posting and Passing say
--     what its runs keep, and Leaving how a session leaves it.
--   Program: the whole program, as such a part: the endpoint with its listeners and nodes, and
--     their sessions. Tables and Places have the laws of its tables, Steps what can happen to it,
--     Keeping to Shutting what each step keeps, Standing, Yielding and Safety runs in any order,
--     Running orderly runs, Resting how it comes to rest, Leaving a session whose connection
--     fails, and Failing a listener that fails.
--   Client: a node, its session and the jobs of the loop as one system, in the same way.
--   Context: include/wshttp/context.hpp and src/context.cpp.
--   Dns: include/wshttp/dns.hpp and src/dns.cpp.
--   Format: include/wshttp/format.hpp and src/format.cpp. Logger has the program's logger, Buffer
--     the printer of buffers of src/internal.hpp, with a reader of its text.
--   Tests: the theorems at concrete inputs.
--
-- How it is modelled. A member function is a function from the object's record to the new one,
-- with its result; an exception is a value, and where it leaves a changed object behind the
-- object is returned with it. A virtual function is one function for each class. A null pointer
-- is `none`, and a call through one is the outcome `null_access`. Integers are natural numbers,
-- with the wrap-around of their width written out where the source can reach it. The byte order
-- of the machine is an argument. What the system, libevent, nghttp2, OpenSSL and ada answer is an
-- argument too (`Os`, `Net`, `Driver`, `Answers`, `Binding`, `Socket`, `Ada`, `Printer`,
-- `Hasher`, `Fmt`, `Factory`), and what the program asks of the system is a list of effects. Jobs
-- and callbacks that arrive in some order are lists of steps. Loops are recursions on the data
-- that they go through; `read_loop` recurses on the list of results that `read` is to give, and
-- returns nothing where that list ends first. One function has fuel: `print_rows` of
-- Format/Buffer has as many rounds as there are bytes, and since a round prints at least one
-- byte, that is enough.
--
-- Calls of a library into the program are a step relation (`Call` of Session/Connection and of
-- Session/Outbound/Life), and so are the interleavings of threads (`Step` of Loop/Waker) and of
-- libevent's callbacks with the loop's jobs (`Step` of Server, of Client and of Program/Steps). A
-- plain pointer to an object that may be gone carries a flag (`Job` of Server, of Client and of
-- Owned), and its use is the outcome `dangling_access`.
--
-- Not modelled. The messages of the logger, which spdlog formats; the address in a DNS reply,
-- which the source leaves uninitialised; the templates that only forward to the loop; the
-- branches for Windows; the declarations that have no body.
pub mod Prelude
pub mod Utils
pub mod Encoding
pub mod Maps
pub mod Address
pub mod Request
pub mod Uri
pub mod Stream
pub mod Session
pub mod Owned
pub mod Program
pub mod Server
pub mod Client
pub mod Loop
pub mod Listener
pub mod Node
pub mod Endpoint
pub mod Context
pub mod Format
pub mod Dns
pub mod Tests
