-- ===== src/Lib.antt =====
-- A model of the Caviar Hacker Grid web server, and what holds of it.
--
-- The program reads a configuration file, registers a handler for each path prefix in it, and
-- answers each HTTP request by the handler with the longest prefix of the request's URI. Its parts,
-- with the files that model them:
--   * nginx-configparser/: Config (NginxConfig and its searches), Config/Lexer (ParseToken),
--     Config/Parser (ParseConfig and ParseFile, a round of the loop as a function on a state of stack,
--     last token type and depth), Config/Printer (ToString and ToStringSubBlock). Config/Grammar is an
--     account of the file format that does not mention the parser.
--   * http/: Http/Status and Http/Mime (http.cc), Http/Response (httpResponse.cc), Http/Request
--     (httpRequest.cc, one function per step of ParseRequest), Http/MutableRequest.
--   * filesystem/file_opener.cc: the first definitions of Handlers/Files.
--   * handlers/: Handlers (the classes that REGISTER_REQUEST_HANDLER names as one data type, and
--     CreateByName), Handlers/Init (each Init), Handlers/Table (HandlerConfiguration and
--     FindLongestHandlerKey), Handlers/Simple (the echo, not-found and blocking handlers),
--     Handlers/Files (StaticHandler, MarkdownHandler), Handlers/Cloud (CloudFileHandler),
--     Handlers/StatusPage (StatusHandler), Handlers/Proxy with Sockets, Stream and Exchange
--     (ProxyHandler).
--   * server/: Server/Status (ServerStatus), Server/Session (Session::do_read and the dispatch),
--     Server/WebServer with Server/Ports (WebServer and port_valid), Server/Runs (sessions one after the
--     other, as a relation between states), Server/EventLoop (Session::start, Session::do_write and
--     Server: each callback is a step on the list of sessions, alone or overlapping others), Server/Threads
--     (LogIncomingRequest again, as the single reads and writes of calls that interleave), Server/Main
--     (run_server and main.cc).
-- Base holds what the parts share: byte strings, std::map as a sorted list of entries, the ways in
-- which a call can end (a value, an exception, undefined behaviour, or never), and atoi and stoi.
--
-- The set-up makes the table of handlers and the list of handlers in the server's status. A session
-- takes the table, the counters and the host as its state, calls one handler, and gives back its
-- reply and the state behind it. The event loop runs accepts and sessions on four threads in any
-- order. A run is serial, where each callback ends before the next (a handler that never ends, and
-- shares nothing, aside), or overlapping: then nothing is assumed of what a callback that others
-- interrupt sees of the shared state and leaves of it, since the program takes no lock.
--
-- Bounds and fuel. A string is a list of byte values. The counters are `int` in the program and have
-- no bound here; if no callbacks overlap none is above the number of connections closed, so that
-- they are the program's up to 2147483647 of those; a status code, which the program casts to `int`,
-- is kept as its 32 bits, which are ordered and printed as an `int`; numbers that the program reads
-- by atoi, stoi and `>>` keep the range of their type. The loop of ParseConfig has one round more
-- than the file has bytes, since each round that goes on reads a byte; the loops over the headers
-- and over the body of a proxied reply likewise, since each takes a byte; redirects have the depth
-- of the program, ten. to_decimal has a round per unit of its number, and each round divides it by
-- ten. A number of rounds that runs out is a value of its own, `out_of_rounds` or `diverges`, so
-- that it cannot pass for a result.
--
-- Parameters: the file system, the result of std::system, the Markdown library, the chunks in which
-- another server's reply to a request comes, the error codes of opening, binding and listening on a
-- port, and for each step of the event loop whether an accept fails, which bytes a read brings and
-- whether a write succeeds.
--
-- Not modelled: what the language leaves undefined when two threads insert into one std::map at
-- once, where Server/Threads takes each insert as one step, and where the event loop lets the
-- callback see and leave anything; an exception on a thread, behind which there is no state; a path
-- of the table that holds a NUL, with which FindLongestHandlerKey reads past the URI; the Markdown
-- library, a copy of another project; the S3 script; the tests and the build files. What is printed
-- on the console is left out.
pub mod Base
pub mod Config
pub mod Http
pub mod Handlers
pub mod Server
