-- ===== src/Lib.antt =====
-- zem is a TCP server that answers framed requests of clients, the first of which is a login
-- against a database. Its parts, below backend/ in the repository, and the files that model them:
--
-- - ByteCodec: Adapters/Inbound/Tcp/Protocol/Common/ByteCodec.hpp. Detail has the bit casts, Reader
--   and Writer have a function for each method and overload (`Reader::ReadLenPrefixed` is
--   `read_len_prefixed`), and Public has the templates that choose among overloads. A template's
--   type parameter is a value, an `IntType`, a `FloatType`, an `EnumType` or a size in bytes, and a
--   `size_t` has 64 bits.
-- - Protocol: Adapters/Inbound/Tcp/Protocol/WireTypes.hpp, Service/Protocol.hpp,
--   Common/ApiVersion.hpp and IConnection.hpp. Boost.Endian is the parameter `BigEndian`, the bytes
--   in memory of a big-endian number and back.
-- - Login: Core/Application, Core/Domain, Adapters/Inbound/Tcp/Protocol/Login and
--   Adapters/Inbound/Tcp/Handlers/Login. V1 and Codec have `DecodeRequest` and `EncodeResponse`,
--   UseCase has `LoginUseCase::ValidateCredentials`, Handler has `LoginHandler::operator()`. The
--   repository is a record of functions over a `World`, which stands for the database.
-- - Session: Adapters/Inbound/Tcp/Session. State has the fields of `TCPSession`, the constructor
--   and `Shutdown`; Write has `Drain` and the completion of its write; Send has `SendFrame`; Read
--   has `ReadLoop` and Heartbeat has `Heartbeat`, each cut at its waits. Steps has the step
--   relation: the strand runs one function at a time, and every order of posted functions,
--   completions, timers, errors and calls from outside is a sequence of its steps. `Inv`
--   (Session/Invariant) is what holds of the write queue between them, Goes, Keeps, Beats, Queue
--   and Reached carry a predicate through all functions. Clock has the steps by the clock, with a
--   bound on how late a timer is served. Jitter has the draws of the heartbeat. Alive, Timed,
--   Closing, Handled, Stuck, Flush, Framing and Accepting are about how a session ends, what it
--   reads and what it writes. Loop puts the rounds of `ReadLoop` together, over the bytes that a
--   client has sent, Rounds and Passes are about where it stops, Chunks about bytes that come in
--   parts, and Conversation, Placed, Answered and Conversed compare it with answering message by
--   message, and Wire goes on to what the socket is given. Frames has the layout of a frame, and
--   Given and Torn compare what goes out, and what the socket has taken, with the frames that were
--   accepted. Longest is about what `Drain` gathers.
--   Base has the base class Base/Session.hpp and the socket options.
-- - Server: Adapters/Inbound/Tcp/Base/Server.hpp and Server/TCPServer.cpp. Acceptor has `Server`,
--   Tcp has `TCPServer` and the threads of `Server::Run`, Handlers has `TCPServer::MakeSession`,
--   and Steps the step relation of the server's strand. Serving, Answering and Served join a
--   server's handlers with its sessions, and System and Together a server's steps with those of its
--   sessions. `m_sessions` is a list, in the order in which the sessions were accepted.
-- - Receiving: Core/Application/Commands/ReceivingCommand.hpp, which no code uses.
-- - Db: Adapters/Outbound/Db. Repository has `PostgresAccountRepository::GetPassword`, Factory has
--   `PostgresRepositoryFactory`. SOCI's connection pool is the record of functions `Pool`.
-- - App: App/Bootstrap/AppContext.cpp. Env has the configuration, with `getenv` and `strtoul` as
--   parameters, Context the construction and destruction, Main the function `main` of Main.cpp. What
--   the program finds on its host, such as what making the log file or the thread pool throws, is
--   the record `Host`. Lifetime and Construction are about how a context is made and what it does to
--   its end, and Service joins it with the server, the read loop, the login and the database.
--
-- A session gets frames from its handlers (`perform`), which are functions of the protocol version
-- and the body. `Server.Handlers.make_handlers` makes them, and one of them calls
-- `Login.Handler.handle`, whose use case asks the repository of Db. `header_bytes` makes the header
-- of what a session sends, and `header_of_bytes` reads the header of what it gets.
--
-- Loops are structural recursions on what is left to do, without fuel, but for `ReadLoop` in
-- Session/Loop, whose rounds are counted; three more than there are bytes are enough. Counts of type
-- `size_t` wrap at 2 ^ 64 as written (`add_size`, `sub_size`), and the limits are those of
-- Session/Common/Limits.hpp and Timeouts.hpp, in bytes and milliseconds.
--
-- Not modelled: what is logged (Library/spdlog is a copy of another project), the engine and the
-- distribution of the random numbers, which are parameters, and the allocation of memory. What
-- boost::asio does is in the step relation: posted functions run in order, and a composed read or
-- write gives all of its bytes or an error, a write after any part of them. Each Runs module holds
-- concrete runs.
pub mod Base
pub mod ByteCodec
pub mod Protocol
pub mod Login
pub mod Receiving
pub mod Session
pub mod Server
pub mod Db
pub mod App
