-- ===== src/Lib.antt =====
-- Verification of the messenger: the TCP framing library and its sockets, the chat server, the console
-- client, the moderator's window and the thread pool.
--
-- A frame is a 4-byte big-endian length and a payload; a payload is a command or an answer in text.
-- The client and the window send commands. On the server a ClientHandler per connection reads a frame,
-- takes it apart, calls the class Database (one PostgreSQL transaction a call) and answers with frames;
-- through the SessionRegistry it reaches the handlers of other users, to deliver a message or to
-- disconnect them.
--
-- Which file models which part:
-- - Tcp/Frame, Tcp/Decoder, Tcp/Protocol: root/app/libs/tcp/src/Protocol.cpp. read_big_endian32,
--   encode_frame, next_frame, send_all, send_frame and receive_frame are the functions of that name in
--   camel case. An ISocket is a record of a state and its two operations.
-- - Tcp/Protocol/Memory: the MemorySocket of tests/protocol_tests.cpp.
-- - Tcp/SocketOps, Tcp/TcpSocket: root/app/libs/tcp/src/SocketOps.cpp (its POSIX form) and
--   TcpSocketLinux.cpp, over the system calls, which are the parameter Os, with Net for name
--   resolution and connect. Tcp/TcpSocketWin: TcpSocketWin.cpp over the parameter Winsock.
--   Tcp/Handles: which handles a system has open; Tcp/TcpSocketWin/Startups: what Winsock documents of
--   them and of WSAStartup and WSACleanup, whose last call closes every socket.
-- - Server/Auth: root/app/server/src/Auth.cpp.
-- - Server/Words, Server/Numbers, Server/Command: what ClientHandler::run reads from a frame with a
--   std::istringstream, std::stoi and tail; parse_command is the chain of tests on cmd.
-- - Server/Database and its children: root/app/server/src/Database.cpp on the tables of
--   root/app/database/migrations. A transaction is a function on Db; Accounts has registerUser to
--   markUserOffline, Mailbox the messages and the queries, Requests all of them as one type.
-- - Server/Sessions: root/app/server/src/SessionRegistry.cpp. Handlers are named by numbers.
-- - Server/Handler and Server/Handler/Commands: root/app/server/src/ClientHandler.cpp. A World holds
--   the tables, the registry and every handler; turn is one turn of the loop of run.
-- - Server/ConnectionPool: the class DatabasePool of Database.cpp. Server/Accept: the loop of
--   root/app/server/src/Server.cpp.
-- - Server/Config: root/app/server/src/Config.cpp. Server/Startup: main.cpp and the constructor of
--   Server.cpp, up to the listening socket, with Listening for its system calls and IsListening for
--   what bind and listen do to a socket.
-- - Client: the command frames of root/app/client/src/Client.cpp; Client/Session: its receive loop
--   and the login dialog's state, with Listings for what it reads of an inbox or a history;
--   Client/Console: the menus and prompts of UI.cpp, over what is left of std::cin; Client/Menu: the
--   commands behind the menus and the loop of Client::run, as the steps of two threads, with Dialogs
--   and Scripts for what a user types in a session; Client/Connecting: connectToServer and the ends
--   of a client, over the parameter Dialer for the clock and the socket; Client/Address: the command
--   line of main.cpp.
-- - Gui: root/serverGUI/src/mainwindowserver.cpp. Gui/Frames has sendFrame and readFrame over the
--   parameter QTcpSocket, Gui/Commands the exchange for one command, Gui/Tables the two tables with
--   their filters and buttons, Gui/Dates the list of dates to filter by; Gui/Text is what they use of
--   Qt's strings, the parameter Qt.
-- - Threading/ThreadPool: root/app/libs/threading/src/ThreadPool.cpp, as steps of its workers, which
--   sleep on the condition variable until they are woken.
-- - Base: numbers, tests, lists and text that all parts share. Tests: concrete inputs.
--
-- Numbers: a byte is a number below 256, an int is an integer with the bound 2^31 where it matters, the
-- length in a frame is taken modulo 2^32, std::stoul wraps a negative number modulo 2^64.
--
-- Loops over a socket run on fuel, one unit for each byte that is wanted: every round that goes on
-- sends or receives a byte at least, so it is enough; where it could run out the answer is none, or
-- stuck. The lines of a response that the window reads are counted by the fuel of read_response,
-- the attempts of connectToServer by that of connect_to_server, for which 61 is enough.
--
-- PostgreSQL is the parameter Env: when a transaction runs, the time, the salts, which bytes are
-- text, crypt(), to_char() and the order of logins. Rows with equal sort keys keep the order of the
-- table. An exception in a transaction leaves the tables as they were, so a commit in doubt is left
-- out, and so is the gap that an INSERT which fails leaves in a sequence. A request of Database is
-- one step: statements of overlapping transactions, which READ COMMITTED would let through, such as
-- a ban between the SELECT and the UPDATE of loginUser, are left out. A frame is handled as one
-- step; the steps of several handlers come in any order, but do not overlap.
--
-- Not modelled, being output, layout or a choice of the build: logging, the window's wiring and
-- themes, the branches of the server for Windows and of the socket for Apple and FreeBSD, and
-- tcp::createSocket.
pub mod Base
pub mod Tcp
pub mod Server
pub mod Client
pub mod Gui
pub mod Threading
pub mod Tests
