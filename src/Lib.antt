-- ===== src/Lib.antt =====
-- marko.cpp: datagram sockets with publish/subscribe and request/reply on top of them.
--
-- The program is a library of headers, src/include/marko/*.hpp. A socket (socket.hpp) owns a
-- descriptor; SocketUDP, SocketUnix and SocketBC (socket_udp.hpp, socket_uds.hpp, socket_bc.hpp)
-- send and receive messages through it; Subscriber, Publisher (pub_sub.hpp), Reply and Request
-- (request_reply.hpp) are templates over such a socket. Addresses are texts that two regular
-- expressions take apart (sockaddr.hpp). Around these stand the packing of messages (message.hpp),
-- texts of fields (ascii.hpp), a flag between threads (event.hpp), timeouts (time.hpp), signal
-- handlers (signals.hpp) and a print of a socket's options (info.hpp).
--
-- Where each part is modelled:
--   Prelude       native numbers, bytes, lists, Boolean tests, ℤ and decimal numbers
--   Outcome       a C++ call: it returned, it threw, or it has no defined result
--   Regex         the two expressions of sockaddr.hpp and socket.hpp, and std::regex_search, a part
--                 of the standard library, on them;
--                 Regex/Spec is the meaning of a pattern without a search order, Regex/Scan the two
--                 expressions as scanners
--   Sockaddr      sockaddr.hpp: SockAddr, filter, inet_sockaddr, unix_sockaddr, the printers;
--                 Sockaddr/Reference is a parser without regular expressions
--   Host          sockaddr.hpp: get_hostname, get_host_ip; Host/Closes is the descriptor of the latter
--   Time          time.hpp: get_time and the sleeps
--   Os            the operating system, a parameter
--   Machine       a socket object with the world, and the monad of its methods
--   Socket        socket.hpp: the class Socket, method by method; `Call` lists them; Socket/Account
--                 counts which descriptors a method closes, Socket/Addresses and Socket/Paths are `bind`
--                 and `connect`, Socket/Closed calls the methods without a descriptor,
--                 Socket/Life is an object from its constructor to its destructor
--   SocketUdp, SocketUnix, SocketBc
--                 socket_udp.hpp, socket_uds.hpp, socket_bc.hpp; SocketUdp/Life and
--                 SocketUnix/Life are the lives of their objects
--   Transport     what the templates use of their parameter SOCKET, as a record that SocketUdp and
--                 SocketUnix fill; Transport/Datagrams says what both do where no call fails
--   Loop          `while (event.is_set()) once();`; Loop/Queue is that loop over a queue
--   PubSub        pub_sub.hpp: Subscriber, Publisher; PubSub/Network interleaves them over a network,
--                 PubSub/Polling is the subscriber's loop there, PubSub/Audience the publisher without the
--                 order of its addresses, PubSub/Mesh interleaves many publishers and subscribers over
--                 any socket
--   RequestReply  request_reply.hpp: Reply, Request; RequestReply/Exchange is one request with its
--                 reply, RequestReply/Remote a replier as a function on a state,
--                 RequestReply/Serving the replier's loop, RequestReply/Network interleaves
--                 requesters and a replier over a network
--   Timeouts      a receive call that times out inside the loops of Subscriber and Reply
--   Message       message.hpp: pack, unpack, msg2string; a trivially copyable type is a `Layout`;
--                 Message/Received is a packed value at a receive call
--   Ascii         ascii.hpp: the class Ascii; Ascii/Split is a reference for its `unpack`, Ascii/Rejoin
--                 packs again what was unpacked
--   Event         event.hpp: the class Event with the threads that block in `wait`
--   Signals       signals.hpp: the class SignalFunc over the table of handlers
--   SocketInfo    info.hpp: the lines that SocketInfo prints
--   Examples/Simple, Rr, Ps, Bc, SockAddress, Msg, Choice
--                 examples/simple.cpp, rr.cpp, ps.cpp, bc.cpp, regex.cpp, msg.cpp
--                 (Choice is the `main` of the first three); Examples/Inbox is what they ask of
--                 the system
--   Gtests        gtests/: Gtests/Broadcast is test_bc.cpp (Air interleaves the server and the clients),
--                 Gtests/Queries test_rr.cpp (Runs is its requesters as whole functions),
--                 Gtests/Feeds test_ps.cpp, Gtests/Basics test_marko.cpp
--   HelloWorld    dev/module/: the experiment with modules
--   Tests         runs of the theorems on concrete inputs
--
-- A method is a function of the object and the world: its descriptor is a field, a system call takes
-- the world and gives the next one, and an exception keeps what was done before it. What C++ leaves
-- undefined, such as a write past an array, is an outcome of its own. Texts and messages are lists of
-- bytes; a port keeps its cut to sixteen bits, and its two bytes stand in network order. The bytes of
-- a `sockaddr_un` path are 108, as on Linux; `fd_set` holds the descriptors below 1024.
--
-- The loops of Subscriber and Reply run on fuel and tell whether it ran out; with more fuel than
-- rounds it does not. All else is structural recursion.
--
-- The operating system and libc are parameters (`Os`, `Inet`), as are gtest's expectations
-- (`Harness`), with what a theorem needs of them among its hypotheses. Memory reuse is not
-- modelled: the parsers, which return references to objects that are gone, are taken to return the
-- values. `SockAddr ans{0}` initialises 16 bytes of the union; what its other 94 hold is a part of
-- `Inet`, the same for every address. The bytes of a value are a function of the value, so that
-- padding counts as a part of it, and a byte is a natural number. Other threads are modelled as
-- the threads that wait on an Event and as interleavings of whole `publish` calls and rounds
-- (PubSub/Network, PubSub/Mesh), of the halves of `request` and rounds (RequestReply/Network), and
-- of rounds of a server and its clients (Gtests/Broadcast); else a method runs by itself. Text
-- that goes to a terminal is modelled for the line of `guard`, SocketInfo and the examples only.
--
-- Not modelled: copies of a socket object, which the classes allow and which close the descriptor
-- again; examples/dev.cpp, all of whose code is commented out; socket_types.hpp and marko.hpp,
-- which only include; and the bodies of the tests with threads and the `main` of bc.cpp, which
-- only start them.
pub mod Prelude
pub mod Outcome
pub mod Regex
pub mod Sockaddr
pub mod Time
pub mod Os
pub mod Machine
pub mod Socket
pub mod SocketUdp
pub mod SocketUnix
pub mod SocketBc
pub mod Message
pub mod Ascii
pub mod Event
pub mod Loop
pub mod Transport
pub mod PubSub
pub mod RequestReply
pub mod Signals
pub mod SocketInfo
pub mod Host
pub mod Examples
pub mod Timeouts
pub mod HelloWorld
pub mod Gtests
pub mod Tests
