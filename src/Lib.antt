-- ===== src/Lib.antt =====
-- A websocket client and server built on Boost.Beast: a model of the program's own logic.
--
-- Parts of the program, and the files that model them:
--
--   Target, Target/*     UrlDecode, ParseTarget and UriMatches (src/CWebsocketServer.cpp). A std::string
--                        is the list of its bytes (Text), a std::map an association list (Assoc).
--   Payload              SPayload.
--   Server, Server/*     CWebsocketServer::CImpl. Server is its state under the mutex, Effect what an
--                        operation does outside the lock, in the order of the code.
--     Server/Clients     RegisterWsClient, OnWsClosed, RemoveClient, Stop, Shutdown, Start, AddUri,
--                        RemoveUri, NextConnectionId, NotifyClosedSync, DecrementUriCountLocked.
--     Server/Routing     LongestUriMatchLocked, UpgradeAllowed, FindHttpHandler, and the uriAppend that
--                        RegisterWsClient passes on.
--     Server/Sends       SendToClient, Broadcast, AnyClients, GetConnectedClientIds, and the delayed
--                        SendContent and SendMessage of CWebsocketServer.
--     Server/Receive     OnWsMessage and OnWsContent, with LookupReceiveCallbacks.
--     Server/Lifecycle   the server under concurrent threads. Each section under the lock is one step;
--                        the notifications that Stop and RemoveClient make after the lock are steps of
--                        their own, which may come in any order and between any other steps. A step
--                        chooses the calls of callbacks that follow it, with their arguments.
--     Server/Lifecycle/Delivery
--                        how the chosen calls are made after the lock: each thread posts its calls one
--                        by one, or makes them itself, while others come between; the worker takes the
--                        front of the queue, which Shutdown stops.
--     Server/Lifecycle/Abstract
--                        what the server does about its clients: a registry without counts, ports or
--                        machine words.
--     Server/Api         the public class CWebsocketServer, and CUriWrapper.
--   Accept               DoAccept, OnAccept and CDetectSession; Accept/Loop the loop of an acceptor.
--   Session              the handlers of CWsSession, as functions from its state to a new state and the
--                        operations and reports that follow; none stands for undefined behaviour, a
--                        front or pop_front of an empty queue.
--     Session/Strand     the session with the operations of Beast that are outstanding: Reach is what
--                        the strand may go through.
--   Http                 HttpMsg and HttpErrorMessage (src/CWebsocketServer.h).
--     Http/Wrapper       CHttpWrapper with its destructor. The message is shared: Reply posts the
--                        pointer, and the strand reads what it then points to.
--     Http/Connection    the handlers of CHttpConnection. Http/Cycle is their request cycle, which ends
--                        with the program (terminated) when an exception leaves the IO thread.
--   WorkQueue            CWorkQueue (src/CWorkQueue.h): every section under its mutex is a step, and
--                        WorkQueue/Order has the runs.
--   Client               SOutgoingMessage (src/CWebsocketClient.cpp).
--     Client/Session     the handlers of CSession; Client/Session/Strand the runs of its strand.
--     Client/Impl        CWebsocketClient::CImpl; Client/Impl/Sessions its runs.
--     Client/Api         the public class CWebsocketClient.
--     Client/World       the client with its sessions: CImpl and the strands of all sessions it makes.
--   Service              the server with its sessions: CImpl and the strands of any number of sessions
--                        run together. Service/Links says how clients and open sessions belong together,
--                        Service/Steps that every event keeps this. Service/Order has the runs in
--                        which each strand runs its posts in the order in which they were made.
--   Gateway              from a socket to a client: the accept loop, the detections and the http
--                        connections together with the server and its sessions.
--   IoPool               CIoPool (src/CIoPool.cpp): the statements of the first call of Stop are steps,
--                        and other calls come between them.
--   Options              the timeouts and decorators that both programs set on websocket streams.
--   SslContext           CSslContext and MakeSslContext (src/ISslContext.cpp).
--   Examples             examples/echo_server.cpp and examples/echo_client.cpp, with std::stoul.
--     Examples/EchoServer/Runs
--                        the echo server with its sessions: what they read waits in the work queue as
--                        calls of the program's callbacks, which send back.
--   Prelude, Text, Assoc shared types, tests and lemmas.
--
-- How they interact: CHttpConnection reads a request; an upgrade that UpgradeAllowed takes becomes
-- a CWsSession, which registers itself at CImpl once it is accepted; any other request goes to the
-- handler that FindHttpHandler finds, with a CHttpWrapper for the reply. CImpl sends to its
-- sessions by number, and posts the callbacks of the user to its work queue. The client's CImpl
-- makes a session for each attempt, keeps the newest and closes the one before it.
--
-- Bounds and fuel. The query loop runs on fuel, the length of the query plus two; every round moves
-- the start forward, so that this is always enough. Connection ids are uint32_t and wrap as in the
-- source (next_id); the theorems on runs of the server that need distinct ids ask for fewer than
-- 2^32 events, since ids repeat after that. Other numbers (counts, sizes) are not bounded: they
-- count objects in memory.
--
-- What is assumed of Boost: an operation completes only if it is outstanding; once a read or a
-- write of a stream has completed with an error, no later one completes with success; the
-- completion of a close is not followed by anything. The result() of a response throws for a status
-- above 999, and its prepare_payload() for a body with a status 1xx, 204 or 304; a response with
-- another status is written. A post to a strand runs once, and handlers of one strand do not
-- overlap. If the server object is gone the session's reports go nowhere.
--
-- A detection that fails drops its socket, as the source says. An accept is aborted only when its
-- acceptor is closed. In Service and Client/World a handler of a session is one step with the
-- section of CImpl that it calls, and the CImpl object lives. What a thread has still to post
-- counts as posted, and a post may run at any later time, also after later posts; this is more than
-- the strand allows. In Service/Order and Examples/EchoServer/Runs the posts to one strand run in
-- the order in which they were made. Service asks that connection ids are left when one is taken.
-- In Gateway the server object lives, a socket has one accept, and a connection whose reply Beast
-- refused has no more events, while the others go on (the program in fact ends). In
-- Server/Lifecycle/Delivery the work queue may be stopped as soon as the shutdown flag is set, which
-- is more than Shutdown does, and the calls of messages and requests are left out. Joining a thread of the pool
-- returns (IoPool).
--
-- Not modelled: what OpenSSL makes of an ssl context, the tests, sleeping and signals. Start tests its
-- flag and takes the lock in one step, since only the destructor calls Shutdown; so do AsyncConnect
-- and Connect. Exceptions of callbacks are caught and logged by the source, which no state depends
-- on. What Beast makes of its options (Options), the texts of log lines and memory are left out. In
-- Examples the text of an exception is left out, and what a callback prints is a list of pieces. In
-- Examples/EchoServer/Runs a read and the posting of its callbacks are one step, and the callbacks
-- that only print are not in the queue.

pub mod Accept
pub mod Assoc
pub mod Client
pub mod Examples
pub mod Gateway
pub mod Http
pub mod IoPool
pub mod Options
pub mod Payload
pub mod Prelude
pub mod Server
pub mod Service
pub mod Session
pub mod SslContext
pub mod Target
pub mod Text
pub mod WorkQueue
