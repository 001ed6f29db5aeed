-- ===== src/Lib.antt =====
-- Verification of drachtio-server, a SIP server whose call control lies in applications that connect to
-- it by TCP.
--
-- The parts modelled, and how they meet. An application's connection (`Client`) cuts its byte stream into
-- messages. `ClientController` knows which application registered for which SIP method and which one has
-- each dialog, transaction and API request. A new request from the network goes to
-- `PendingRequestController`, which asks `RequestRouter` whether the method has an HTTP route, and else
-- takes an application from `ClientController`; the request stays pending until it is taken or times out.
-- A request can also be proxied (`SipProxyController`) to targets
-- that are tried one after the other or at once. A message of an application is split into its parts and becomes a registration or a request to the
-- SIP stack, whose answer goes back to the application that asked.
--
-- Files, with the code that each models:
--   Common: numbers, lists, texts as lists of bytes, and `std::unordered_map` as a dictionary.
--   Client.Framing: `BaseClient::readMessageLength`, `Client::read_handler`, `Client::send` (client.cpp).
--     The children prove what reading in chunks comes to (Numerals, Header, Stream, Delivery) and what
--     the buffer's size does (Limits).
--   ClientController: its state (client-controller.hpp); Selection: `wants_requests`,
--     `no_longer_wants_requests`, `selectClientForRequestOutsideDialog`; Transactions, Dialogs, Routing:
--     the tables and the `route_…` methods (client-controller.cpp).
--     Applications: what an application asks for, over an interface to the SIP stack.
--   Client.Commands: `processClientMessage` and the texts that a connection writes (client.cpp). Refusals
--     and Requests prove what its answers mean.
--   SipDialogController.Outbox: the calls by which the clients' thread posts to the stack's thread
--     (sip-dialog-controller.cpp and .hpp), an implementation of that interface.
--   SipDialogController.Liveness: `trackTportLiveness` (sip-dialog-controller.cpp), with Streaks on
--     requests that end in a timeout one after the other. TimerD: `TimerDHandler`, the ACKs that are kept.
--   SipDialogController.Thread: the state of the thread of the SIP stack; Steps: what its handlers share;
--     Requests, Responses: `processRequestInsideDialog`, `processResponseInsideDialog` and the refreshing
--     re-INVITE; Invites: `processCancelOrAck`, `processPrack`, the timers of answers; Sending:
--     `doSendRequestInsideDialog`, with `doSendCancelRequest` in Canceling; Placing: `doSendRequestOutsideDialog`;
--     Outside: `processResponseOutsideDialog`; Replying:
--     `doRespondToSipRequest`, with `setupLegForIncomingRequest` (controller.cpp), in the branches Dialogs,
--     Invites and their union Whole. Kept, Clients and the Quiet files say what these leave alone,
--     Refresh, Accounted, with Frames and Held, Late, Failed, Replies and Answered what they come to.
--   RequestRouter: request-router.cpp.
--   TimerQueue: timer-queue.cpp, with its entries on an explicit heap; Chain says which list of entries
--     the pointers form, Add, Expiry and Remove what the operations do to it, Runs what repeated runs of
--     `doTimer` come to.
--   SipProxyController: a proxied request (sip-proxy-controller.cpp and .hpp). Transaction: the states and
--     timers of `ClientTransaction`, `cancelRequest`; Responses: its `processResponse`; Sending:
--     `forwardRequest`, `retransmitRequest`, `forwardPrack`; Server: `ServerTransaction`; Core: `ProxyCore`
--     with its clients, Success: what cancelling does to them, Choice: `forwardBestResponse`, Search: `startRequests`, `processResponse`,
--     Timers: `timerA` to `timerK`; Table: `SipProxyController` itself. A timer is the time for which it is set; what is sent is a list of
--     effects, in order.
--   SipTransport: sip-transports.cpp and .hpp: a transport, its contact and network; Texts: what it is
--     called; Networks: what being in a network means; Table: all transports, and the choice of one.
--   InvitesInProgress: invite-in-progress.cpp and .hpp, with its set as a list.
--   SipDialog: sip-dialog.cpp and .hpp but for the constructors; Stable: the set of established dialogs.
--   DrachtioController: the caches of transports in controller.cpp, and ua-invalid.cpp; Aliases: the
--     connections of peers by the contact that they advertise.
--   PendingRequests: pending-request-controller.cpp; NewRequest: `processNewRequest`,
--     `routeNewRequestToClient`, `timeout`.
--   Drachtio.Addresses: `isRfc1918`; Drachtio.UrlEncode: `urlencode`; Drachtio.Messages: `splitMsg`, `splitTokens`, `splitLines`,
--     `GetValueForHeader`, `parseStartLine`; Drachtio.Uris: `parseSipUri` (drachtio.cpp).
--
-- State is passed explicitly. Objects behind `weak_ptr` are given by a table of those that still exist;
-- pending requests stand on an explicit store that two maps share. Mutexes are not modelled: each
-- method is one step. A failed assertion and undefined behaviour are results of their own.
--
-- Bounds and fuel. `read_handler` loops over the messages in its buffer; the model runs it on fuel one
-- more than the length of the buffer, and each round takes a byte at least, so that the fuel never runs
-- out. The loops of `TimerQueue` run on fuel from its length, which is the number of entries.
-- `to_string` writes ten digits at most, which holds every 32-bit length.
--
-- Not under the repository, and therefore parameters: Boost's circular buffer and `lexical_cast` (with
-- laws), `boost::split` and other string functions, `su_msg`, uuids, addresses, `rand`, timer handles,
-- `std::sort` (with no result where it is undefined behaviour, as it may be for two elements or more by a
-- comparison that is no strict weak order), the searches by regular expressions, `inet_pton` and what
-- Sofia-SIP answers.
-- Not modelled: sockets, TLS, threads, logging, statistics, configuration, and of the thread of the SIP stack
-- the headers that it makes. A null pointer that is read and a failed assertion are `none`
-- there.
mod Common
pub mod Client
pub mod ClientController
pub mod RequestRouter
pub mod PendingRequests
pub mod Drachtio
pub mod SipDialogController
pub mod TimerQueue
pub mod SipProxyController
pub mod SipTransport
pub mod InvitesInProgress
pub mod SipDialog
pub mod DrachtioController
