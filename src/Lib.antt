-- ===== src/Lib.antt =====
-- A verification library of the SOBH messenger's backend, a Go service with PostgreSQL, Redis and NATS
-- behind it. The definitions are translations of the Go source; paths are from the root of the
-- repository.
--
-- The parts and how they meet. A client holds a socket to one node; the hub of that node
-- (backend/internal/realtime/hub.go) knows the sockets and subscribes to the bus for the users and chats
-- that they want. The handlers ask the rate limiter (backend/internal/ratelimit) before they act. What a
-- member may do in a chat is worked out from the role, the chat, a named role and personal overrides
-- (backend/internal/messaging); the services that administer a chat (backend/internal/groups) and place
-- calls in it (backend/internal/calls) ask for it before they write, and so do messages
-- (backend/internal/messaging) and secret chats (backend/internal/secretchat), while polls
-- (backend/internal/polls) keep their own rules. Who a caller is comes from the access token that
-- backend/internal/auth gives out at a sign-in and checks on each request. Services answer with the errors of
-- backend/internal/httpx/errors.go.
--
-- Which file models what:
--   Common        shared lists, maps and numbers. A Go map is an association list; no statement rests on
--                 its order. A uuid is a number that is compared.
--   Realtime      backend/internal/realtime: Realtime/Client is client.go (the send buffer and the closing),
--                 Realtime/Hub is hub.go (`register`, `unregister`, `subscribe_chat`, `deliver_to_chat`, ...
--                 one function for a method of the hub). A pointer to a client is a number, the heap a
--                 function. Whether a call of the bus succeeds is an argument.
--   RateLimit     backend/internal/ratelimit: RateLimit/Script is the Lua script of limiter.go over a sorted
--                 set, RateLimit/Limiter the Go half around it and rules.go. Redis is an interface, the record
--                 of its documented commands in RateLimit/SortedSet.
--   Httpx         backend/internal/httpx/errors.go: status and code; and the result type of a Go function
--                 that returns a value or an error.
--   Messaging     Messaging/Permissions is the permission model of backend/internal/messaging/models.go,
--                 Messaging/Context is `ChatContextFor` of repository.go. A permission set is a function from
--                 the keys; a column of JSON is none where it is empty or does not decode.
--   Messages      backend/internal/messaging/repository.go and service.go: Messages/Message is the rows of a
--                 chat (messages, reactions, the log of events, receipts, members' cursors), Store and
--                 Statements the single statements, Reading the queries, Operations the transactions of the
--                 repository (`send`, `edit`, `delete`, `react`, `mark_read`, ...), Service the methods of the
--                 service. Sequence, Changes, Numbered, Histories and Log are about the numbers that
--                 messages and events take, Retry about a repeated Send, Sync and Clearing about what a
--                 reader gets, Rights about the refusals.
--   Polls         backend/internal/polls/polls.go: Polls/Poll is a poll with its statements, Polls/Service the
--                 checks around them; Counted and Histories are about the counters.
--   SecretChat    backend/internal/secretchat/secretchat.go: Store is the tables, Keys the key directory with
--                 `PublishKeys` and `ClaimBundle`, Mailbox the envelopes, Sessions the chats and sessions.
--                 Handover, Claims, Once and Handed are about one-time prekeys, Rotation about a new identity
--                 key, Delivery and Inbox about envelopes. Base64 is Common/Base64.
--   Groups        backend/internal/groups: Groups/Chat is the rows behind one chat, Groups/Repository and
--                 Groups/Invites are the statements of repository.go and roles.go, Groups/Service with
--                 Groups/Service/Roles, Joining, Settings and Creation the methods of service.go and roles.go,
--                 and the joining of a discussion group of comments.go. Groups/Operations is one type of the
--                 operations that write what Groups/Chat holds of an existing chat, with its interpreter;
--                 `Update`, `RecordView` and the links between a channel and its discussion group write other
--                 columns and are left out. Groups/Membership and the modules below it are about the rows and
--                 the owner, Groups/Authority, Ranks, Joins and Final about single operations. A statement
--                 runs in a transaction, so each operation is one step; a refused one leaves the chat.
--   Calls         backend/internal/calls/calls.go: Calls/Party is a participant, Calls/Call a call with the
--                 statements of the repository, Calls/Service the operations (`start`, `accept`, `reject`, and
--                 `finish` for `End`) and the session records. Calls/Cap and Placed are about the
--                 participants of a call, Calls/Ended about its end.
--   Antispam      backend/internal/antispam/antispam.go: the score of one subject, its signals and sweeps.
--   Auth          backend/internal/auth: Auth/Phone is phone.go, a number as its runes; Auth/Accounts, Sessions
--                 and Challenges the statements of repository.go on users, devices, sessions and codes;
--                 Auth/Login `RequestOTP` and `VerifyOTP` of service.go; Auth/Tokens the tokens of
--                 service.go and token.go and signing out; Auth/Middleware `AuthenticateToken` of
--                 middleware.go. Auth/Login/Spent is about a code that was used, Budget and Guesses about
--                 wrong ones, Auth/Tokens/Used and Single about a refresh token that was used, Denied,
--                 Covered, Kept and SignedOut about access tokens of ended sessions. SHA-256, Argon2 and
--                 the JWT library are arguments.
--
-- Time is a number that an operation takes where the source reads the clock. Every loop of the source is
-- structural recursion over the list that it ranges over; there is no fuel.
--
-- What is left out: failures of the database other than the ones that the code tells apart, logs and
-- metrics, the text of errors, what goes to the bus, columns that no decision reads, SQL that only lists
-- rows, and the parts that the modules named above do not cover.
pub mod Antispam
pub mod Auth
pub mod Calls
pub mod Common
pub mod Groups
pub mod Httpx
pub mod Messages
pub mod Messaging
pub mod Polls
pub mod RateLimit
pub mod Realtime
pub mod SecretChat
