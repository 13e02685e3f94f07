-- ===== src/Lib.antt =====
-- ShopifyVitrina: a WhatsApp assistant of a shop. A message enters by a door, is stored in the
-- inbox, waits until its sender has been silent for a while, and is then answered, with the rest
-- of its burst, by one turn of an agent. This library models the server's path from its doors
-- to the turn and the tables that it decides by, with theorems on each.
--
-- The parts and their files:
--
-- * Inbox is the table `inbox` of server/src/data/repo.ts. Inbox/Rows has the types, Inbox/Tables
--   one function for each of repo.ts: `insert_message` is insertInboxMessage, `claim_batch`
--   claimInboxBatch, `mark_batch_done` markInboxBatchDone, and so on. Inbox/Ids and Inbox/Valid
--   have the lemmas on ids, and Inbox/Calls any sequence of calls.
-- * Batcher is server/src/inbox/batcher.ts. Batcher/Prompt is buildBatchText, Batcher/Timers the
--   bursts and the retries, Batcher/Media the fetching of files and the transcription,
--   Batcher/Process identify and processBatch, cut at the call of onMessage into `begin_batch` and
--   `finish_batch`. The batcher claims and settles rows of Inbox, reads the role of a phone
--   through the `route` that Router gives, and writes to Conversation and PendingMedia.
-- * Webhook is the WhatsApp door, server/src/inbox/webhook.ts, from a parsed message on: it inserts
--   into Inbox and opens a burst.
-- * AgentDoor is the agents' door, server/src/inbox/a2a.ts with server/src/a2a-protocol.ts: `post`,
--   whose parameter `wait` is what goes on while its caller waits. It reads AgentRegistry,
--   server/src/data/agent-registry.ts, inserts into Inbox, hands the conversation to the queue and
--   parks its caller with Replies, server/src/egress/agent-reply.ts.
-- * Queue is server/src/inbox/queue.ts: the map of tails, and the steps that the runtime takes on the
--   promises.
-- * System is these at work: the inbox, the timers, the queue of server/src/inbox/queue.ts, and the
--   turns that run, as one step function over the events of the two doors, the timers, the queue,
--   the turns, the sweep and a crash. A job that waits may start there at any time, and so in the
--   order that Queue has and in any other; System/Chained runs the same doors, timers and turns with
--   Queue itself. What processBatch does before it calls onMessage is one event.
-- * Turn is server/src/inbox/envelope.ts and the turn's context of server/src/types.ts.
-- * Answering is onMessage and onBatchFailure of server/src/index.ts with
--   server/src/egress/responder.ts: the gates
--   before the agent's turn, which read Handoffs and RateLimit and issue AdminSessions, and the
--   delivery of its reply over WhatsApp or by Replies, which Conversation records.
-- * RateLimit is server/src/inbox/rate-limit.ts and Alerts server/src/inbox/alerts.ts.
-- * Conversation, PendingMedia and Handoffs are the sections of server/src/data/repo.ts on the
--   tables `conversation_messages`, `pending_media` and `conversation_handoff`.
-- * Assignments is server/src/data/assignments.ts with normalizePhone of server/src/config.ts, and
--   Router is server/src/router.ts, which reads the assignments.
-- * Rank is server/src/shopify/rank.ts: Rank/Products the types and what is searched in a product,
--   Rank/Distance editDistance, Rank/Search the scores and rankProducts.
-- * AdminSessions is server/src/data/admin-sessions.ts, and AdminDeepLinks
--   server/src/data/admin-deep-links.ts, whose redemption issues a session.
-- * Base has what these share: tests on numbers, lists, texts, maps, and the rows of a table that
--   a query selects, updates or deletes.
--
-- How the code is modelled. A string is the list of its UTF-16 code units. A table is a list of
-- rows in the order of their ids, with the id that is given next; an SQL statement is `select`,
-- `update` or `delete` with its WHERE clause, and a transaction is one function. A time is a
-- natural number, in milliseconds for Date.now() and in seconds for datetime('now'); a function
-- that reads a clock takes the time. A timer is the time at which it is due, and its callback a
-- function. What the code does in place is a new state; null and undefined are `none`, as is an
-- error thrown where nothing tells errors apart.
--
-- Parameters stand for what the program calls: downloads, writes of files and the speech service
-- (the records of functions `MediaStore` and `Deps`), the digest of a reply's key, the hash of a
-- token, JSON and URLs, fresh UUIDs, the signature of a delivery, and the turn of the agent itself.
--
-- Fuel: only `digits` of Batcher/Prompt, which writes a number in decimal, runs on it; it is given
-- one more than the number, and `digits-value` shows that the digits give the number back.
--
-- Not modelled: logging; the parsing of what the doors receive, the agent's runtime, the Shopify
-- client, the admin console and the channels, which are calls of remote services; command-line
-- tools, migrations and the bridge in Go.
mod Base
pub mod RateLimit
pub mod Alerts
pub mod Inbox
pub mod Batcher
pub mod Turn
pub mod Conversation
pub mod PendingMedia
pub mod Assignments
pub mod Router
pub mod Handoffs
pub mod AdminSessions
pub mod AdminDeepLinks
pub mod Webhook
pub mod System
pub mod Replies
pub mod Queue
pub mod Rank
pub mod Answering
pub mod AgentRegistry
pub mod AgentDoor
