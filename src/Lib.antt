-- ===== src/Lib.antt =====
-- A verification library for the server side of the Gundam TCG hub: the rules of its marketplace, the
-- listings and the life of an order, Stripe's webhooks, the proofs of fairness of a card break, and the
-- guards of what comes in from outside: roles, sign-in limits, uploads, and files in CSV; and the alerts to watchers.
--
-- The program. A buyer opens an order for a listing, Stripe takes the money, the seller ships, and
-- the order is delivered and completed, or is cancelled, disputed or refunded on the way. The rules are
-- pure functions (packages/core/src); the queries (packages/db/src/queries) apply them inside
-- transactions on Postgres, as a user's session or as the worker, under the CHECK constraints, the
-- unique indexes and the row policies of the schema.
--
-- Base: Boolean tests, lists, integers and tables that the other parts share.
-- Order: packages/core/src/orders.ts. `table` is `TABLE`, `transition` is `transition`, a thrown
--   `IllegalTransitionError` is the outcome `refused`.
-- Rules: packages/core/src/fees.ts, payouts.ts, fraud.ts and market.ts, one module for each.
-- Orders: packages/db/src/queries/orders.ts on the tables of packages/db/src/schema/market.ts.
--   Schema has the rows and the constraints, Db the transactions and the statements under the row
--   policies, Queries and Payments one function for each function of the source that writes. Calls puts
--   them in sequence. Step says what a query may do to the orders and their history; Effects,
--   Refinement, Settlement and Paying prove it of each query, and History, Constraints and Sessions
--   draw the invariants from it. Live, Shipping, Finishing and
--   Receipt say when the queries succeed. Nightly is `completeDeliveredJob` of packages/db/src/jobs.ts, with
--   the orders it asks for; Ready, Earliest and Completing say what it does.
--
-- Listings: packages/db/src/queries/market.ts and apps/api/src/routes/market.ts, on the same tables.
--   Queries has one function for each query that writes, under the row policies of the migrations 0041 and
--   0042, Routes one for each route that writes, which asks Access and Rules first and logs to the audit
--   log. Calls puts the queries in sequence; Invariants and Sold say what comes of it.
--
-- Webhook: apps/api/src/routes/stripe-webhook.ts and packages/db/src/queries/webhooks.ts. State has the
--   tables and the transaction that a delivery runs in, Handlers and Accounts one function for each
--   handler, Receive the two routes. Effects says what a handler may do; Once that a delivery is acted
--   on once; Payment follows a paid Checkout session from the request to the order, and mixes
--   deliveries with the calls of Orders.
-- Fairness: packages/core/src/fairness.ts, with packages/db/src/queries/fairness.ts and the status and
--   the pulls of packages/db/src/queries/breaks.ts. Shuffle derives the order of the slots, Permutation,
--   Sampling and Choices say what it is and which words of the stream it comes from; Verify is the check of a published result; Chain is the log of pulls
--   and Tamper what its check finds; Break has the operations on a break, Actions puts them in sequence,
--   Promise and Published say what they keep, Log is the logging of a pull.
--
-- Pricing: packages/core/src/pricing.ts. Summary has the summary of a set of observations, Sorted and
--   Spread the order of its numbers. A tenth is trimmed at each end, as every caller has it.
--
-- Text: strings as UTF-16 code units, with the functions of the language that the parsers call.
-- Csv: packages/security/src/csv.ts. Write is the export, Read the parser, whose loop is `scan` over the
--   units with the scanner as its variables. RoundTrip puts the two together; Limits and Mapping say what
--   comes through, Cells has the lemmas on one cell.
-- Images: packages/security/src/images.ts. Walk is a loop over the segments of a file, Header and Exif the
--   readers, Inspect the checks of an upload. Ends proves that the loops end, Accepted what an accepted
--   upload is; Segments lays files out, for ReadBack and Located.
-- Amounts: packages/core/src/collections.ts (Money, Columns) and packages/core/src/vod.ts (Durations), with
--   what is written read back in MoneyRoundTrip, DurationRoundTrip and TwitchRoundTrip.
-- Access: packages/auth/src/authorize.ts, step-up.ts and identifier-limit.ts. The limiter's map keeps its keys
--   in the order of insertion, as a JavaScript Map does; Eviction says what that order costs.
--
-- Alerts: packages/alerts/src/dispatcher.ts and retry.ts, on the deliveries of packages/db/src/queries/ingest.ts.
--   Deliveries has the table and its statements, Dispatch and Retry the two loops. Once, Claim, Settled and Messages
--   say what a dispatch and a run of the retry leave.
--
-- HMAC, SHA-256, encryption, JSON.stringify, Stripe's library and Stripe's answers are parameters. Where
-- a theorem needs a digest without collisions it says which two texts would have to collide.
--
-- Texts and identifiers that are only stored and compared are numbers; a UUID that the database draws
-- is an argument, and so is the clock, which the store carries. A transaction runs alone: the row locks
-- (`for update`) of the source serialise those on one order. An error carries no store, because
-- Postgres rolls a failed transaction back. The
-- rejection sampling of the shuffle ends by chance and runs on fuel, the number of words that one draw
-- may take; it is enough as soon as one of so many words is below 2^31, half of all words. The loops over
-- the segments of a file run on one more than the file's length, because each round moves forward, and
-- a number is written on one more than itself. Every other loop is over a list or counts down.
--
-- Not modelled: the web application, the sign-in itself, the Stripe client, the decoding, scanning and storing of
-- photos, the transports of alerts, the queries on collections, and most queries that only read.
pub mod Base
pub mod Order
pub mod Rules
pub mod Orders
pub mod Listings
pub mod Webhook
pub mod Fairness
pub mod Pricing
pub mod Text
pub mod Csv
pub mod Images
pub mod Amounts
pub mod Access
pub mod Alerts
