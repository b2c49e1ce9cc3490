-- ===== src/Lib.antt =====
-- Models of the Campus OS modules, with the theorems that make them correct.
--
-- The program is a multi-tenant campus platform in TypeScript. packages/core holds what every module
-- builds on; the modules under packages/modules own their tables, and every write of a module runs in
-- one transaction that sets who acts and for which tenant (packages/db/src/tenant-context.ts).
--
-- Which file models which part:
--   Core/Result         packages/core/src/result.ts; a chain of early returns is a do block
--   Core/Rbac           packages/core/src/rbac/index.ts
--   Core/Payments       packages/core/src/payments/index.ts
--   Core/Ingestion      packages/core/src/ingestion: runIngestion over the port IngestionSink, whose
--                       laws are the record IsTracked of Core/Ingestion/Tracked
--   Tenancy             what every transaction reads: the context, memberships, blocks, notices
--   Timetable           packages/modules/timetable/src/domain and repositories/timetable.ts: Number,
--                       Time, Intervals, Slots (busyIntervals), Conflicts, FreeRooms, Hash, Diff, and the
--                       versioned writes in Repository
--   Rides               packages/modules/rides/src: Seats (seats.ts), Posts (cancelRide of write.ts),
--                       History (any sequence of their transactions)
--   LostFound           packages/modules/lost-found/src: Items (write.ts, expiry.ts), Claims
--                       (claims.ts), History
--   Messages            packages/modules/messages/src: Sending, Requests, Reading and Thread (service.ts,
--                       with access.ts, input.ts, expiry.ts), History (any sequence of them)
--   Marketplace         packages/modules/marketplace/src: Orders, Transitions and Reviews
--                       (orders-write.ts and the definers of drizzle/0004_marketplace_orders.sql),
--                       Reading (orders-read.ts), History (any sequence of their writes); below
--                       Listings, Contact (input.ts), Selling and Lifecycle (write.ts, expiry.ts),
--                       Moderation (moderation.ts), Lives (any sequence of their writes); Gigs
--                       (services-write.ts, services-input.ts)
--   Communities         packages/modules/communities/src: Access (access.ts), Votes (votes.ts), Polls
--                       (polls.ts), Blocks (blocks.ts), Gates (gates.ts), Automod (automod.ts)
--   Common              helpers: tests, lists, texts, tables as lists of rows, signed integers, monads
-- The children of a component hold its proofs and are named for what they prove; Samples, and the modules that
-- end in Samples, hold concrete states with the examples of the results.
--
-- How the code is read:
--   - A table is the list of its rows, with the columns that the modelled operations read or write.
--     An update is `update_where` with the statement's condition; an insert appends a row; a lookup
--     with `limit 1` is `find`. Row-level security is a visibility test of the acting context, written
--     into the condition. One transaction is one step: how two transactions interleave inside the
--     database is not modelled, and a History takes them one after the other.
--   - Ids, tenants and instants (milliseconds) are natural numbers; `now` is the context's. The
--     database's fresh id is an argument, with the hypothesis that no row has it.
--   - A text is the list of its code units. `Number` (Timetable/Number) reads white space, signs,
--     points, exponents and the other bases; a whole number below 0 or above 10^14, and a value that
--     only the rounding of a double makes whole, are left open. Minutes are natural numbers.
--   - Messages: `Date.now()` of a transaction is its `now()`. A profile is a row of the view
--     public_profiles. Where `order by` leaves a tie open, the rows keep the order of the table.
--   - Marketplace: a day is 86400000 milliseconds. The names "gig_id" and "seller_id" in the subquery
--     of the policy mkt_reviews_insert_earned are columns of the order there, as the database resolves
--     them. A transition that the database refuses to run at all is not modelled. The regular
--     expressions of hasContactInfo are functions on code units. The columns of mkt_reports that name
--     the one kind of target are left out, and who may moderate is a table of the database's answers.
--   - A thrown error is `none`, or the message in Core/Ingestion. A refusal is `err`; no operation
--     that answers a refusal has written before, but `votePoll`, which refuses once more after its
--     writes, when the poll that it met before them is not found.
--   - SHA-256 is node's, a parameter; the result on it assumes that the two texts at hand do not
--     collide. JavaScript's sort is a stable insertion sort.
--   - The definers `auth_blocked_between` and `notifications_emit` are taken from the SQL migrations;
--     `auth_effective_community_permissions` is a table of its answers, and a call of
--     `communities_karma_vote` is recorded, not run.
--   - The ranks of posts and comments (domain/ranking.ts) are floating-point formulas. A stored rank is
--     the formula's name with its arguments. The share of a poll option is left as its two numbers.
--   - `toLowerCase` is a parameter of Communities/Automod. What a gate asks for is a natural number.
--   - Money is exact: where amount times rate is above 2^53 - 1, beyond which the source rounds, the
--     fee and the seller's share are left open (`inexact`, `unknown`). Rates are whole basis points.
-- No definition runs on fuel but `decimal_from` (Timetable/Hash), which prints a number on as many
-- rounds as its value and one more, never fewer than it has digits. All other loops are structural.
--
-- Not modelled: posting and editing of rides and items, which wait on the validation schemas of
-- input.ts; their ratings, reports and moderation; posts, comments and feeds of the communities;
-- identity; reports of messages; the browsing reads of the marketplace; money; the campus map; the
-- concrete ingestion sink; the web application.
pub mod Common
pub mod Core
pub mod Tenancy
pub mod Timetable
pub mod Marketplace
pub mod Messages
pub mod Rides
pub mod LostFound
pub mod Communities
