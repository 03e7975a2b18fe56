-- ===== src/Lib.antt =====
-- RAISE, the restaurant arrival service: the services of apps/api, the dashboard of apps/restaurant
-- and the guest's page of apps/customer.
--
-- A guest's visit is drafted in a conversation with a language model (apps/api/src/intake),
-- confirmed for a table (apps/api/src/visits), timed (apps/api/src/timing), cooked and served
-- (apps/api/src/kitchen). The services share one database and tell each other, and the sockets of the
-- gateway (apps/api/src/realtime), what happened by domain events, which also call for texts and
-- alerts (apps/api/src/notifications). A dashboard loads its list from the API (apps/api/src/dashboard)
-- and keeps it up by what the gateway sends. The guards (apps/api/src/auth) decide who may call. Each
-- handler reads rows, decides, and writes by conditional updates inside a transaction; between two
-- awaits other requests may commit.
--
-- Prelude: numbers, integers, lists and tests that the modules share.
-- Store: tables keyed by primary key, and the Prisma client's statements as a parameter, with the
--   laws that its documentation gives and a client that obeys them.
-- Schema: the rows of apps/api/prisma/schema.prisma and the domain events.
-- World: a handler as an action on the database and the emitted events that returns or throws, and
--   the transaction of apps/api/src/prisma/tenant-prisma.service.ts, rolled back by a throw.
-- Visits: apps/api/src/visits/visits.service.ts. `confirm_checks`, `confirm_tx`, `confirm_claim` and
--   `confirm_recover` are the checks, the transaction, the `try` and the `catch` of `confirm`.
--   Claims, Stages, Booking, NoTrace, Races and Retabled hold its theorems.
-- Timing.Engine: apps/api/src/timing/timing-engine.ts. Timing.Service: timing.service.ts, with its
--   theorems in Service.Recompute and Service.Accept. Timing.Subscriber: timing.subscriber.ts.
-- MenuItems: apps/api/src/menu-items/menu-items.service.ts.
-- Kitchen: apps/api/src/kitchen/kitchen.service.ts, with the allergy gate in Gate, the answers to an
--   acknowledgment in Acks and the flags of a ticket in Queue. An insert that fails aborts its
--   transaction, so the read that the source makes after it fails too.
-- Realtime: apps/api/src/realtime. Tickets is realtime-ticket.service.ts, Gateway visits.gateway.ts;
--   Rooms and Admission hold the gateway's step relation, its invariant and its theorems.
-- Reassignment: apps/api/src/dashboard/table-reassignment.service.ts, with its answers in
--   Outcomes and what a commit leaves in Moves and Commits.
-- Dashboard: apps/api/src/dashboard/dashboard.service.ts, its list against the database in Listing
--   and, entry by entry, in Entries.
--   Live is apps/restaurant/src/lib/dashboard-events.ts with the message handler of
--   components/dashboard-live.tsx; Faithful and Unseen say how the screen follows the database.
-- Auth: apps/api/src/auth/guards and the `verify` of apps/api/src/auth/tokens over a JWT library that
--   is a parameter; Staff and Guest hold the staff routes' chain and the confirmation route,
--   and Otp apps/api/src/auth/otp/dev-otp.provider.ts. Login is auth.service.ts, with what a login
--   brings in StaffLogin and GuestLogin.
-- Notifications: apps/api/src/notifications, with the counting of sends in Once and Delivery.
-- Intake: apps/api/src/intake. Tools is tools/tool-handlers.ts, Registry tool-definitions.ts, Dialogue
--   the interface of the engines, Claude the loop of llm/claude-dialogue.engine.ts by its rounds, and
--   Turns intake.service.ts with draft-policy.ts. Frame, Grounding, Claude.Bounds, Claude.Reach,
--   Turns.Transcript, Turns.Windows and Turns.Heeded hold their theorems. The model, the speech
--   provider, the schema library and the texts' trimming are parameters; a number that the schemas
--   allow and a column does not hold makes the call throw.
-- Floor: the transactions that seat guests, as steps from one committed world to the next, with the
--   exclusivity of tables in Exclusivity over the lemmas of Seats.
-- Http: the staff routes of the controllers behind their guards. Access says who they run for;
--   Tenants, Services, Bodies and Isolation, what they leave alone. Drafts holds the draft routes.
-- Dashboard.Socket: the live connection of apps/restaurant/src/lib/use-dashboard-socket.ts, as what
--   the page does on each report of the browser. Shapes and Events say what it can be doing.
-- Panel: apps/customer/src/components/confirm-panel.tsx, with its six steps in Steps.
-- Chat: apps/customer/src/components/intake-chat.tsx, as what the page does on each act of the guest
--   and each answer, with the lemmas in Known and Events.
-- Examples: the theorems at concrete worlds.
--
-- Concurrency: a handler takes as an argument what other requests commit at each of its awaits that
-- matters, as a function on the world, and the theorems hold for every such function. A transaction
-- that only writes rows that its conditional updates have locked is one step.
--
-- Bounds: identifiers are numbers that are only compared; instants are whole signed milliseconds;
-- minutes are whole numbers, NaN or an infinity; one request reads the clock once. No fuel is
-- needed: a loop is a recursion on a list, and the loop of the Claude engine on the rounds left, of
-- which the source allows six.
--
-- Not modelled: the row-level security policies, which only hide rows of other restaurants from
-- queries that name the restaurant already; the human-readable message of an exception beside its
-- reason; logging; the development dialogue engine, which works by regular expressions; the
-- memberships of a user; the cache of time zones; the server actions and route handlers of the two web
-- applications, which pass requests on to the API; their rendering; a connection that is lost, so a
-- write to the log of notifications does not fail but by its unique constraint; and the `TypeError`
-- of a kitchen ticket without a table or an arrival time, which the model shows as missing.
pub mod Prelude
pub mod Store
pub mod Schema
pub mod World
pub mod Visits
pub mod Timing
pub mod MenuItems
pub mod Kitchen
mod Examples
pub mod Realtime
pub mod Auth
pub mod Reassignment
pub mod Intake
pub mod Panel
pub mod Chat
pub mod Dashboard
pub mod Floor
pub mod Http
pub mod Notifications
