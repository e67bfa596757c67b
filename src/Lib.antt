-- ===== src/Lib.antt =====
-- acme-gateway: an ACMEv2 server that routes its clients' orders to upstream certificate authorities.
--
-- The program and its model. A client's request carries a nonce and a signature; the server
-- (internal/server) checks both, routes a new order by its profile, key type and names
-- (internal/router, after the validated internal/config), sends it with the client of an upstream CA
-- that a pool hands out (internal/upstream), and keeps accounts, orders and the mapping from upstream
-- URLs to its own ids in SQLite (internal/store).
--
--   Prelude      numbers, lists, tables of rows, text, results and the tests the other parts share
--   Model        internal/model/types.go
--   Config       internal/config/config.go: the records and their defaults; Validate is `validate`
--   Store        internal/store: Db the tables; Nonces, Accounts, Orders, Resources the files of these
--                names; Integrity what the schema's keys promise of all writes together
--   Router       internal/router/router.go
--   Upstream     internal/upstream: Types the objects; NonceRing the ring buffer of getNonce and
--                saveNonce; SignedPost the retry loop of signedPostWithHeaders; Account is Register;
--                Orders and Links are order.go; Pool is pool.go
--   Server       internal/server: Errors and Challenges are the problem documents and the challenge
--                records of handlers.go; Requests is jws.go and the helpers of handlers.go that
--                authenticate a request; Dns is dns_policy.go, with Propagation for the wait; World
--                is the state of the handlers and the steps they are made of; Handlers has a child
--                for each group of handlers; Routes is buildRouter of server.go
--   Tests        each property at a concrete input
--
-- A definition has the name of its Go function in snake case. State is passed explicitly: an operation
-- of the store or the pool takes the state last and gives back a pair of its result and the new state.
-- A Go pair of a value and an error is a Result, whose error is the message. What the code calls but
-- does not contain is a parameter: each statement of the store takes the failure that the database
-- reports for it, if any; the pool and the client take a record of the network, key and clock
-- functions they use; the resolver is a function from names to answers.
--
-- The handlers. A handler is a block of steps on a World: the tables, the pool, the challenge
-- records, and a log of what is sent upstream. A step ends in a value or in the problem that the
-- handler writes and returns. Each use of the outside takes the next number, and the Gateway says
-- what it gives under that number: the time, a UUID, a database failure, the answer of an upstream
-- call. So the theorems hold for all answers, those of Upstream/Orders among them. A handler runs to
-- its end before the next; the nonce ring of an upstream client is not followed from call to call.
-- Where the code reads a field of a nil account it panics: the model ends there in a serverInternal
-- problem.
--
-- Bounds. Numbers are natural numbers; negative slots and percentages are integers written with pos
-- and negsuc. No arithmetic of the modelled code comes near 2 ^ 63: times are nanoseconds of
-- this century and counters are small. Text is ASCII where Go's strings functions fold case.
-- Loops are structural but for two. The retry loop runs on its own count of three attempts. The
-- propagation wait runs on fuel: each round reads the clock, readings grow, and so as many rounds as
-- the timeout has nanoseconds, and one, reach the deadline. Following aliases is limited by the code
-- itself, to ten lookups.
--
-- Not modelled: HTTP, JSON, cryptography and the SQL engine, which are libraries; the background
-- worker of a challenge, with its hook scripts and cleanup; the directory and health routes; the
-- pool's mutexes, whose effect, that operations run one after another, is assumed; the bootstrap of
-- the gateway's own certificate, the command line programs, migrations, deployment and packaging.
mod Prelude
pub mod Model
pub mod Config
pub mod Store
pub mod Router
pub mod Upstream
pub mod Server
mod Tests
