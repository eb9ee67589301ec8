-- ===== src/Lib.antt =====
-- A model of the management plane loxilb-oam, in the parts that decide what may happen: the access
-- policy of the gateway proxy, the endpoints kept from load-balancer rules, the lifecycle of
-- whole-Appliance operations with the signatures between OAM and the host adapter and the adapter's
-- stand-in, the migrations of the schema, and the administration of users.
--
-- The program. OAM stands between users and two things that act on their behalf. The gateway proxy
-- forwards a request to the gateway under OAM's own identity, so the gate in front of it
-- (internal/middleware/rbac.go) is where a user's role counts; it judges the canonical form of the
-- path (internal/services/gateway_path.go), which is also what is forwarded. The Appliance service
-- (internal/appliance) plans, authorizes, submits, follows and cancels operations that a host
-- adapter carries out. It keeps three tables: operations, challenges and an audit trail. The adapter
-- keeps a journal, and a stored operation follows it by generation.
--
-- The files.
--   Prelude    tests on numbers, lists, byte strings, results: what all the others share.
--   Strings    Go's string functions on bytes: prefixes, strings.Split and Join, UTF-8.
--   Rbac       internal/models/roles.go, internal/middleware/rbac.go: roles, the capability matrix,
--              resolveCaller, RequireCapability.
--   Gateway    Path: CanonicalGatewayPath and gatewayTargetURL. Classify: ClassifyGatewayRequest.
--              Access: RequireGatewayAccess.
--   Appliance  Contract, Operation, Request: contract.go and operation.go. Host: host.go from the
--              response on. Store: the tables with their constraints (Row), the world and its
--              transactions (World), the statements (Statements). Caller: the caller, and the
--              entries of audit.go. Planning: operation_service.go and operation_store.go.
--              Lifecycle: lifecycle.go, as Journal (applyJob, finishWithoutHost, load), Authorization
--              (Authorize, consumeChallenge), Submission (Submit, deliver), Reconciler and
--              Cancellation. Listing: ListOperations. Capabilities: Capabilities of service.go.
--              Evolution: what every operation may do to the tables. HostCalls: what it may ask
--              the adapter.
--              HostAuth: hostauth.go, signing and verification. HostFixture: the stand-in for the
--              adapter (hostfixture/jobs.go, fixture.go), as Serving (the handlers), Plans, and what is
--              proved of it in Contract, Journal, Answers, Once and Ending.
--   Migrate    internal/migrate/migrate.go: Load, pending (Migrate, Pending), the database and its
--              statements (Session), Run in its modes and Current (Run).
--   Users      internal/services/user_service.go: Rules (validatePassword), Accounts (UpdateUser,
--              DeleteUser, CreateUserWithRole, tokens), Login (ValidateUser), Lockout
--              (failed logins); Passwords: the stored form of a password (pkg/utils/password.go).
--   Reserved   internal/config/reserved.go: MatchReservedEndpoint, on parsed addresses.
--   Examples   the theorems at concrete inputs.
--
-- How the code corresponds. A Go string is its list of bytes. A function of the service is an action
-- on a World: the tables, the database clock in seconds, the state of the connection, which
-- statements to come will fail, what other sessions commit, what the adapter will answer, and the
-- calls that it was sent. An SQL statement is a function on rows: an update counts the rows it
-- selects and is refused, with nothing changed, if it would break the index of one active operation
-- per installation. Before a statement outside a transaction, and before a transaction, time passes
-- and other sessions commit; inside one they do not, which is stronger than the isolation level that
-- PostgreSQL gives by default where a transaction reads rows that it has not locked. In a
-- transaction a failed statement makes every later one fail, and the commit. A commit that fails is
-- taken to have committed nothing. Errors that the code only logs are dropped at the same places.
--
-- The migrations and the users have worlds of their own, of the same kind: the tables, a clock, and
-- which statements to come will fail; a transaction that fails, in its commit too, leaves nothing. No
-- other session acts in between: the advisory lock keeps other runs of the migrations out, and the
-- lock on the table of users keeps other writes out of a transaction that counts administrators. The
-- host fixture's maps are functions, and a handler is one step, as its mutex makes it.
--
-- Parameters, for what is not under the repository: SHA-256 and the JSON of a list of strings
-- (Digest), the look-up of a user by name, the random identifier and challenge, the result of
-- url.Parse and of net.ParseIP, the response of the adapter with its body decoded, HMAC (Crypto),
-- what a migration's script does to the rest of the schema (Engine), the listing of the directory of
-- migrations, and Go's decoding and classes of runes (Unicode). The user service takes the password
-- hash as an interface (Hashing), which Passwords fills, by the parameters PBKDF2, base64 and
-- bcrypt (Kdf). Generations are natural numbers: checkJob refuses those below 1. JSON columns are
-- held decoded, so a column that does not decode is not modelled. strings.ToLower lowers the ASCII
-- letters.
--
-- Loops and recursion are structural, on the rows, the requests and the bytes of a string. Three
-- loops count rounds: format_digits runs on fuel, of which a number has enough in its successor; the
-- loop of catchUp runs at most as many rounds as the script has steps, which is enough; and the loop
-- that doubles the lockout runs on its own counter.
--
-- Not modelled: HTTP handlers, routes and start-up, the socket, JWTs and the rest of the user
-- service, snapshots, instance registration, alerts and logs, rate limiting, and the
-- ticker around a round of the reconciler.
pub mod Prelude
pub mod Strings
pub mod Rbac
pub mod Gateway
pub mod Appliance
pub mod Reserved
pub mod Migrate
pub mod Users
pub mod Examples
