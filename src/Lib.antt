-- ===== src/Lib.antt =====
-- A model of the Rust services of the repository and proofs about it. The identity service
-- (services/identity) keeps accounts in PostgreSQL, signs tokens and writes events to an outbox
-- table; its publisher carries the events to Kafka; the gateway (services/gateway) and the web
-- front end (services/web) stand before it.
--
-- Prelude holds what all files share: Boolean tests and list helpers over the native numbers, the
-- result type with its do blocks, and the parts of Rust's `str` that the services use.
--
-- Effect is the model of a handler: a function from the content of the database and a count of
-- calls to a result and the new content. An environment answers every call by its number: it says
-- which call to the database or the pool fails, what the clock shows, which ids and random bytes
-- come. A transaction that fails, in a statement or in its
-- commit, gives back the content that it began with; a commit that takes effect and whose answer is
-- then lost is not in the model, nor are other clients between the calls of a handler.
--
-- Crypto (services/identity/src/crypto): Keys is jwk.rs, Jwt is jwt.rs, Tokens is token.rs and
-- password.rs, Encryption is encryption.rs, Kek is kek.rs, Fips
-- is password_fips.rs. Primitives lists what base64ct, aws-lc-rs, serde_json,
-- the password hashers and uuid offer; they are a parameter, and their documented laws are named
-- hypotheses where a theorem needs them. Unsigned 64-bit sums wrap around.
--
-- Identity (services/identity/src/services): Validation is validation.rs; Accounts has the rows of
-- the tables of services/identity/migrations, and Tables the SQL statements on them with the primary
-- keys, unique indexes and foreign keys. The order of the checks of several unique indexes is that
-- of the migrations. Service has the helpers of mod.rs. SignUp, VerifyEmail, ResendVerification,
-- UpdateProfile (with user_info.rs), UpdatePassword and Login are the handlers, one file each, whose
-- `execute` is the handler of that name. SigningKeys has the keys of mod.rs and get_jwks.rs, Auth is
-- auth.rs; SigningKeys/Soundness and Login/Signing carry what LoggedIn in Auth needs of the keys and
-- of the login. Grpc has the methods of `IdentityServiceImpl` in mod.rs and Grpc/Statuses the status of each
-- error; Grpc/Serving is the relation of all that can happen to the tables. Tables/Consistency says
-- what the keys, the unique indexes and the foreign keys mean, and Consistency goes through the
-- handlers.
--
-- Outbox is services/identity/src/outbox: one round of the publisher is a function of the answers
-- of the lock, the database and Kafka in that round, and the loop is a list of rounds. A call of
-- Kafka may deliver and lose the answer.
--
-- Gateway is services/gateway/src: Tokens and Sessions are session.rs
-- (Sessions/Startup has `connect` and `create_schema`), with the table of ScyllaDB as a
-- list of rows that age; Cookies is the cookie of routes/session.rs; Errors is routes/error.rs; Routes
-- has the routes of routes/auth.rs and the session of a request of routes/session.rs. The identity
-- service is a record of methods there, which the methods of Identity/Grpc can fill; its state lies
-- beside the sessions. The connection, a request and an answer can each be lost. Times that a column
-- keeps are cut to milliseconds. A token that is no
-- metadata value ends a handler with a panic. Router is routes/mod.rs and routes/health.rs around any
-- handlers of the routes; Router/Paths describes the routes one by one.
-- Channel is pool.rs as a relation of steps of concurrent tasks.
--
-- Web/Proxy is services/web/src/proxy.rs: what the proxy hands to its client for the gateway and the
-- answer that it gives. The client is a parameter: it parses and normalises the text of the address,
-- and its middleware adds tracing headers. The header types of the crates are a parameter too.
--
-- Examples has a small instance of every parameter and runs of the code on it.
--
-- Texts are Unicode, and their length is counted in bytes of UTF-8. Timestamps are whole microseconds
-- since the epoch, ids are numbers. No function needs fuel: all loops are over lists.
--
-- Not modelled: the decoding of HTTP bodies, the pages of the web front end, the start of the
-- services, configuration, telemetry and TLS; the email service (TypeScript), the sample services in
-- C# and Java, and the infrastructure.
pub mod Prelude
pub mod Effect
pub mod Crypto
pub mod Identity
pub mod Outbox
pub mod Gateway
pub mod Web
pub mod Examples
