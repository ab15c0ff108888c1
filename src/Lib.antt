-- ===== src/Lib.antt =====
-- The appliance registry as a model: the service behind main.go, with its tables, its Secrets and the
-- calls between them.
--
-- How the program goes together. A request comes to a handler of internal/appliancewebapp. The handler
-- checks a bearer token (internal/tokens), reads and writes the tables (internal/persistence/mariadb),
-- publishes an appliance's secret in the cluster (internal/k8ssecrets), names a new appliance
-- (internal/hostnames) and asks for memberships (internal/userregistry). A handler is here a program
-- of single calls, each followed by what the code does with the answer; `run` carries out a program
-- alone, and WebApp.Server.Interleaving lets the calls of many requests alternate.
--
-- Which module models what:
--   Persistence: the records of internal/persistence/persistence.go.
--   World: the tables of migrations/, the cluster, the clock, and the answers to come; World.Statements
--     and World.Codes are the SQL statements, World.Rows and World.Invariants lemmas on them.
--     World.Lifecycle is the order of an appliance's statuses. World.Keys, World.Consistency,
--     World.Owners, World.References and World.Integrity are the primary keys, UNIQUE keys and foreign
--     keys of the tables, and World.Labels what the UNIQUE key gives.
--   Program: programs of calls, with Run (what each call does), Rules (results and errors of a
--     sequence), Success (results that are there), Ends (errors that are not), Steps (how many calls),
--     Footprint and Invariants (what all calls keep), LoginCodes (what each call does to a login code).
--   Mariadb: the methods of internal/persistence/mariadb/mariadb.go, by name (CreateAppliance is
--     create_appliance; DeleteClaimToken is delete_claim_token_of). Mariadb.Store has what
--     ApplianceRegistryDB promises, on maps, but for the two methods that list appliances, and where
--     the methods keep it.
--   Text: what is used of the packages strings, strconv, regexp and encoding/hex, on code points.
--   Clock: time.Duration and time.Time, as far as they are used.
--   Config: internal/config/config.go: the records, Validate, and the keys and defaults of init.
--   Startup: main.go up to the listener, with NewMariadbPersistence's data source name,
--     NewSecretWriter and NewWebApp.
--   Tokens, Hostnames, K8sSecrets, UserRegistry: the packages of these names under internal/. The
--     three hash functions of tokens have one body, hash_secret, and so have the two that generate a
--     token, generate_token.
--   RestModels: restmodels/appliance.go.
--   WebApp: internal/appliancewebapp/webapp.go. Registration has Register and Enroll, Claiming has
--     Claim and EnrollRedeem, Rotation has Revoke, RotateSecret and RotateOwnSecret, Login has
--     CreateLoginCode, RedeemLoginCode and CheckAccess, Listing has ListAppliances and
--     PluginGetParams. Their child modules say how the handlers end; those named Success are about
--     runs in which no call fails. Server has the routes of main.go; under it, Footprint says which
--     calls each request makes and Steps how many, Errors how a request ends where no call fails, and
--     Forward, History, Once, Interleaving, Addresses, Calls and Redemptions what requests do together;
--     Among, Claims and Revocations follow one request between whose calls others make theirs.
--   External: what is not in the repository, as parameters: the check of a use token, SHA-256,
--     unicode.ToLower above ASCII, the JSON decoder, the API server's store of Secrets with the laws of
--     a map, the rounding of a TIMESTAMP column and the collation of the status column. In Config and
--     Startup: what viper finds for a key and the decoding of an int, the driver's and client-go's
--     answers, the loading of the public key.
--   Tests: runs at concrete inputs.
--
-- Faults. Each call to the database or the API server passes, or fails without effect, or fails with
-- its effect done and its answer lost. Times are natural numbers, nanoseconds of a clock that does
-- not go back; a duration and an int of the settings are 64-bit patterns.
--
-- Bounds. `decimal` counts digits with the fuel n + 1, and n has at most that many. The loop of
-- createApplianceWithRetry recurses on the attempts that are left, of the 5 of the code.
--
-- Not modelled: internal/logging and the log lines, viper itself, the listener and the router, the
-- validation by huma and the JSON tags, contexts and their cancellation (a request may stop at any
-- call instead), names that are not valid UTF-8, identifiers that are
-- negative, and the gap that a failed INSERT leaves in the ids.
mod Prelude
pub mod Persistence
pub mod External
pub mod World
pub mod Program
pub mod UserRegistry
pub mod Text
pub mod Clock
pub mod Config
pub mod Startup
pub mod Tokens
pub mod Hostnames
pub mod Mariadb
pub mod K8sSecrets
pub mod RestModels
pub mod WebApp
mod Tests
