-- ===== src/World.antt =====
-- The state that the program acts on: the tables of migrations/, the cluster's Secrets, the clock, and
-- what the environment will answer to the calls to come.
pub mod Statements
pub mod Codes
pub mod Rows
pub mod Invariants
pub mod Lifecycle
pub mod Keys
pub mod Consistency
pub mod Owners
pub mod References
pub mod Integrity
pub mod Labels
use appliance_registry.Prelude.{ℕ, Bool, Option, List, Text}
use appliance_registry.External.{Backend}
use appliance_registry.Persistence.{Appliance, ClaimToken, EnrollExchangeCode, LoginCode}

-- A row of `appliances`: what the program reads as an Appliance, and the secretHash of V003.sql.
pub record Row : Type 0 where
  pub appliance : Appliance
  pub open appliance use *
  pub secret_hash : Option Text

pub record Database : Type 0 where
  pub appliances : List Row
  pub next_id : ℕ
  pub claim_tokens : List ClaimToken
  pub exchange_codes : List EnrollExchangeCode
  pub login_codes : List LoginCode

-- What becomes of a call to the database or to the API server: it is carried out, or it fails and
-- leaves no effect, or it is carried out and its answer is lost.
pub data Fault : Type 0 where
  passes refused unacknowledged : Fault

-- `ticks` are the times that pass before each reading of the clock, `entropy` the results of
-- rand.Read, `replies` those of the HTTP client (a status code and a body, by the URL and the
-- Authorization header of the request), `permits` those of the rate limiter. A list that has run out stands for calls that pass, for a clock that stands still,
-- and for random reads, HTTP calls and permits that fail.
pub record World (b : Backend) : Type 0 where
  pub db : Database
  pub open db use *
  pub cluster : b.Cluster
  pub faults : List Fault
  pub clock : ℕ
  pub ticks : List ℕ
  pub entropy : List (Option (List ℕ))
  pub replies : List (Text → Text → Option (ℕ × Text))
  pub permits : List Bool
