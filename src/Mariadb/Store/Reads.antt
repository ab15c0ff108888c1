-- ===== src/Mariadb/Store/Reads.antt =====
-- internal/persistence/mariadb/mariadb.go: the methods that read, against their promises.
use appliance_registry.Prelude.{ℕ, ◌+◌, ◌≡◌, [], Result, arith}
use appliance_registry.External.{Backend}
use appliance_registry.Persistence.{DbError}
use appliance_registry.World.{World}
use appliance_registry.World.Statements
use appliance_registry.World.Codes
use appliance_registry.Program.{◌>>=◌}
use appliance_registry.Program.Run.{run, perform, tick}
use appliance_registry.Mariadb
use appliance_registry.Mariadb.Store.{
  Store, view, exec, spec, Method, get_appliance, get_claim_token, get_enroll_exchange_code,
  get_appliance_secret_hash,
}

module _ {b : Backend} where
  -- What is seen of a call: its result, and the tables as maps.
  abbrev pub observe : {A : Type 0} → Result DbError A × World b → Result DbError A × Store
  observe (r, w) = (r, view w.db)

  -- A method does on the tables what its promise does on the maps.
  abbrev pub Refines : Method → World b → Type 0
  Refines m w =
      observe (run (exec m) w) ≡ spec b.column_time w.clock (w.clock + tick w.ticks) m (view w.db)

  module _ (w : World b) (calm : w.faults ≡ []) where
    pub get_appliance-Refines : (id : ℕ) → Refines (get_appliance id) w
    unfolding run perform Mariadb.get_appliance Statements.select_appliance
    get_appliance-Refines id = ground (arith, calm)

    pub get_claim_token-Refines : (id : ℕ) → Refines (get_claim_token id) w
    unfolding run perform Mariadb.get_claim_token Codes.select_claim_token
    get_claim_token-Refines id = ground (arith, calm)

    pub get_enroll_exchange_code-Refines : (id : ℕ) → Refines (get_enroll_exchange_code id) w
    unfolding run perform Mariadb.get_enroll_exchange_code Codes.select_exchange_code
    get_enroll_exchange_code-Refines id = ground (arith, calm)

    pub get_appliance_secret_hash-Refines : (id : ℕ) → Refines (get_appliance_secret_hash id) w
    unfolding run perform Mariadb.get_appliance_secret_hash Statements.select_secret_hash ◌>>=◌
    get_appliance_secret_hash-Refines id = ground (arith, calm)
