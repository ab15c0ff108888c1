-- ===== src/WebApp/Server/Redemptions.antt =====
-- How often the login codes of internal/appliancewebapp/webapp.go are consumed, when requests interleave.
use appliance_registry.Prelude.{ℕ, ◌+◌, ◌≤◌, Text, arith}
use appliance_registry.External.{External, Backend}
use appliance_registry.Program.LoginCodes.{on_file, taken, issued, taken-le}
use appliance_registry.WebApp.{WebApp}
use appliance_registry.WebApp.Server.Interleaving.{
  System, Step, arrives, advances, leaves, Reach, here, step,
}

module _ {b : Backend} (x : External) (app : WebApp) (hash : Text) where
  abbrev taken_in : {s t : System b} → Step x app s t → ℕ
  taken_in (arrives r w ms) = 0
  taken_in (advances before after o k w ms e) = taken hash o w
  taken_in (leaves before after m w ms e) = 0

  abbrev issued_in : {s t : System b} → Step x app s t → ℕ
  issued_in (arrives r w ms) = 0
  issued_in (advances before after o k w ms e) = issued hash o
  issued_in (leaves before after m w ms e) = 0

  -- The calls on the way that take a code with the hash, and those that put one on file or try to.
  abbrev pub redemptions : {s t : System b} → Reach x app s t → ℕ
  redemptions (here s) = 0
  redemptions (step s t u one rest) = taken_in one + redemptions rest

  abbrev pub issues : {s t : System b} → Reach x app s t → ℕ
  issues (here s) = 0
  issues (step s t u one rest) = issued_in one + issues rest

  taken_in-le :
      {s t : System b} (one : Step x app s t)
      → taken_in one + on_file hash t.world.db ≤ issued_in one + on_file hash s.world.db
  taken_in-le (arrives r w ms) = omega arith
  taken_in-le (advances before after o k w ms e) = taken-le hash o w
  taken_in-le (leaves before after m w ms e) = omega arith

  -- However the calls of requests interleave and fail, and from any state of the server: the times
  -- that a login code is consumed, and the one time that it can be consumed still, are at most the
  -- times that it was issued, and the one time that it could be consumed at first.
  pub redemptions-le :
      {s t : System b} (r : Reach x app s t)
      → redemptions r + on_file hash t.world.db ≤ issues r + on_file hash s.world.db
  redemptions-le (here s) = omega arith
  redemptions-le (step s t u one rest) =
      let h = taken_in-le one in let ih = redemptions-le rest in omega (arith, h, ih)
