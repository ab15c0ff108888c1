-- ===== src/WebApp/Server/History.antt =====
-- internal/appliancewebapp/webapp.go: what stays true of an appliance while further requests are served,
-- one after another.
use appliance_registry.Prelude.{ℕ, ◌≤◌, ◌≡◌, ◌≢◌, ok, Text, arith, List, [], ◌∷◌, pair_eq}
use appliance_registry.External.{External, Backend}
use appliance_registry.Persistence.{Appliance}
use appliance_registry.World.{World}
use appliance_registry.Program.Run.{run}
use appliance_registry.WebApp.{WebApp, authenticate_appliance}
use appliance_registry.WebApp.Outcomes.{authenticate_appliance-eq-ok}
use appliance_registry.WebApp.Rotation.{revoke}
use appliance_registry.WebApp.Rotation.Revocation.{revoke-Revoked}
use appliance_registry.WebApp.Server.{Request, serve, serve_all}
use appliance_registry.World.Lifecycle.{AtLeast, stage}
use appliance_registry.WebApp.Server.Forward.{IsForward-serve}

module _ {b : Backend} (x : External) (app : WebApp) where
  AtLeast-serve_all :
      (n id : ℕ) (rs : List Request) (w : World b)
      → AtLeast n id w.db
      → AtLeast n id (serve_all x app rs w).db
  unfolding serve_all
  AtLeast-serve_all n id [] w h = h
  AtLeast-serve_all n id (r ∷ rs) w h =
      let f = IsForward-serve x app {n = n} {id = id} r in
      AtLeast-serve_all n id rs (run (serve x app r) w).1 (f.keeps w h)

  -- Requests that are served one after another, with any failures, bring each appliance only forward in
  -- the order absent, pending, active, revoked.
  pub stage-le-serve_all :
      (id : ℕ) (rs : List Request) (w : World b)
      → stage id w.db ≤ stage id (serve_all x app rs w).db
  stage-le-serve_all id rs w =
      let h = AtLeast-serve_all (stage id w.db) id rs w (record { bound = omega arith }) in h.bound

  -- Once a revocation of an appliance has succeeded, and whatever requests have been served since, one
  -- after another and with any failures, the appliance does not authenticate, whatever header it sends.
  pub revoke_then_authenticate :
      (authorization : Text) (id : ℕ) (w : World b) {w' : World b}
      → run (revoke x app authorization id) w ≡ (ok tt, w')
      → (rs : List Request) (header : Text) (a : Appliance)
      → (run (authenticate_appliance x app id header) (serve_all x app rs w')).0 ≢ ok a
  revoke_then_authenticate authorization id w {w'} h rs header a e =
      let r = revoke-Revoked x app authorization id w h in
      let before = r.caller.its_row in
      let gone : 3 ≤ stage id w'.db = ground (arith, r.rows id) in
      let still = (AtLeast-serve_all 3 id rs w' (record { bound = gone })).bound in
      let (who, s) =
        authenticate_appliance-eq-ok x app id header (serve_all x app rs w') (pair_eq _ e) in
      let row = who.its_row in let live = who.is_active in ground arith
