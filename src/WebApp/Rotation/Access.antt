-- ===== src/WebApp/Rotation/Access.antt =====
-- internal/appliancewebapp/webapp.go: authenticateAppliance after RotateSecret.
use appliance_registry.Prelude.{pair_eq, ℕ, ◌≡◌, ◌≢◌, refl, some, Text, ok, arith}
use appliance_registry.External.{External, Backend}
use appliance_registry.Persistence.{Appliance}
use appliance_registry.World.{World}
use appliance_registry.World.Statements.{set_hash}
use appliance_registry.World.Rows.{row_of-amend}
use appliance_registry.Tokens.{bearer_token, hash_secret}
use appliance_registry.RestModels.{ClaimApplianceResponse}
use appliance_registry.Program.Run.{run}
use appliance_registry.WebApp.{WebApp, authenticate_appliance}
use appliance_registry.WebApp.Outcomes.{authenticate_appliance-eq-ok}
use appliance_registry.WebApp.Rotation.{rotate_secret}
use appliance_registry.WebApp.Rotation.Outcomes.{rotate_secret-Rotated}

module _ {b : Backend} (x : External) (app : WebApp) where
  -- Right after a rotation by a user that succeeds, whatever fails, only a secret with the hash of the
  -- new one authenticates the appliance.
  pub rotate_then_authenticate :
      (authorization : Text) (id : ℕ) (w : World b) {resp : ClaimApplianceResponse} {w' : World b}
      → run (rotate_secret x app authorization id) w ≡ (ok resp, w')
      → (header secret : Text) → bearer_token header ≡ some secret
      → hash_secret x secret ≢ hash_secret x resp.appliance_secret
      → (a : Appliance) → (run (authenticate_appliance x app id header) w').0 ≢ ok a
  rotate_then_authenticate authorization id w {resp} {w'} h header secret bearer differ a e =
      let r = rotate_secret-Rotated x app authorization id w h in
      let (who, s) = authenticate_appliance-eq-ok x app id header w' (pair_eq _ e) in
      let known = who.known in
      let presented = who.presented in
      let row = r.0.0.its_row in
      let new = r.1.new_db in
      let there =
        row_of-amend (set_hash (some (hash_secret x resp.appliance_secret))) id id w.db
          (λ t. refl) in
      ground arith
