-- ===== src/WebApp/Server/Once.antt =====
-- internal/appliancewebapp/webapp.go: the requests that come after one that has claimed an appliance.
use appliance_registry.Prelude.{
  pair_eq, ℕ, ◌≡◌, ◌≢◌, ok, Text, arith, List, [], ◌∷◌, some, inl, inr, Option-cases, true,
}
use appliance_registry.External.{External, Backend}
use appliance_registry.Persistence.{Appliance, pending}
use appliance_registry.World.{World, Database}
use appliance_registry.World.Statements.{row_of}
use appliance_registry.World.Rows.{appliance_of}
use appliance_registry.Tokens.{hash_secret}
use appliance_registry.WebApp.Claiming.Activation.{activated_row}
use appliance_registry.RestModels.{ClaimApplianceResponse}
use appliance_registry.Program.Run.{run}
use appliance_registry.Program.Invariants.{run-keeps}
use appliance_registry.WebApp.{WebApp}
use appliance_registry.WebApp.Claiming.{claim, enroll_redeem}
use appliance_registry.WebApp.Claiming.Outcomes.{Claimed, claim-Claimed, enroll_redeem-Claimed}
use appliance_registry.WebApp.Server.{Request, serve, serve_all}
use appliance_registry.WebApp.Server.Footprint.{Quiet-serve}
use appliance_registry.World.Lifecycle.{IsSettled, Kept-AtLeast}

settled-not-pending :
    (id : ℕ) (db : Database) {a : Appliance}
    → IsSettled id db
    → appliance_of id db ≡ some a
    → a.status ≡ pending
    → ⊥
settled-not-pending id db s e p = let far = s.bound in ground arith

module _ {b : Backend} (x : External) (app : WebApp) where
  Claimed-IsSettled :
      (w : World b) (id : ℕ) {resp : ClaimApplianceResponse} {w' : World b}
      → Claimed x app w id resp w'
      → IsSettled id w'.db
  Claimed-IsSettled w id {resp} {w'} c = elim (Option-cases (row_of id w.db)) [
    | inl gone ↦ let row = c.its_row in ground arith
    | inr (r, there) ↦
        let hash = hash_secret x resp.appliance_secret in
        let new : row_of id w'.db ≡ some (activated_row hash c.claimed_at r) =
          ground (arith, c.rows id) in
        record { bound = ground arith }
  ]

  IsSettled-serve_all :
      (id : ℕ) (rs : List Request) (w : World b)
      → IsSettled id w.db
      → IsSettled id (serve_all x app rs w).db
  unfolding serve_all
  IsSettled-serve_all id [] w h = h
  IsSettled-serve_all id (r ∷ rs) w h = IsSettled-serve_all id rs (run (serve x app r) w).1 (
      run-keeps (IsSettled id) (Kept-AtLeast 2 id true (λ _. omega arith)) (Quiet-serve x app r) w
        h)

  -- Once a claim of an appliance has succeeded, and whatever requests have been served since, one
  -- after another and with any failures, no claim and no redemption of an exchange code for that
  -- appliance succeeds, whatever token it presents.
  claim_once :
      (authorization : Text) (id : ℕ) (w : World b) {resp : ClaimApplianceResponse} {w' : World b}
      → run (claim x app authorization id) w ≡ (ok resp, w')
      → (rs : List Request) (again : Text) (resp' : ClaimApplianceResponse)
      → ((run (claim x app again id) (serve_all x app rs w')).0 ≢ ok resp')
        × ((run (enroll_redeem x app again id) (serve_all x app rs w')).0 ≢ ok resp')
  claim_once authorization id w {w' = w'} h rs again resp' =
      let first = (claim-Claimed x app authorization id w h).1 in
      let settled = IsSettled-serve_all id rs w' (Claimed-IsSettled w id first) in
      let now = serve_all x app rs w' in
      (
        λ e.
            let second = (claim-Claimed x app again id now (pair_eq _ e)).1 in
            settled-not-pending id now.db settled second.its_row second.was_pending,
        λ e.
            let second = (enroll_redeem-Claimed x app again id now (pair_eq _ e)).1 in
            settled-not-pending id now.db settled second.its_row second.was_pending,
      )
