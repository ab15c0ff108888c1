-- ===== src/WebApp/Login/Checking.antt =====
-- internal/appliancewebapp/webapp.go: what the answer of CheckAccess rests on.
use appliance_registry.Prelude.{ℕ, ◌≡◌, refl, ◌∙◌, arith, Text, ok}
use appliance_registry.External.{External, Backend}
use appliance_registry.Persistence.{Appliance}
use appliance_registry.World.{World}
use appliance_registry.UserRegistry.Access.{Access}
use appliance_registry.RestModels.{ApplianceAccessResponse}
use appliance_registry.Program.Run.{run}
use appliance_registry.Program.Rules.{after_ok, after_ret, after_handled}
use appliance_registry.WebApp.{WebApp}
use appliance_registry.WebApp.Outcomes.{Authenticated, authenticate_appliance-eq-ok}
use appliance_registry.WebApp.Login.{check_access}
use appliance_registry.WebApp.Login.Outcomes.{Answered, get_group_member-eq-ok}

module _ {b : Backend} (x : External) (app : WebApp) where
  -- The appliance has authenticated, and the user registry has answered about its group and the user.
  pub record AccessKnown (w : World b) (authorization : Text) (id user_id : ℕ)
      (resp : ApplianceAccessResponse) (w' : World b) : Type 0 where
    pub appliance : Appliance
    pub authenticated : Authenticated x app w id authorization appliance
    pub access : Access
    pub answer : Answered x app w appliance.group_id user_id access
    pub verdict : resp.allowed ≡ access.is_member
    pub same_db : w'.db ≡ w.db

  -- Whatever fails or passes, CheckAccess answers only an appliance that is active and presents its
  -- secret, and only from a body that the user registry sends with the status 200 when it is asked about
  -- the appliance's group and the user of the request: it allows exactly what that body allows, and
  -- changes no table.
  pub check_access-AccessKnown :
      (authorization : Text) (id user_id : ℕ) (w : World b) {resp : ApplianceAccessResponse}
      {w' : World b}
      → run (check_access x app authorization id user_id) w ≡ (ok resp, w')
      → AccessKnown w authorization id user_id resp w'
  unfolding check_access
  check_access-AccessKnown authorization id user_id w h = after_ok _ _ _ h λ a w₁ auth h₁.
      after_handled _ _ _ _ h₁ (λ e. tt)
        λ access w₂ asked h₂.
          let (who, s) = authenticate_appliance-eq-ok x app id authorization w auth in
          let (known, t) = get_group_member-eq-ok x app a.group_id user_id w₁ asked in
          let answer = known.answer in
          let replies = s.same_replies in
          after_ret (AccessKnown w authorization id user_id) (record { allowed = access.is_member })
            w₂ h₂
            (record {
              appliance = a;
              authenticated = who;
              access = access;
              answer = record { body = known.body; answer = ground arith; decoded = known.decoded };
              verdict = refl;
              same_db = t ∙ s.same_db;
            })
