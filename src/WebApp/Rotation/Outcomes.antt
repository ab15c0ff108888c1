-- ===== src/WebApp/Rotation/Outcomes.antt =====
-- internal/appliancewebapp/webapp.go: what a successful Revoke, RotateSecret and RotateOwnSecret
-- require and do.
use appliance_registry.Prelude.{ℕ, ◌≡◌, refl, sym, subst, some, Text, ok, arith, amend}
use mathlib.Core.Path.{subst₃}
use appliance_registry.External.{External, Backend, Identity}
use appliance_registry.Persistence.{Appliance, active}
use appliance_registry.World.{World}
use appliance_registry.World.Statements.{has_id, set_hash}
use appliance_registry.World.Rows.{appliance_of, appliance_of-id}
use appliance_registry.Mariadb.Results.{SameStores}
use appliance_registry.Tokens.{hash_secret}
use appliance_registry.K8sSecrets.Results.{Published}
use appliance_registry.RestModels.{ClaimApplianceResponse}
use appliance_registry.Program.Run.{run}
use appliance_registry.Program.Rules.{after_ok, after_ret}
use appliance_registry.WebApp.{WebApp}
use appliance_registry.WebApp.Outcomes.{
  after_guard, Authenticated, authenticate_appliance-eq-ok, use_token-eq-ok,
  require_owning_group-eq-ok,
}
use appliance_registry.WebApp.Claiming.{claim_response}
use appliance_registry.WebApp.Claiming.Publishing.{publish_secret-eq-ok}
use appliance_registry.WebApp.Rotation.{issue_new_secret, rotate_secret, rotate_own_secret}

module _ {b : Backend} (x : External) (app : WebApp) where
  -- The one change to the tables is the appliance's new hash, and the Secret has the new value.
  pub record Rotated (w : World b) (id : ℕ) (resp : ClaimApplianceResponse) (w' : World b)
      : Type 0 where
    pub new_db : w'.db ≡ record w.db {
      appliances =
          amend (has_id id) (set_hash (some (hash_secret x resp.appliance_secret))) w.db.appliances;
    }
    pub published : Published b app.secret_writer id resp.appliance_secret w.cluster w'.cluster

  issue_new_secret-eq-ok :
      (a : Appliance) (w : World b) {resp : ClaimApplianceResponse} {w' : World b}
      → run (issue_new_secret x app a) w ≡ (ok resp, w')
      → Rotated w a.id resp w'
  unfolding issue_new_secret
  issue_new_secret-eq-ok a w h = after_ok _ _ _ h λ secret w₁ made h₁.
      let p = publish_secret-eq-ok x app a.id w made in
      after_ret (Rotated w a.id) (claim_response x app a secret) w₁ h₁
        (record { new_db = p.new_db; published = p.published })

  Rotated-from :
      (w w₁ : World b) {i id : ℕ} {resp : ClaimApplianceResponse} {w' : World b}
      → i ≡ id
      → SameStores w w₁
      → Rotated w₁ i resp w'
      → Rotated w id resp w'
  Rotated-from w w₁ {i} {id} {resp} {w'} e s r = record {
    new_db =
        subst
          (λ j. w'.db ≡ record w.db {
            appliances =
                amend (has_id j) (set_hash (some (hash_secret x resp.appliance_secret)))
                  w.db.appliances;
          })
          e (ground (arith, r.new_db, s.same_db));
    published =
        subst₃ (λ j c d. Published b app.secret_writer j resp.appliance_secret c d) e s.same_cluster
          refl r.published;
  }

  -- The caller's identity, and its group's appliance.
  pub record Owned (w : World b) (authorization : Text) (id : ℕ) : Type 0 where
    pub who : Identity
    pub verified : x.verify authorization ≡ some who
    pub appliance : Appliance
    pub its_row : appliance_of id w.db ≡ some appliance
    pub owned : appliance.group_id ≡ who.group_id

  -- Whatever fails or passes, a rotation by a user that succeeds is of an active appliance of the
  -- user's group. It has put the hash of the returned secret into the appliance's row, while the
  -- row's other columns, every other row and every other table are as before; the client writer
  -- has put the secret into the cluster, and the no-op writer has left the cluster alone.
  pub rotate_secret-Rotated :
      (authorization : Text) (id : ℕ) (w : World b) {resp : ClaimApplianceResponse} {w' : World b}
      → run (rotate_secret x app authorization id) w ≡ (ok resp, w')
      → ((o : Owned w authorization id) × (o.appliance.status ≡ active)) × Rotated w id resp w'
  unfolding rotate_secret
  rotate_secret-Rotated authorization id w h = after_ok _ _ _ h λ who w₁ auth h₁.
      after_ok _ _ _ h₁ λ a w₂ owner h₂. after_guard _ _ _ h₂ λ live h₃.
        let (verified, s₁) = use_token-eq-ok x app authorization w auth in
        let (row, owned, s₂) = require_owning_group-eq-ok x app id who.group_id w₁ owner in
        let same : SameStores w w₂ = subst (λ v. SameStores v w₂) (sym s₁) s₂ in
        let made = issue_new_secret-eq-ok a w₂ h₃ in
        (
          (
            record {
              who = who;
              verified = verified;
              appliance = a;
              its_row = ground arith;
              owned = owned;
            },
            ground arith,
          ),
          Rotated-from w w₂ (appliance_of-id id w₁.db row) same made,
        )

  -- Whatever fails or passes, a rotation by the appliance itself that succeeds is of an active
  -- appliance that has presented the secret whose hash was in its row. It has put the hash of the
  -- returned secret into the row and changed nothing else in the tables; the client writer has put
  -- the secret into the cluster, and the no-op writer has left the cluster alone.
  pub rotate_own_secret-Rotated :
      (authorization : Text) (id : ℕ) (w : World b) {resp : ClaimApplianceResponse} {w' : World b}
      → run (rotate_own_secret x app authorization id) w ≡ (ok resp, w')
      → ((a : Appliance) × Authenticated x app w id authorization a) × Rotated w id resp w'
  unfolding rotate_own_secret
  rotate_own_secret-Rotated authorization id w h = after_ok _ _ _ h λ a w₁ auth h₁.
      let (who, s) = authenticate_appliance-eq-ok x app id authorization w auth in
      (
        (a, who),
        Rotated-from w w₁ (appliance_of-id id w.db who.its_row) s (issue_new_secret-eq-ok a w₁ h₁),
      )
