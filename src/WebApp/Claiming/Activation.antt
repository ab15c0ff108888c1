-- ===== src/WebApp/Claiming/Activation.antt =====
-- internal/appliancewebapp/webapp.go: what has been done where Claim or EnrollRedeem activates an
-- appliance.
use appliance_registry.Prelude.{
  ℕ, ◌≡◌, refl, sym, some, Text, ok, arith, amend, if◌then◌else◌, ◌==◌,
}
use mathlib.Core.Path.{subst, subst₃}
use appliance_registry.External.{External, Backend}
use appliance_registry.Persistence.{Appliance, pending}
use appliance_registry.World.{World, Row, Database}
use appliance_registry.World.Statements.{row_of, has_id, set_hash, set_claimed}
use appliance_registry.World.Rows.{appliance_of, appliance_of-id, row_of-amend, update_option}
use appliance_registry.Mariadb
use appliance_registry.Mariadb.Results
use appliance_registry.Tokens.{hash_secret}
use appliance_registry.K8sSecrets.Results.{Published}
use appliance_registry.Program.Run.{run}
use appliance_registry.Program.Rules.{after_ok, after_handled, after_ret}
use appliance_registry.WebApp.{WebApp}
use appliance_registry.WebApp.Outcomes.{after_guard, after_lookup}
use appliance_registry.WebApp.Claiming.{activate}
use appliance_registry.WebApp.Claiming.Publishing.{publish_secret-eq-ok}

-- The row's new hash, status and claimedAt; every other row and table is left.
abbrev pub activated_row : Text → ℕ → Row → Row
activated_row hash now r = set_claimed now (set_hash (some hash) r)

unfoldable pub activated_db : ℕ → Text → ℕ → Database → Database
activated_db id hash now db = record db {
  appliances =
      amend (has_id id) (set_claimed now) (amend (has_id id) (set_hash (some hash)) db.appliances);
}

pub row_of-activated_db :
    (id j : ℕ) (hash : Text) (now : ℕ) (db : Database)
    → row_of j (activated_db id hash now db)
      ≡ (if id == j then update_option (activated_row hash now) (row_of j db) else row_of j db)
unfolding activated_db
row_of-activated_db id j hash now db =
    let hashed : Database = record db {
      appliances = amend (has_id id) (set_hash (some hash)) db.appliances;
    } in
    ground (
      arith,
      row_of-amend (set_claimed now) id j hashed (λ r. refl),
      row_of-amend (set_hash (some hash)) id j db (λ r. refl),
    )

module _ {b : Backend} (x : External) (app : WebApp) where
  -- The appliance was pending; it is active now, its new secret is in the cluster, and the secret's
  -- hash in its row.
  pub record Activation (w : World b) (id : ℕ) (a : Appliance) (secret : Text) (w' : World b)
      : Type 0 where
    pub its_row : appliance_of id w.db ≡ some a
    pub was_pending : a.status ≡ pending
    pub new_db : w'.db ≡ activated_db id (hash_secret x secret) (b.column_time w.clock) w.db
    pub published : Published b app.secret_writer id secret w.cluster w'.cluster

  pub activate-eq-ok :
      (id : ℕ) (w : World b) {a : Appliance} {secret : Text} {w' : World b}
      → run (activate x app id) w ≡ (ok (a, secret), w')
      → Activation w id a secret w'
  unfolding activate activated_db
  activate-eq-ok id w h = after_lookup _ _ _ _ _ h λ found w₁ read h₁.
      after_guard _ _ _ h₁ λ waits h₂. after_ok _ _ _ h₂ λ secret w₂ made h₃.
        after_handled _ _ _ _ h₃ (λ e. tt)
          λ u w₃ marked h₄.
            let (row, s₁) = Mariadb.Results.get_appliance-eq-ok id w read in
            let same = appliance_of-id id w.db row in
            let p = publish_secret-eq-ok x app found.id w₁ made in
            let s₃ = Mariadb.Results.mark_appliance_claimed-eq-ok found.id w₂ marked in
            after_ret (λ r v. Activation w id r.0 r.1 v) (found, secret) w₃ h₄
              (record {
                its_row = row;
                was_pending = ground arith;
                new_db =
                    subst
                      (λ i.
                        w₃.db ≡ activated_db i (hash_secret x secret) (b.column_time w.clock) w.db)
                      same (ground arith);
                published =
                    subst₃ (λ i c c'. Published b app.secret_writer i secret c c') same
                      s₁.same_cluster (sym s₃.same_cluster) p.published;
              })
