-- ===== src/WebApp/Claiming/Publishing.antt =====
-- internal/appliancewebapp/webapp.go: what has been done where a new secret is published, and where
-- an appliance is activated.
use appliance_registry.Prelude.{
  ℕ, ◌≡◌, sym, ◌++◌, Option, none, some, List, Text, text, ok, arith, amend,
}
use mathlib.Core.Path.{subst₂}
use appliance_registry.External.{External, Backend}
use appliance_registry.World.{World}
use appliance_registry.World.Statements.{has_id, set_hash}
use appliance_registry.Mariadb
use appliance_registry.Mariadb.Results
use appliance_registry.Mariadb.Results.{SameStores, Wrote}
use appliance_registry.K8sSecrets.Results.{
  Published, write_appliance_secret-db, write_appliance_secret-eq-ok,
}
use appliance_registry.Text.{decimal, hex}
use appliance_registry.Tokens.{hash_secret, random_hex, generate_appliance_secret}
use appliance_registry.Program.{◌>>=◌}
use appliance_registry.Program.Run.{run, perform, supply}
use appliance_registry.Program.Rules.{after_handled, after_ret}
use appliance_registry.WebApp.{WebApp, store_secret_hash}
use appliance_registry.WebApp.Claiming.{publish_secret}

-- The secret that GenerateApplianceSecret makes of a random read.
abbrev pub secret_text : ℕ → Option (List ℕ) → Option Text
secret_text id none = none
secret_text id (some buf) = some (text "appliance-" ++ decimal id ++ text ":" ++ hex buf)

module _ {b : Backend} where
  generate_appliance_secret-eq-ok :
      (id : ℕ) (w : World b) {secret : Text} {w' : World b}
      → run (generate_appliance_secret id) w ≡ (ok secret, w')
      → (secret_text id (supply w.entropy) ≡ some secret) × SameStores w w'
  unfolding run perform generate_appliance_secret random_hex ◌>>=◌
  generate_appliance_secret-eq-ok id w h = ground arith

  module _ (x : External) (app : WebApp) where
    -- A fresh secret, with its hash in the appliance's row and its value in the cluster.
    pub record Publication (w : World b) (id : ℕ) (secret : Text) (w' : World b) : Type 0 where
      pub fresh : secret_text id (supply w.entropy) ≡ some secret
      pub new_db : w'.db ≡ record w.db {
        appliances = amend (has_id id) (set_hash (some (hash_secret x secret))) w.db.appliances;
      }
      pub published : Published b app.secret_writer id secret w.cluster w'.cluster
      pub same_clock : w'.clock ≡ w.clock

    pub publish_secret-eq-ok :
        (id : ℕ) (w : World b) {secret : Text} {w' : World b}
        → run (publish_secret x app id) w ≡ (ok secret, w')
        → Publication w id secret w'
    unfolding publish_secret store_secret_hash
    publish_secret-eq-ok id w h =
        after_handled _ _ _ _ h (λ e. tt)
          λ secret w₁ made h₁.
            after_handled _ _ _ _ h₁ (λ e. tt)
              λ u w₂ wrote h₂.
                after_handled _ _ _ _ h₂ (λ e. tt)
                  λ v w₃ kept h₃.
                    let (fresh, s₁) = generate_appliance_secret-eq-ok id w made in
                    let stored =
                      write_appliance_secret-eq-ok app.secret_writer id secret w₁ wrote in
                    let s₂ = write_appliance_secret-db app.secret_writer id secret w₁ wrote in
                    let s₃ =
                      Mariadb.Results.set_appliance_secret_hash-eq-ok id w₂
                        (some (hash_secret x secret)) kept in
                    after_ret (Publication w id) secret w₃ h₃ (record {
                      fresh = fresh;
                      new_db = ground arith;
                      published =
                          subst₂ (Published b app.secret_writer id secret) s₁.same_cluster
                            (sym s₃.same_cluster) stored;
                      same_clock = ground arith;
                    })
