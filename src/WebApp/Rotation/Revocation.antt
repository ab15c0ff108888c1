-- ===== src/WebApp/Rotation/Revocation.antt =====
-- internal/appliancewebapp/webapp.go: what a successful Revoke requires and does, and a Revoke of an
-- appliance that is revoked already.
use appliance_registry.Prelude.{
  ℕ, ◌≡◌, ◌≢◌, refl, sym, ap, subst, ◌∙◌, none, some, Text, ok, Result, arith, amend, if◌then◌else◌,
  ◌==◌, Option-cases, inl, inr, false,
}
use mathlib.Core.Path.{subst₃}
use appliance_registry.External.{External, Backend, Identity, SecretKey, key_eq}
use appliance_registry.Persistence.{Appliance, revoked}
use appliance_registry.World.{World, Database}
use appliance_registry.World.Statements.{row_of, has_id, set_hash, set_status, status_eq}
use appliance_registry.World.Rows.{appliance_of, appliance_of-id, row_of-amend, update_option}
use appliance_registry.Mariadb
use appliance_registry.Mariadb.Results
use appliance_registry.Mariadb.Results.{SameStores}
use appliance_registry.K8sSecrets.{SecretWriter, client, noop, secret_key, delete_appliance_secret}
use appliance_registry.K8sSecrets.Results.{
  delete_appliance_secret-eq-ok, delete_appliance_secret-db,
}
use appliance_registry.Program.{on_error, ◌>>=◌}
use appliance_registry.Program.Run.{run, perform}
use appliance_registry.Program.Rules.{
  after_either, or_fail-eq-err, on_error-eq-ok, after_ok, after_handled,
}
use appliance_registry.World.Statements
use appliance_registry.WebApp.{use_token, require_owning_group, WebApp, Failure}
use appliance_registry.WebApp.Outcomes.{
  use_token-eq-ok, require_owning_group-eq-ok, ignore-delete_claim_token,
}
use appliance_registry.WebApp.Rotation.{revoke}
use appliance_registry.WebApp.Rotation.Outcomes.{Owned}

same_rows :
    (j : ℕ) (db db' : Database) → db'.appliances ≡ db.appliances → row_of j db' ≡ row_of j db
unfolding row_of
same_rows j db db' e = ground arith

-- What a deletion has done to the cluster: the no-op writer nothing.
abbrev pub Removed : (b : Backend) → SecretWriter → ℕ → b.Cluster → b.Cluster → Type 0
Removed b (client namespace) id c c' =
    (j : SecretKey)
    → b.lookup c' j ≡ (if key_eq (secret_key namespace id) j then none else b.lookup c j)
Removed b noop id c c' = c' ≡ c

deleted-Removed :
    {b : Backend} (sw : SecretWriter) (id : ℕ) (w : World b) {w' : World b}
    → run (delete_appliance_secret sw id) w ≡ (ok tt, w')
    → Removed b sw id w.cluster w'.cluster
unfolding run delete_appliance_secret
deleted-Removed (client n) id w h = delete_appliance_secret-eq-ok n id w h
deleted-Removed noop id w h = ground arith

revoked_rows :
    (id j : ℕ) (db db₁ db₂ db₃ : Database)
    → db₁ ≡ record db { appliances = amend (has_id id) (set_status revoked) db.appliances }
    → db₂ ≡ record db₁ { appliances = amend (has_id id) (set_hash none) db₁.appliances }
    → db₃.appliances ≡ db₂.appliances
    → row_of j db₃ ≡ (
        if id == j
        then update_option (λ r. set_hash none (set_status revoked r)) (row_of j db)
        else row_of j db)
revoked_rows id j db db₁ db₂ db₃ e f g =
    same_rows j db₂ db₃ g
    ∙ ap (row_of j) f
    ∙ ground (
      arith,
      row_of-amend (set_hash none) id j db₁ (λ r. refl),
      row_of-amend (set_status revoked) id j db (λ r. refl),
    )

module _ {b : Backend} (x : External) (app : WebApp) where
  pub record Revoked (w : World b) (authorization : Text) (id : ℕ) (w' : World b) : Type 0 where
    pub caller : Owned x app w authorization id
    pub was_not : status_eq caller.appliance.status revoked ≡ false
    pub rows :
        (j : ℕ)
        → row_of j w'.db ≡ (
            if id == j
            then update_option (λ r. set_hash none (set_status revoked r)) (row_of j w.db)
            else row_of j w.db)
    pub removed : Removed b app.secret_writer id w.cluster w'.cluster

  -- Whatever fails or passes, a revocation that succeeds is of an appliance of the caller's group
  -- that was not revoked before. It leaves the row revoked and without a hash, and every other row
  -- as before. With the client writer the cluster has no Secret for the appliance then, and every
  -- other Secret is as before; the no-op writer leaves the cluster alone.
  pub revoke-Revoked :
      (authorization : Text) (id : ℕ) (w : World b) {w' : World b}
      → run (revoke x app authorization id) w ≡ (ok tt, w')
      → Revoked w authorization id w'
  unfolding revoke
  revoke-Revoked authorization id w {w'} h = after_ok _ _ _ h λ who w₁ auth h₁.
      after_ok _ _ _ h₁ λ a w₂ owner h₂.
        after_handled _ _ _ _ h₂ (λ e. tt)
          λ u w₃ marked h₃.
            after_handled _ _ _ _ h₃ (λ e. tt)
              λ u' w₄ gone h₄.
                after_handled _ _ _ _ h₄ (λ e. tt)
                  λ u'' w₅ cleared h₅.
                    let (verified, s₁) = use_token-eq-ok x app authorization w auth in
                    let (row, owned, s₂) =
                      require_owning_group-eq-ok x app id who.group_id w₁ owner in
                    let same = appliance_of-id id w₁.db row in
                    let s₃ = Mariadb.Results.set_appliance_status-eq-ok a.id w₂ revoked marked in
                    let s₄ = delete_appliance_secret-db app.secret_writer a.id w₃ gone in
                    let s₅ = Mariadb.Results.set_appliance_secret_hash-eq-ok a.id w₄ none cleared in
                    let s₆ = ignore-delete_claim_token a.id w₅ h₅ in
                    let removed = deleted-Removed app.secret_writer a.id w₃ gone in
                    record {
                      caller = record {
                        who = who;
                        verified = verified;
                        appliance = a;
                        its_row = ground arith;
                        owned = owned;
                      };
                      was_not =
                          Mariadb.Results.set_appliance_status-changes a.id w₂ revoked marked
                            (subst (λ i. appliance_of i w₂.db ≡ some a) (sym same) (ground arith));
                      rows = λ j.
                          revoked_rows id j w.db w₃.db w₅.db w'.db
                            (subst
                              (λ i. w₃.db ≡ record w.db {
                                appliances = amend (has_id i) (set_status revoked) w.db.appliances;
                              })
                              same (ground arith))
                            (subst
                              (λ i. w₅.db ≡ record w₃.db {
                                appliances = amend (has_id i) (set_hash none) w₃.db.appliances;
                              })
                              same (ground arith))
                            s₆.same_appliances;
                      removed =
                          subst₃ (λ i c d. Removed b app.secret_writer i c d) same (ground arith)
                            (ground arith) removed;
                    }

  use_token-cluster :
      (authorization : Text) (w : World b) {r : Result Failure Identity} {w' : World b}
      → run (use_token x app authorization) w ≡ (r, w')
      → w'.cluster ≡ w.cluster
  unfolding use_token run
  use_token-cluster authorization w h = elim (Option-cases (x.verify authorization)) [
    | inl e ↦ ground arith
    | inr (who, e) ↦ ground arith
  ]

  require_owning_group-cluster :
      (id g : ℕ) (w : World b) {r : Result Failure Appliance} {w' : World b}
      → run (require_owning_group x app id g) w ≡ (r, w')
      → w'.cluster ≡ w.cluster
  unfolding require_owning_group Mariadb.get_appliance Statements.select_appliance run perform
      on_error ◌>>=◌
  require_owning_group-cluster id g w h = ground arith

  -- A revocation of an appliance that is revoked already never succeeds, and leaves every Secret in
  -- the cluster where it is, also the Secret of an appliance whose first revocation has stopped half
  -- way.
  pub revoke_again :
      (authorization : Text) (id : ℕ) (w : World b) (a : Appliance)
      → appliance_of id w.db ≡ some a
      → a.status ≡ revoked
      → {r : Result Failure (Unit {0})} {w' : World b}
      → run (revoke x app authorization id) w ≡ (r, w')
      → (r ≢ ok tt) × (w'.cluster ≡ w.cluster)
  unfolding revoke
  revoke_again authorization id w a row gone {r} {w'} h = (
    (λ success.
        let first =
          revoke-Revoked authorization id w
            (subst (λ q. run (revoke x app authorization id) w ≡ (q, w')) success h) in
        let its_row = first.caller.its_row in let was_not = first.was_not in ground arith),
    after_either _ _ _ h (λ e f _. use_token-cluster authorization w f)
        λ who w₁ auth h₁.
          after_either _ _ _ h₁
            (λ e f _.
              require_owning_group-cluster id who.group_id w₁ f
              ∙ use_token-cluster authorization w auth)
            λ found w₂ owner h₂.
              after_either _ _ _ h₂
                (λ e f _. or_fail-eq-err _ _ _ f λ d m _.
                  Mariadb.Results.set_appliance_status-cluster found.id w₂ revoked m
                  ∙ require_owning_group-cluster id who.group_id w₁ owner
                  ∙ use_token-cluster authorization w auth)
                λ u w₃ marked h₃.
                  let (verified, s₁) = use_token-eq-ok x app authorization w auth in
                  let (its_row, owned, s₂) =
                    require_owning_group-eq-ok x app id who.group_id w₁ owner in
                  let done = on_error-eq-ok _ _ w₂ (λ e. tt) marked in
                  let changed =
                    Mariadb.Results.set_appliance_status-changes found.id w₂ revoked done (
                      subst (λ i. appliance_of i w₂.db ≡ some found)
                        (sym (appliance_of-id id w₁.db its_row)) (ground arith)) in
                  absurd (ground arith),
  )
