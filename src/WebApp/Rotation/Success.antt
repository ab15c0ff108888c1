-- ===== src/WebApp/Rotation/Success.antt =====
-- internal/appliancewebapp/webapp.go: Revoke, where nothing fails.
use appliance_registry.Prelude.{
  ℕ, ◌≡◌, refl, sym, subst, ap, ◌∙◌, some, none, Option, List, [], Text, ok, arith, amend, false,
}
use appliance_registry.External.{External, Identity, Backend}
use appliance_registry.Persistence.{Appliance, revoked}
use appliance_registry.World.{World, Database}
use appliance_registry.World.Statements
use appliance_registry.World.Statements.{has_id, set_status, status_eq, row_of}
use appliance_registry.World.Rows.{appliance_of, appliance_of-id, row_of-amend}
use appliance_registry.Mariadb
use appliance_registry.Mariadb.Success.{
  Calm, get_appliance_succeeds, set_hash_succeeds, ignore_succeeds,
}
use appliance_registry.K8sSecrets.{SecretWriter, client, noop, delete_appliance_secret}
use appliance_registry.Program.{on_error, ◌>>=◌}
use appliance_registry.Program.Run.{run, perform}
use appliance_registry.Program.Success.{
  Succeeds, then_returns, then_succeeds, handled_succeeds, handled_returns, ret_succeeds,
  required_returns, guard_succeeds,
}
use appliance_registry.WebApp.{WebApp, use_token, required, unauthorized, require_owning_group}
use appliance_registry.WebApp.Rotation.{revoke}
use appliance_registry.WebApp.Rotation.Revocation.{Revoked, revoke-Revoked}

module _ {b : Backend} where
  pub set_status_succeeds :
      {db : Database} {entropy : List (Option (List ℕ))} (id : ℕ) (w : World b) {a : Appliance}
      → Calm w db entropy
      → appliance_of id db ≡ some a
      → status_eq a.status revoked ≡ false
      → Succeeds (Mariadb.set_appliance_status id revoked) w (λ _ v.
        Calm v
          (record db { appliances = amend (has_id id) (set_status revoked) db.appliances })
          entropy)
  unfolding run perform Mariadb.set_appliance_status Statements.update_status ◌>>=◌
  set_status_succeeds id w c e live = record {
    value = tt;
    after = (run (Mariadb.set_appliance_status id revoked) w).1;
    runs = ground (arith, c.no_faults, c.same_db, e, live);
    holds = ground (arith, c.no_faults, c.same_db, c.same_entropy);
  }

  pub delete_appliance_secret_succeeds :
      {db : Database} {entropy : List (Option (List ℕ))} (sw : SecretWriter) (id : ℕ) (w : World b)
      → Calm w db entropy
      → Succeeds (delete_appliance_secret sw id) w (λ _ v. Calm v db entropy)
  unfolding run perform delete_appliance_secret on_error ◌>>=◌
  delete_appliance_secret_succeeds (client n) id w c = record {
    value = tt;
    after = (run (delete_appliance_secret (client n) id) w).1;
    runs = ground (arith, c.no_faults);
    holds = ground (arith, c.no_faults, c.same_db, c.same_entropy);
  }
  delete_appliance_secret_succeeds noop id w c = ret_succeeds tt w c

  module _ (x : External) (app : WebApp) where
    require_owning_group_succeeds :
        {db : Database} {entropy : List (Option (List ℕ))} (id g : ℕ) (w : World b) {a : Appliance}
        → Calm w db entropy
        → appliance_of id db ≡ some a
        → a.group_id ≡ g
        → Succeeds (require_owning_group x app id g) w (λ found v. (found ≡ a) × Calm v db entropy)
    unfolding require_owning_group
    require_owning_group_succeeds id g w {a} c row own =
        then_returns _ (handled_returns _ (get_appliance_succeeds id w c row)) λ w₁ c₁.
          then_succeeds (guard_succeeds _ _ w₁ (ground (arith, own)) c₁)
            λ _ w₂ c₂. ret_succeeds a w₂ (refl, c₂)

    -- Let no call fail. A revocation of an appliance of the caller's group that is not revoked succeeds,
    -- whether or not the appliance has a Secret or a claim token, and has then done all that a revocation
    -- does.
    pub revoke_succeeds :
        (authorization : Text) (id : ℕ) (w : World b) (who : Identity) (a : Appliance)
        → x.verify authorization ≡ some who
        → appliance_of id w.db ≡ some a
        → a.group_id ≡ who.group_id
        → status_eq a.status revoked ≡ false
        → w.faults ≡ []
        → (w' : World b) × (run (revoke x app authorization id) w ≡ (ok tt, w'))
          × Revoked x app w authorization id w'
    unfolding revoke use_token
    revoke_succeeds authorization id w who a verified row own live calm =
        let c₀ : Calm w w.db w.entropy = record {
          no_faults = calm;
          same_db = refl;
          same_entropy = refl;
        } in
        let s : Succeeds (revoke x app authorization id) w (λ _ _. Unit {0}) =
          then_returns _
            (required_returns (required (unauthorized "invalid or expired token")) _ w (λ t. refl)
              verified)
            λ w₁ e₁.
              then_succeeds
                (require_owning_group_succeeds id who.group_id w₁
                  (subst (λ v. Calm v w.db w.entropy) (sym e₁) c₀) row own)
                λ found w₂ (same, c₂).
                  let its_row : appliance_of found.id w.db ≡ some a =
                    ap (λ i. appliance_of i w.db)
                      (ap (λ (d : Appliance). d.id) same ∙ appliance_of-id id w.db row)
                    ∙ row in
                  then_succeeds
                    (handled_succeeds _ (set_status_succeeds found.id w₂ c₂ its_row live))
                    λ _ w₃ c₃.
                      then_succeeds
                        (handled_succeeds _
                          (delete_appliance_secret_succeeds app.secret_writer found.id w₃ c₃))
                        λ _ w₄ c₄.
                          then_succeeds
                            (handled_succeeds _ (
                              set_hash_succeeds found.id w₄ c₄ none
                                {a = record a { status = revoked }}
                                (ground (
                                  arith,
                                  its_row,
                                  row_of-amend (set_status revoked) found.id found.id w.db
                                      (λ r. refl),
                                ))))
                            λ _ w₅ _.
                              ignore_succeeds tt (Mariadb.delete_claim_token_of found.id) w₅ in
        (s.after, s.runs, revoke-Revoked x app authorization id w s.runs)
