-- ===== src/K8sSecrets/Results.antt =====
-- What a write and a deletion of internal/k8ssecrets/k8ssecrets.go have done where they succeed.
use appliance_registry.Prelude.{
  ℕ, ◌≡◌, ◌↔◌, true, Option, none, some, Text, text, text_eq_iff, Result, ok, arith, if◌then◌else◌,
}
use appliance_registry.External.{Backend, Secret, SecretKey, key_eq}
use appliance_registry.World.{World}
use appliance_registry.Program.{ApiError, ◌>>=◌}
use appliance_registry.Program.Run.{run, perform}
use appliance_registry.K8sSecrets.{
  SecretWriter, client, noop, secret_key, write_appliance_secret, delete_appliance_secret,
}

-- The Secret that a write leaves: a new one, or the old one with another value.
abbrev pub new_secret : Text → Option Secret → Secret
new_secret auth none = record { managed_by = text "appliance-registry"; auth = auth }
new_secret auth (some s) = record s { auth = auth }

key_eq_iff : (k j : SecretKey) → (key_eq k j ≡ true) ↔ (k ≡ j)
key_eq_iff k j = ground (arith, text_eq_iff k.namespace j.namespace, text_eq_iff k.name j.name)

-- What a writer has done to the cluster: the no-op writer nothing.
abbrev pub Published : (b : Backend) → SecretWriter → ℕ → Text → b.Cluster → b.Cluster → Type 0
Published b (client namespace) id auth c c' =
    let key = secret_key namespace id in c' ≡ b.store c key (new_secret auth (b.lookup c key))
Published b noop id auth c c' = c' ≡ c

module _ {b : Backend} where
  pub record SameDb (w w' : World b) : Type 0 where
    pub same_db : w'.db ≡ w.db
    pub same_clock : w'.clock ≡ w.clock
    pub same_ticks : w'.ticks ≡ w.ticks

  pub write_appliance_secret-db :
      (sw : SecretWriter) (id : ℕ) (auth : Text) (w : World b) {r : Result ApiError (Unit {0})}
      {w' : World b}
      → run (write_appliance_secret sw id auth) w ≡ (r, w')
      → SameDb w w'
  unfolding run perform write_appliance_secret ◌>>=◌
  write_appliance_secret-db (client n) id auth w h = ground arith
  write_appliance_secret-db noop id auth w h = ground arith

  pub write_appliance_secret-eq-ok :
      (sw : SecretWriter) (id : ℕ) (auth : Text) (w : World b) {w' : World b}
      → run (write_appliance_secret sw id auth) w ≡ (ok tt, w')
      → Published b sw id auth w.cluster w'.cluster
  unfolding run perform write_appliance_secret ◌>>=◌
  write_appliance_secret-eq-ok (client n) id auth w h = ground arith
  write_appliance_secret-eq-ok noop id auth w h = ground arith

  -- After a deletion that succeeds the key is free, and every other key is as it was.
  pub delete_appliance_secret-eq-ok :
      (namespace : Text) (id : ℕ) (w : World b) {w' : World b}
      → run (delete_appliance_secret (client namespace) id) w ≡ (ok tt, w')
      → (j : SecretKey)
      → b.lookup w'.cluster j
        ≡ (if key_eq (secret_key namespace id) j then none else b.lookup w.cluster j)
  unfolding run perform delete_appliance_secret ◌>>=◌
  delete_appliance_secret-eq-ok n id w h j =
      let key = secret_key n id in ground (arith, b.lookup-remove w.cluster key j, key_eq_iff key j)

  pub delete_appliance_secret-db :
      (sw : SecretWriter) (id : ℕ) (w : World b) {r : Result ApiError (Unit {0})} {w' : World b}
      → run (delete_appliance_secret sw id) w ≡ (r, w')
      → SameDb w w'
  unfolding run perform delete_appliance_secret ◌>>=◌
  delete_appliance_secret-db (client n) id w h = ground arith
  delete_appliance_secret-db noop id w h = ground arith
