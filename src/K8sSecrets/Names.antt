-- ===== src/K8sSecrets/Names.antt =====
-- internal/k8ssecrets/k8ssecrets.go: the names of the Secrets, and the Secrets of other appliances.
use appliance_registry.Prelude.{ℕ, ◌≡◌, ◌≢◌, refl, false, Text, text_eq_iff, Result, arith}
use appliance_registry.External.{Backend, Secret, key_eq}
use appliance_registry.World.{World}
use appliance_registry.Text.Decimal.{decimal_injective}
use appliance_registry.Program.{ApiError, ◌>>=◌}
use appliance_registry.Program.Run.{run, perform}
use appliance_registry.K8sSecrets.{
  SecretWriter, client, noop, secret_key, secret_name, write_appliance_secret,
  delete_appliance_secret,
}
use appliance_registry.K8sSecrets.Results.{new_secret}

secret_name_injective : (i j : ℕ) → secret_name i ≡ secret_name j → i ≡ j
unfolding secret_name
secret_name_injective i j e = decimal_injective i j (ground arith)

pub key_eq-secret_key :
    (m n : Text) (i j : ℕ) → i ≢ j → key_eq (secret_key m i) (secret_key n j) ≡ false
key_eq-secret_key m n i j other =
    ground (arith, text_eq_iff (secret_name i) (secret_name j), secret_name_injective i j)

module _ (b : Backend) (namespace : Text) (i j : ℕ) (other : i ≢ j) where
  lookup-store_other :
      (m : Text) (c : b.Cluster) (s : Secret)
      → b.lookup (b.store c (secret_key m i) s) (secret_key namespace j)
        ≡ b.lookup c (secret_key namespace j)
  lookup-store_other m c s =
      let apart = key_eq-secret_key m namespace i j other in rw (b.lookup-store, apart)

  lookup-remove_other :
      (m : Text) (c : b.Cluster)
      → b.lookup (b.remove c (secret_key m i)) (secret_key namespace j)
        ≡ b.lookup c (secret_key namespace j)
  lookup-remove_other m c =
      let apart = key_eq-secret_key m namespace i j other in rw (b.lookup-remove, apart)

  write_appliance_secret-other :
      (sw : SecretWriter) (auth : Text) (w : World b) {r : Result ApiError (Unit {0})}
      {w' : World b}
      → run (write_appliance_secret sw i auth) w ≡ (r, w')
      → b.lookup w'.cluster (secret_key namespace j) ≡ b.lookup w.cluster (secret_key namespace j)
  unfolding run perform write_appliance_secret ◌>>=◌
  write_appliance_secret-other (client m) auth w h =
      let s = new_secret auth (b.lookup w.cluster (secret_key m i)) in
      ground (arith, lookup-store_other m w.cluster s)
  write_appliance_secret-other noop auth w h = ground arith

  delete_appliance_secret-other :
      (sw : SecretWriter) (w : World b) {r : Result ApiError (Unit {0})} {w' : World b}
      → run (delete_appliance_secret sw i) w ≡ (r, w')
      → b.lookup w'.cluster (secret_key namespace j) ≡ b.lookup w.cluster (secret_key namespace j)
  unfolding run perform delete_appliance_secret ◌>>=◌
  delete_appliance_secret-other (client m) w h = ground (arith, lookup-remove_other m w.cluster)
  delete_appliance_secret-other noop w h = ground arith

  -- However the calls end, a write and a deletion of an appliance's Secret both leave the Secrets of every
  -- other appliance as they were, in any namespace.
  pub appliance_secrets-other :
      (sw : SecretWriter) (auth : Text) (w : World b)
      → (b.lookup (run (write_appliance_secret sw i auth) w).1.cluster (secret_key namespace j)
          ≡ b.lookup w.cluster (secret_key namespace j))
        × (b.lookup (run (delete_appliance_secret sw i) w).1.cluster (secret_key namespace j)
            ≡ b.lookup w.cluster (secret_key namespace j))
  appliance_secrets-other sw auth w =
      (write_appliance_secret-other sw auth w refl, delete_appliance_secret-other sw w refl)
