-- ===== src/K8sSecrets.antt =====
-- internal/k8ssecrets/k8ssecrets.go
pub mod Results
pub mod Names
use appliance_registry.Prelude.{ℕ, Text, text, ◌++◌}
use appliance_registry.External.{Secret, SecretKey}
use appliance_registry.Text.{decimal}
use appliance_registry.Program.{
  Prog, ret, fail, call, returned, on_error, ◌>>=◌, ApiError, already_exists, not_found, other,
  create_secret, get_secret, update_secret, delete_secret,
}

-- clientSecretWriter for a namespace, and noopSecretWriter.
pub data SecretWriter : Type 0 where
  client : (namespace : Text) → SecretWriter
  noop : SecretWriter

unfoldable pub secret_name : ℕ → Text
secret_name id = text "cloud-connect-secret-" ++ decimal id

abbrev pub secret_key : Text → ℕ → SecretKey
secret_key namespace id = record { namespace = namespace; name = secret_name id }

unfoldable pub overwrite_secret : SecretKey → Text → Prog ApiError (Unit {0})
overwrite_secret key auth = do
  existing ← call (get_secret key) returned
  call (update_secret key (record existing { auth = auth })) returned

-- The errors that are not passed on: IsAlreadyExists of a creation, IsNotFound of a deletion.
abbrev pub when_exists : SecretKey → Text → ApiError → Prog ApiError (Unit {0})
when_exists key auth already_exists = overwrite_secret key auth
when_exists key auth not_found = fail not_found
when_exists key auth other = fail other

abbrev pub when_missing : ApiError → Prog ApiError (Unit {0})
when_missing already_exists = fail already_exists
when_missing not_found = ret tt
when_missing other = fail other

unfoldable pub write_appliance_secret : SecretWriter → ℕ → Text → Prog ApiError (Unit {0})
unfolding overwrite_secret on_error
write_appliance_secret (client namespace) id auth =
    let key = secret_key namespace id in
    on_error (when_exists key auth) (
      call (create_secret key (record { managed_by = text "appliance-registry"; auth = auth }))
        returned)
write_appliance_secret noop id auth = ret tt

unfoldable pub delete_appliance_secret : SecretWriter → ℕ → Prog ApiError (Unit {0})
unfolding on_error
delete_appliance_secret (client namespace) id =
    on_error when_missing (call (delete_secret (secret_key namespace id)) returned)
delete_appliance_secret noop id = ret tt
