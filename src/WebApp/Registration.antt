-- ===== src/WebApp/Registration.antt =====
-- internal/appliancewebapp/webapp.go: createApplianceWithRetry, issueClaimToken, Register, Enroll.
pub mod Outcomes
pub mod Issued
pub mod Enrolled
pub mod Retry
pub mod Success
pub mod Claimable
use appliance_registry.Prelude.{ℕ, zero, suc, ◌+◌, ◌-◌, Text}
use appliance_registry.Clock.{after}
use appliance_registry.External.{External}
use appliance_registry.Persistence.{Appliance, DbError, no_rows, duplicate, unavailable}
use appliance_registry.Tokens.{generate_claim_token, generate_exchange_code}
use appliance_registry.Hostnames.{generate_label}
use appliance_registry.Mariadb
use appliance_registry.RestModels.{RegisterApplianceResponse, EnrollApplianceResponse}
use appliance_registry.Program.{Prog, ret, fail, call, on_error, time_now, ◌>>=◌, ◌>>◌}
use appliance_registry.WebApp.{
  WebApp, Handler, or_fail, unauthorized, internal_error, use_token, to_appliance_response,
}

abbrev pub max_hostname_label_attempts : ℕ
max_hostname_label_attempts = 5

-- An appliance's claim token as it is issued.
pub record IssuedToken : Type 0 where
  pub raw : Text
  pub hash : Text
  pub expires_at : ℕ

-- The error 1062 leads to another attempt, and every other error is returned.
abbrev pub if_duplicate : {A : Type 0} → Prog (Unit {0}) A → DbError → Prog (Unit {0}) A
if_duplicate again no_rows = fail tt
if_duplicate again duplicate = again
if_duplicate again unavailable = fail tt

module _ (x : External) (app : WebApp) where
  -- The loop, by the number of attempts that may follow this one. A caller does not look at the error.
  unfoldable pub create_appliance_from : ℕ → Text → ℕ → Prog (Unit {0}) Appliance
  create_appliance_from zero name group_id = do
    label ← generate_label x name
    on_error (λ _. fail tt) (Mariadb.create_appliance name label group_id)
  create_appliance_from (suc attempts) name group_id = do
    label ← generate_label x name
    on_error (if_duplicate (create_appliance_from attempts name group_id))
        (Mariadb.create_appliance name label group_id)

  unfoldable pub create_appliance_with_retry : Text → ℕ → Prog (Unit {0}) Appliance
  create_appliance_with_retry = create_appliance_from (max_hostname_label_attempts - 1)

  unfoldable pub issue_claim_token : ℕ → Prog (Unit {0}) IssuedToken
  issue_claim_token id = do
    (raw, hash) ← generate_claim_token x
    now ← call time_now ret
    on_error (λ _. fail tt) (Mariadb.save_claim_token id hash (after now app.claim_token_expiry))
    ret (record { raw = raw; hash = hash; expires_at = after now app.claim_token_expiry })

  unfoldable pub register : (authorization name : Text) → Handler RegisterApplianceResponse
  register authorization name = do
    who ← use_token x app authorization
    appliance ←
        or_fail (internal_error "failed to register appliance")
          (create_appliance_with_retry name who.group_id)
    token ← or_fail (internal_error "failed to issue claim token") (issue_claim_token appliance.id)
    ret (record {
      appliance = to_appliance_response x app appliance;
      claim_token = token.raw;
      claim_token_expires_at = token.expires_at;
    })

  unfoldable pub enroll : (authorization name : Text) → Handler EnrollApplianceResponse
  enroll authorization name = do
    who ← use_token x app authorization
    appliance ←
        or_fail (internal_error "failed to register appliance")
          (create_appliance_with_retry name who.group_id)
    token ← or_fail (internal_error "failed to issue claim token") (issue_claim_token appliance.id)
    (raw_code, code_hash) ←
        or_fail (internal_error "failed to generate exchange code") (generate_exchange_code x)
    now ← call time_now ret
    or_fail (internal_error "failed to issue exchange code") (
        Mariadb.save_enroll_exchange_code appliance.id code_hash token.hash
          (after now app.exchange_code_expiry))
    ret (record {
      appliance_id = appliance.id;
      exchange_code = raw_code;
      exchange_code_expires_at = after now app.exchange_code_expiry;
    })
