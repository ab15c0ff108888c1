-- ===== src/Mariadb/Footprint.antt =====
-- The calls that the methods of internal/persistence/mariadb/mariadb.go, and the helpers of the other
-- packages, can make.
use appliance_registry.Prelude.{ℕ, Bool, true, ◌≡◌, refl, Option, none, some, Text}
use appliance_registry.External.{External}
use appliance_registry.Persistence.{ApplianceStatus, ApplianceFilter, revoked}
use appliance_registry.Mariadb
use appliance_registry.Tokens.{random_hex, generate_token, generate_appliance_secret}
use appliance_registry.Hostnames.{generate_label}
use appliance_registry.UserRegistry.Access.{Access}
use appliance_registry.UserRegistry.Client.{
  HttpClient, decoded, membership_answer, get_group_member,
}
use appliance_registry.K8sSecrets.{
  SecretWriter, client, noop, overwrite_secret, when_exists, when_missing, write_appliance_secret,
  delete_appliance_secret,
}
use appliance_registry.External.{SecretKey}
use appliance_registry.Program.{
  Op, Prog, update_status, update_claimed, ApiError, already_exists, not_found, other,
}
use appliance_registry.Program.Footprint.{
  Uses, uses_ret, uses_fail, uses_call, Uses->>=, Uses-on_error, Uses-guard, Uses-if, Uses-returned,
}

-- The only status that is ever set by itself is `revoked`; whether a claim may be marked is a parameter.
abbrev pub Emitted : Bool → Op → Type 0
Emitted c (update_status id s) = s ≡ revoked
Emitted c (update_claimed id) = c ≡ true
Emitted c _ = Unit

abbrev pub Quiet : Bool → {E A : Type 0} → Prog E A → Type 0
Quiet c = Uses (Emitted c)

pub ruleset calls = (
  tt, refl, uses_ret, uses_fail, uses_call, Uses->>=, Uses-on_error, Uses-guard, Uses-if,
  Uses-returned,
)

pub Quiet-mark_appliance_claimed :
    {c : Bool} → c ≡ true → (id : ℕ) → Quiet c (Mariadb.mark_appliance_claimed id)
unfolding Mariadb.mark_appliance_claimed
Quiet-mark_appliance_claimed marks id = search (calls, marks)

module _ {c : Bool} where
  pub Quiet-get_appliance : (id : ℕ) → Quiet c (Mariadb.get_appliance id)
  unfolding Mariadb.get_appliance
  Quiet-get_appliance id = search calls

  pub Quiet-create_appliance :
      (name label : Text) (g : ℕ) → Quiet c (Mariadb.create_appliance name label g)
  unfolding Mariadb.create_appliance
  Quiet-create_appliance name label g = search calls

  pub Quiet-list_appliances_for_group :
      (g : ℕ) (f : ApplianceFilter) → Quiet c (Mariadb.list_appliances_for_group g f)
  unfolding Mariadb.list_appliances_for_group
  Quiet-list_appliances_for_group g f = search calls

  pub Quiet-list_appliances_by_status :
      (st : ApplianceStatus) → Quiet c (Mariadb.list_appliances_by_status st)
  unfolding Mariadb.list_appliances_by_status
  Quiet-list_appliances_by_status st = search calls

  pub Quiet-save_claim_token :
      (id : ℕ) (hash : Text) (t : ℕ) → Quiet c (Mariadb.save_claim_token id hash t)
  unfolding Mariadb.save_claim_token
  Quiet-save_claim_token id hash t = search calls

  pub Quiet-get_claim_token : (id : ℕ) → Quiet c (Mariadb.get_claim_token id)
  unfolding Mariadb.get_claim_token
  Quiet-get_claim_token id = search calls

  pub Quiet-delete_claim_token_of : (id : ℕ) → Quiet c (Mariadb.delete_claim_token_of id)
  unfolding Mariadb.delete_claim_token_of
  Quiet-delete_claim_token_of id = search calls

  pub Quiet-save_enroll_exchange_code :
      (id : ℕ) (k h : Text) (t : ℕ) → Quiet c (Mariadb.save_enroll_exchange_code id k h t)
  unfolding Mariadb.save_enroll_exchange_code
  Quiet-save_enroll_exchange_code id k h t = search calls

  pub Quiet-get_enroll_exchange_code : (id : ℕ) → Quiet c (Mariadb.get_enroll_exchange_code id)
  unfolding Mariadb.get_enroll_exchange_code
  Quiet-get_enroll_exchange_code id = search calls

  pub Quiet-delete_enroll_exchange_code :
      (id : ℕ) → Quiet c (Mariadb.delete_enroll_exchange_code id)
  unfolding Mariadb.delete_enroll_exchange_code
  Quiet-delete_enroll_exchange_code id = search calls

  pub Quiet-set_appliance_secret_hash :
      (id : ℕ) (h : Option Text) → Quiet c (Mariadb.set_appliance_secret_hash id h)
  unfolding Mariadb.set_appliance_secret_hash
  Quiet-set_appliance_secret_hash id h = search calls

  pub Quiet-get_appliance_secret_hash : (id : ℕ) → Quiet c (Mariadb.get_appliance_secret_hash id)
  unfolding Mariadb.get_appliance_secret_hash
  Quiet-get_appliance_secret_hash id = search calls

  pub Quiet-save_login_code : (h : Text) (id u t : ℕ) → Quiet c (Mariadb.save_login_code h id u t)
  unfolding Mariadb.save_login_code
  Quiet-save_login_code h id u t = search calls

  pub Quiet-consume_login_code : (h : Text) (id : ℕ) → Quiet c (Mariadb.consume_login_code h id)
  unfolding Mariadb.consume_login_code
  Quiet-consume_login_code h id = search calls

  pub Quiet-set_appliance_status : (id : ℕ) → Quiet c (Mariadb.set_appliance_status id revoked)
  unfolding Mariadb.set_appliance_status
  Quiet-set_appliance_status id = search calls

  pub Quiet-random_hex : (n : ℕ) → Quiet c (random_hex n)
  unfolding random_hex
  Quiet-random_hex n = uses_call _ _ tt λ o.
      elim o as (λ o. Quiet c (elim o [ none ↦ _ | some buf ↦ _ ])) [
        | none ↦ uses_fail tt
        | some buf ↦ uses_ret _
      ]

  pub Quiet-generate_token : (x : External) → Quiet c (generate_token x)
  unfolding generate_token
  Quiet-generate_token x = search (calls, Quiet-random_hex)

  pub Quiet-generate_appliance_secret : (id : ℕ) → Quiet c (generate_appliance_secret id)
  unfolding generate_appliance_secret
  Quiet-generate_appliance_secret id = search (calls, Quiet-random_hex)

  pub Quiet-generate_label : (x : External) (name : Text) → Quiet c (generate_label x name)
  unfolding generate_label
  Quiet-generate_label x name = search (calls, Quiet-random_hex)

  Quiet-overwrite_secret : (k : SecretKey) (auth : Text) → Quiet c (overwrite_secret k auth)
  unfolding overwrite_secret
  Quiet-overwrite_secret k auth = search calls

  Quiet-when_exists : (k : SecretKey) (auth : Text) (e : ApiError) → Quiet c (when_exists k auth e)
  Quiet-when_exists k auth already_exists = Quiet-overwrite_secret k auth
  Quiet-when_exists k auth not_found = uses_fail not_found
  Quiet-when_exists k auth other = uses_fail other

  Quiet-when_missing : (e : ApiError) → Quiet c (when_missing e)
  Quiet-when_missing already_exists = uses_fail already_exists
  Quiet-when_missing not_found = uses_ret tt
  Quiet-when_missing other = uses_fail other

  pub Quiet-write_appliance_secret :
      (sw : SecretWriter) (id : ℕ) (auth : Text) → Quiet c (write_appliance_secret sw id auth)
  unfolding write_appliance_secret
  Quiet-write_appliance_secret (client n) id auth = search (calls, Quiet-when_exists)
  Quiet-write_appliance_secret noop id auth = uses_ret tt

  pub Quiet-delete_appliance_secret :
      (sw : SecretWriter) (id : ℕ) → Quiet c (delete_appliance_secret sw id)
  unfolding delete_appliance_secret
  Quiet-delete_appliance_secret (client n) id = search (calls, Quiet-when_missing)
  Quiet-delete_appliance_secret noop id = uses_ret tt

  Quiet-decoded : (o : Option Access) → Quiet c (decoded o)
  Quiet-decoded none = uses_fail tt
  Quiet-decoded (some a) = uses_ret a

  Quiet-membership_answer : (x : External) (o : Option (ℕ × Text)) → Quiet c (membership_answer x o)
  Quiet-membership_answer x none = uses_fail tt
  Quiet-membership_answer x (some (status, body)) = search (calls, Quiet-decoded)

  pub Quiet-get_group_member :
      (x : External) (k : HttpClient) (g u : ℕ) → Quiet c (get_group_member x k g u)
  unfolding get_group_member
  Quiet-get_group_member x k g u = search (calls, Quiet-membership_answer)
