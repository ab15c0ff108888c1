-- ===== src/Mariadb/Steps.antt =====
-- How many calls the methods of internal/persistence/mariadb/mariadb.go make, and the helpers of the
-- other packages.
use appliance_registry.Prelude.{ℕ, ◌==◌, Option, none, some, Text}
use appliance_registry.External.{External, SecretKey}
use appliance_registry.Persistence.{ApplianceStatus, ApplianceFilter}
use appliance_registry.Mariadb
use appliance_registry.Tokens.{random_hex, generate_token, generate_appliance_secret}
use appliance_registry.Hostnames.{generate_label}
use appliance_registry.UserRegistry.Client.{
  HttpClient, decoded, membership_answer, get_group_member,
}
use appliance_registry.UserRegistry.Access.{Access}
use appliance_registry.K8sSecrets.{
  SecretWriter, client, noop, overwrite_secret, when_exists, when_missing, write_appliance_secret,
  delete_appliance_secret,
}
use appliance_registry.Program.{
  ApiError, already_exists, not_found, other, time_now, insert_appliance, update_status,
  update_claimed, update_secret_hash, select_one, select_secret_hash, prune_login_codes,
  insert_login_code, read_random, create_secret, get_secret, update_secret, delete_secret,
}
use appliance_registry.Program.Steps.{
  AtMost, at_ret, at_fail, AtMost->>=, AtMost-on_error, AtMost-if, AtMost-returned, AtMost-call,
}

pub AtMost-get_appliance : (id : ℕ) → AtMost 1 (Mariadb.get_appliance id)
unfolding Mariadb.get_appliance
AtMost-get_appliance id = AtMost-call _ AtMost-returned

pub AtMost-create_appliance :
    (name label : Text) (g : ℕ) → AtMost 2 (Mariadb.create_appliance name label g)
unfolding Mariadb.create_appliance
AtMost-create_appliance name label g =
    AtMost->>= (AtMost-call (insert_appliance name label g) AtMost-returned) AtMost-get_appliance

pub AtMost-list_appliances_for_group :
    (g : ℕ) (f : ApplianceFilter) → AtMost 1 (Mariadb.list_appliances_for_group g f)
unfolding Mariadb.list_appliances_for_group
AtMost-list_appliances_for_group g f = AtMost-call _ AtMost-returned

pub AtMost-list_appliances_by_status :
    (st : ApplianceStatus) → AtMost 1 (Mariadb.list_appliances_by_status st)
unfolding Mariadb.list_appliances_by_status
AtMost-list_appliances_by_status st = AtMost-call _ AtMost-returned

pub AtMost-set_appliance_status :
    (id : ℕ) (st : ApplianceStatus) → AtMost 1 (Mariadb.set_appliance_status id st)
unfolding Mariadb.set_appliance_status
AtMost-set_appliance_status id st =
    AtMost->>= (AtMost-call (update_status id st) AtMost-returned)
      λ n. AtMost-if (n == 0) (at_fail 0 _) (at_ret 0 _)

pub AtMost-mark_appliance_claimed : (id : ℕ) → AtMost 1 (Mariadb.mark_appliance_claimed id)
unfolding Mariadb.mark_appliance_claimed
AtMost-mark_appliance_claimed id =
    AtMost->>= (AtMost-call (update_claimed id) AtMost-returned)
      λ n. AtMost-if (n == 0) (at_fail 0 _) (at_ret 0 _)

pub AtMost-save_claim_token :
    (id : ℕ) (hash : Text) (t : ℕ) → AtMost 1 (Mariadb.save_claim_token id hash t)
unfolding Mariadb.save_claim_token
AtMost-save_claim_token id hash t = AtMost-call _ AtMost-returned

pub AtMost-get_claim_token : (id : ℕ) → AtMost 1 (Mariadb.get_claim_token id)
unfolding Mariadb.get_claim_token
AtMost-get_claim_token id = AtMost-call _ AtMost-returned

pub AtMost-delete_claim_token_of : (id : ℕ) → AtMost 1 (Mariadb.delete_claim_token_of id)
unfolding Mariadb.delete_claim_token_of
AtMost-delete_claim_token_of id = AtMost-call _ AtMost-returned

pub AtMost-save_enroll_exchange_code :
    (id : ℕ) (k h : Text) (t : ℕ) → AtMost 1 (Mariadb.save_enroll_exchange_code id k h t)
unfolding Mariadb.save_enroll_exchange_code
AtMost-save_enroll_exchange_code id k h t = AtMost-call _ AtMost-returned

pub AtMost-get_enroll_exchange_code : (id : ℕ) → AtMost 1 (Mariadb.get_enroll_exchange_code id)
unfolding Mariadb.get_enroll_exchange_code
AtMost-get_enroll_exchange_code id = AtMost-call _ AtMost-returned

pub AtMost-delete_enroll_exchange_code :
    (id : ℕ) → AtMost 1 (Mariadb.delete_enroll_exchange_code id)
unfolding Mariadb.delete_enroll_exchange_code
AtMost-delete_enroll_exchange_code id = AtMost-call _ AtMost-returned

pub AtMost-set_appliance_secret_hash :
    (id : ℕ) (h : Option Text) → AtMost 2 (Mariadb.set_appliance_secret_hash id h)
unfolding Mariadb.set_appliance_secret_hash
AtMost-set_appliance_secret_hash id h =
    AtMost->>= (AtMost-call (update_secret_hash id h) AtMost-returned)
      λ n. AtMost-if (n == 0) (AtMost-call (select_one id) AtMost-returned) (at_ret 1 _)

pub AtMost-get_appliance_secret_hash : (id : ℕ) → AtMost 1 (Mariadb.get_appliance_secret_hash id)
unfolding Mariadb.get_appliance_secret_hash
AtMost-get_appliance_secret_hash id =
    AtMost->>= (AtMost-call (select_secret_hash id) AtMost-returned) λ _. at_ret 0 _

pub AtMost-save_login_code : (h : Text) (id u t : ℕ) → AtMost 3 (Mariadb.save_login_code h id u t)
unfolding Mariadb.save_login_code
AtMost-save_login_code h id u t = AtMost->>= (AtMost-call time_now (at_ret 0)) λ now.
    AtMost->>= (AtMost-call (prune_login_codes now) AtMost-returned)
      λ _. AtMost-call (insert_login_code _) AtMost-returned

pub AtMost-consume_login_code : (h : Text) (id : ℕ) → AtMost 1 (Mariadb.consume_login_code h id)
unfolding Mariadb.consume_login_code
AtMost-consume_login_code h id = AtMost-call _ AtMost-returned

AtMost-random_hex : (n : ℕ) → AtMost 1 (random_hex n)
unfolding random_hex
AtMost-random_hex n = AtMost-call (read_random n) λ o.
    elim o as (λ o. AtMost 0 (elim o [ none ↦ _ | some buf ↦ _ ])) [
      | none ↦ at_fail 0 tt
      | some buf ↦ at_ret 0 _
    ]

pub AtMost-generate_token : (x : External) → AtMost 1 (generate_token x)
unfolding generate_token
AtMost-generate_token x = AtMost->>= (AtMost-random_hex 32) λ _. at_ret 0 _

pub AtMost-generate_appliance_secret : (id : ℕ) → AtMost 1 (generate_appliance_secret id)
unfolding generate_appliance_secret
AtMost-generate_appliance_secret id = AtMost->>= (AtMost-random_hex 24) λ _. at_ret 0 _

pub AtMost-generate_label : (x : External) (name : Text) → AtMost 1 (generate_label x name)
unfolding generate_label
AtMost-generate_label x name = AtMost->>= (AtMost-random_hex _) λ _. at_ret 0 _

AtMost-overwrite_secret : (k : SecretKey) (auth : Text) → AtMost 2 (overwrite_secret k auth)
unfolding overwrite_secret
AtMost-overwrite_secret k auth =
    AtMost->>= (AtMost-call (get_secret k) AtMost-returned)
      λ s. AtMost-call (update_secret k (record s { auth = auth })) AtMost-returned

AtMost-when_exists : (k : SecretKey) (auth : Text) (e : ApiError) → AtMost 2 (when_exists k auth e)
AtMost-when_exists k auth already_exists = AtMost-overwrite_secret k auth
AtMost-when_exists k auth not_found = at_fail 2 not_found
AtMost-when_exists k auth other = at_fail 2 other

AtMost-when_missing : (e : ApiError) → AtMost 0 (when_missing e)
AtMost-when_missing already_exists = at_fail 0 already_exists
AtMost-when_missing not_found = at_ret 0 tt
AtMost-when_missing other = at_fail 0 other

pub AtMost-write_appliance_secret :
    (sw : SecretWriter) (id : ℕ) (auth : Text) → AtMost 3 (write_appliance_secret sw id auth)
unfolding write_appliance_secret
AtMost-write_appliance_secret (client n) id auth =
    AtMost-on_error (AtMost-call (create_secret _ _) AtMost-returned) (AtMost-when_exists _ auth)
AtMost-write_appliance_secret noop id auth = at_ret 3 tt

pub AtMost-delete_appliance_secret :
    (sw : SecretWriter) (id : ℕ) → AtMost 1 (delete_appliance_secret sw id)
unfolding delete_appliance_secret
AtMost-delete_appliance_secret (client n) id =
    AtMost-on_error (AtMost-call (delete_secret _) AtMost-returned) AtMost-when_missing
AtMost-delete_appliance_secret noop id = at_ret 1 tt

AtMost-decoded : (o : Option Access) → AtMost 0 (decoded o)
AtMost-decoded none = at_fail 0 tt
AtMost-decoded (some a) = at_ret 0 a

AtMost-membership_answer : (x : External) (o : Option (ℕ × Text)) → AtMost 0 (membership_answer x o)
AtMost-membership_answer x none = at_fail 0 tt
AtMost-membership_answer x (some (status, body)) =
    AtMost-if (status == 200) (AtMost-decoded (x.decode_access body)) (at_fail 0 tt)

pub AtMost-get_group_member :
    (x : External) (k : HttpClient) (g u : ℕ) → AtMost 1 (get_group_member x k g u)
unfolding get_group_member
AtMost-get_group_member x k g u = AtMost-call _ (AtMost-membership_answer x)
