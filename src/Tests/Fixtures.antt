-- ===== src/Tests/Fixtures.antt =====
-- A service with four appliances, and the environment that it runs in.
use appliance_registry.Prelude.{
  ℕ, ◌+◌, Option, none, some, [], ◌∷◌, Text, text, text_eq, find, keep, amend, insert_by, sort_by,
  if◌then◌else◌, refl, true,
}
use appliance_registry.External.{External, Secret, SecretKey, key_eq, SecretStore, Backend}
use appliance_registry.Persistence.{ApplianceStatus, pending, active, revoked}
use appliance_registry.World.{Row, Database, World}
use appliance_registry.UserRegistry.Access.{User}
use appliance_registry.K8sSecrets.{client}
use appliance_registry.Text.{
  hex, hex_digit, is_space, trim_left, trim, trim_space, cut_prefix, decimal, decimal_from,
}
use appliance_registry.Text
use appliance_registry.Text.Decimal
use appliance_registry.Clock
use appliance_registry.Config
use appliance_registry.Startup
use appliance_registry.Tokens
use appliance_registry.Hostnames
use appliance_registry.K8sSecrets
use appliance_registry.Mariadb
use appliance_registry.World.Statements
use appliance_registry.World.Codes
use appliance_registry.Program
use appliance_registry.Program.Run
use appliance_registry.Program.Run.{run, perform}
use appliance_registry.UserRegistry.Client
use appliance_registry.WebApp
use appliance_registry.WebApp.{WebApp}
use appliance_registry.WebApp.Registration
use appliance_registry.WebApp.Claiming
use appliance_registry.WebApp.Rotation
use appliance_registry.WebApp.Login
use appliance_registry.WebApp.Listing
use appliance_registry.WebApp.Server

abbrev pub store : SecretStore
store = record {
  Cluster = SecretKey → Option Secret;
  lookup = λ c k. c k;
  store = λ c k s j. if key_eq k j then some s else c j;
  remove = λ c k j. if key_eq k j then none else c j;
  lookup-store = λ c k j s. refl;
  lookup-remove = λ c k j. refl;
}

abbrev pub backend : Backend
backend = record { secrets = store; column_time = λ t. t; collate = text_eq }

abbrev pub alice : User
alice = record {
  id = 7;
  username = text "alice";
  name = text "Alice";
  surname = text "A";
  email = text "a@b";
}

abbrev pub env : External
env = record {
  verify = λ auth.
      if text_eq auth (text "use") then some (record { user_id = 7; group_id = 3 }) else none;
  sha256 = λ s. s;
  lower_wide = λ c. c;
  decode_access = λ body.
      if text_eq body (text "yes")
      then some (record { is_member = true; user = some alice })
      else none;
}

abbrev pub app : WebApp
app = record {
  service_tokens = text "svc" ∷ [];
  plugin_tokens = [];
  claim_token_expiry = 100;
  exchange_code_expiry = 50;
  base_domain = text "x.io";
  secret_writer = client (text "ns");
  user_registry = record { base_url = text "u"; service_token = text "t" };
}

abbrev pub row : ℕ → ApplianceStatus → ℕ → Option Text → Row
row id status group_id hash = record {
  appliance = record {
    id = id;
    name = text "n";
    hostname_label = (97 + id) ∷ [];
    group_id = group_id;
    status = status;
    created_at = 1;
    claimed_at = none;
    last_seen_at = none;
  };
  secret_hash = hash;
}

-- The hash of a secret is its hexadecimal text here.
abbrev pub tables : Database
tables = record {
  appliances =
      row 1 pending 3 none
      ∷ row 2 active 3 (some (text "7332"))
      ∷ row 3 revoked 3 none
      ∷ row 4 active 9 none
      ∷ [];
  next_id = 5;
  claim_tokens = record { appliance_id = 1; token_hash = text "746b"; expires_at = 60 } ∷ [];
  exchange_codes =
      record {
        appliance_id = 1;
        code_hash = text "6364";
        claim_token_hash = text "746b";
        expires_at = 60;
      }
      ∷ [];
  login_codes =
      record { code_hash = text "6c63"; appliance_id = 2; user_id = 7; expires_at = 60 } ∷ [];
}

-- The user registry knows that user 7 is a member of group 3, and of nothing else.
abbrev about_alice : Text → Text → Option (ℕ × Text)
about_alice url bearer =
    if text_eq url (text "u/cloud-user-registry/v0/internal/groups/3/members/7")
    then some (200, text "yes")
    else some (404, [])

abbrev pub start : World backend
start = record {
  db = tables;
  cluster = λ k. none;
  faults = [];
  clock = 10;
  ticks = 1 ∷ 1 ∷ [];
  entropy = some (1 ∷ 2 ∷ 3 ∷ []) ∷ some (4 ∷ 5 ∷ []) ∷ some (6 ∷ []) ∷ [];
  replies = about_alice ∷ [];
  permits = [];
}

-- All that a run needs to compute.
unfoldable pub everything : Unit {0}
unfolding text_eq find keep amend insert_by sort_by Text.is_space Text.trim_left Text.trim
    Text.trim_space Text.cut_prefix Text.split Text.replace_runs Text.hex_digit Text.hex
    Text.decimal_from Text.decimal Decimal.value_from Decimal.value Clock.minutes Clock.after
    Config.validate_database Config.validate_auth Config.validate_user_registry
    Config.validate_hostname Config.validate_kubernetes Config.validate Config.load
    Startup.print_int Startup.data_source_name Startup.new_secret_writer Startup.new_web_app
    Startup.start Tokens.bearer_token Tokens.hash_secret Tokens.random_hex Tokens.generate_token
    Tokens.generate_appliance_secret Tokens.trimmed_tokens Tokens.parse_token_list Tokens.any_equal
    Tokens.check_service_tokens Hostnames.lower Hostnames.to_lower Hostnames.is_label_char
    Hostnames.cut_name Hostnames.sanitize Hostnames.generate_label Hostnames.full_hostname
    K8sSecrets.secret_name K8sSecrets.overwrite_secret K8sSecrets.write_appliance_secret
    K8sSecrets.delete_appliance_secret Mariadb.get_appliance Mariadb.create_appliance
    Mariadb.list_appliances_for_group Mariadb.list_appliances_by_status Mariadb.set_appliance_status
    Mariadb.mark_appliance_claimed Mariadb.save_claim_token Mariadb.get_claim_token
    Mariadb.delete_claim_token_of Mariadb.save_enroll_exchange_code Mariadb.get_enroll_exchange_code
    Mariadb.delete_enroll_exchange_code Mariadb.set_appliance_secret_hash
    Mariadb.get_appliance_secret_hash Mariadb.save_login_code Mariadb.consume_login_code
    Statements.row_of Statements.insert_appliance Statements.select_appliance
    Statements.matches_filter Statements.select_group Statements.select_status
    Statements.update_status Statements.update_claimed Statements.update_secret_hash
    Statements.select_one Statements.select_secret_hash Codes.upsert_claim_token
    Codes.select_claim_token Codes.delete_claim_token Codes.upsert_exchange_code
    Codes.select_exchange_code Codes.delete_exchange_code Codes.prune_login_codes
    Codes.insert_login_code Codes.take_login_code Program.◌>>=◌ Program.on_error Run.perform Run.run
    Client.membership_url Client.get_group_member WebApp.use_token WebApp.store_secret_hash
    WebApp.authenticate_appliance WebApp.hostname WebApp.to_appliance_response WebApp.tunnel_url
    WebApp.require_owning_group Registration.create_appliance_from
    Registration.create_appliance_with_retry Registration.issue_claim_token Registration.register
    Registration.enroll Claiming.publish_secret Claiming.activate Claiming.claim
    Claiming.enroll_redeem Rotation.revoke Rotation.issue_new_secret Rotation.rotate_secret
    Rotation.rotate_own_secret Login.create_login_code Login.redeem_login_code Login.check_access
    Listing.appliance_list_response Listing.list_appliances Listing.plugin_parameter
    Listing.plugin_get_params Server.serve Server.serve_all
everything = tt
