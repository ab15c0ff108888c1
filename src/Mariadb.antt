-- ===== src/Mariadb.antt =====
-- internal/persistence/mariadb/mariadb.go: each method is the statements that it executes.
pub mod Success
pub mod Results
pub mod Footprint
pub mod Steps
pub mod Ends
pub mod Store
use appliance_registry.Prelude.{ℕ, zero, Option, none, some, List, [], Text, ◌==◌, if◌then◌else◌}
use appliance_registry.Persistence.{
  ApplianceStatus, Appliance, ClaimToken, EnrollExchangeCode, LoginCode, ApplianceFilter, DbError,
  no_rows,
}
use appliance_registry.World.Rows.{null_string}
use appliance_registry.Program.{
  Prog, ret, fail, call, returned, ◌>>=◌, ◌>>◌, insert_appliance, select_appliance, select_one,
  select_secret_hash, select_group, select_status, update_status, update_claimed,
  update_secret_hash, upsert_claim_token, select_claim_token, delete_claim_token,
  upsert_exchange_code, select_exchange_code, delete_exchange_code, prune_login_codes,
  insert_login_code, take_login_code, time_now,
}

abbrev pub Query : Type 0 → Type 0
Query A = Prog DbError A

unfoldable pub get_appliance : ℕ → Query Appliance
get_appliance id = call (select_appliance id) returned

unfoldable pub create_appliance : Text → Text → ℕ → Query Appliance
unfolding get_appliance
create_appliance name label group_id = do
  id ← call (insert_appliance name label group_id) returned
  get_appliance id

unfoldable pub list_appliances_for_group : ℕ → ApplianceFilter → Query (List Appliance)
list_appliances_for_group group_id filter = call (select_group group_id filter) returned

unfoldable pub list_appliances_by_status : ApplianceStatus → Query (List Appliance)
list_appliances_by_status status = call (select_status status) returned

-- The test of RowsAffected.
abbrev some_row : ℕ → Query (Unit {0})
some_row n = if n == 0 then fail no_rows else ret tt

unfoldable pub set_appliance_status : ℕ → ApplianceStatus → Query (Unit {0})
set_appliance_status id status = do n ← call (update_status id status) returned; some_row n

unfoldable pub mark_appliance_claimed : ℕ → Query (Unit {0})
mark_appliance_claimed id = do n ← call (update_claimed id) returned; some_row n

unfoldable pub save_claim_token : ℕ → Text → ℕ → Query (Unit {0})
save_claim_token id hash expires_at =
    call
      (upsert_claim_token
        (record { appliance_id = id; token_hash = hash; expires_at = expires_at }))
      returned

unfoldable pub get_claim_token : ℕ → Query ClaimToken
get_claim_token id = call (select_claim_token id) returned

unfoldable pub delete_claim_token_of : ℕ → Query (Unit {0})
delete_claim_token_of id = call (delete_claim_token id) returned

unfoldable pub save_enroll_exchange_code : ℕ → Text → Text → ℕ → Query (Unit {0})
save_enroll_exchange_code id code_hash claim_token_hash expires_at =
    call
      (upsert_exchange_code (record {
        appliance_id = id;
        code_hash = code_hash;
        claim_token_hash = claim_token_hash;
        expires_at = expires_at;
      }))
      returned

unfoldable pub get_enroll_exchange_code : ℕ → Query EnrollExchangeCode
get_enroll_exchange_code id = call (select_exchange_code id) returned

unfoldable pub delete_enroll_exchange_code : ℕ → Query (Unit {0})
delete_enroll_exchange_code id = call (delete_exchange_code id) returned

-- RowsAffected is 0 also where nothing changes, so the row is looked for.
unfoldable pub set_appliance_secret_hash : ℕ → Option Text → Query (Unit {0})
set_appliance_secret_hash id hash = do
  n ← call (update_secret_hash id hash) returned
  if n == 0 then call (select_one id) returned else ret tt

unfoldable pub get_appliance_secret_hash : ℕ → Query Text
get_appliance_secret_hash id = do
  hash ← call (select_secret_hash id) returned
  ret (null_string hash)

unfoldable pub save_login_code : Text → ℕ → ℕ → ℕ → Query (Unit {0})
save_login_code code_hash id user_id expires_at = do
  now ← call time_now ret
  call (prune_login_codes now) returned
  call
      (insert_login_code (record {
        code_hash = code_hash;
        appliance_id = id;
        user_id = user_id;
        expires_at = expires_at;
      }))
      returned

unfoldable pub consume_login_code : Text → ℕ → Query LoginCode
consume_login_code code_hash id = call (take_login_code code_hash id) returned
