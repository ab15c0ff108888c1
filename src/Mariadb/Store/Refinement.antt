-- ===== src/Mariadb/Store/Refinement.antt =====
-- internal/persistence/mariadb/mariadb.go, as an implementation of persistence.ApplianceRegistryDB.
use appliance_registry.Prelude.{ℕ, ◌+◌, ◌<◌, ◌≡◌, refl, true, none, List, [], ◌∷◌, arith, find, All}
use appliance_registry.External.{Backend}
use appliance_registry.World.{Row, World}
use appliance_registry.World.Statements.{has_id, row_of}
use appliance_registry.World.Integrity.{IsConsistent}
use appliance_registry.Program.Run.{run, tick}
use appliance_registry.Mariadb.Store
use appliance_registry.Mariadb.Store.{Method, view, exec, spec, is_kept}
use appliance_registry.Mariadb.Store.Reads.{
  observe, get_appliance-Refines, get_claim_token-Refines, get_enroll_exchange_code-Refines,
  get_appliance_secret_hash-Refines,
}
use appliance_registry.Mariadb.Store.Tokens.{
  delete_claim_token-Refines, delete_enroll_exchange_code-Refines, save_claim_token-Refines,
  save_enroll_exchange_code-Refines,
}
use appliance_registry.Mariadb.Store.Rows.{
  set_appliance_status-Refines, mark_appliance_claimed-Refines, set_appliance_secret_hash-Refines,
  create_appliance-Refines,
}
use appliance_registry.Mariadb.Store.Logins.{consume_login_code-Refines, save_login_code-Refines}

pub below_is_free :
    (n : ℕ) (rows : List Row) → All (λ (r : Row). r.id < n) rows → find (has_id n) rows ≡ none
unfolding find
below_is_free n [] h = refl
below_is_free n (r ∷ rows) (low, h) = ground (arith, low, below_is_free n rows h)

-- Where no call fails and the tables keep their keys and foreign keys, each method of
-- ApplianceRegistryDB, but the two that list appliances, does on the tables what it promises to do on
-- maps: it returns the promised result or error, and leaves the promised maps. MarkApplianceClaimed is
-- promised to move an appliance from pending to active, and does so for one that is pending or
-- missing; SetApplianceStatus is promised to set the status, and does so for one that has another
-- status or is missing. Nothing is stated of the two on other appliances.
pub exec-Refines :
    {b : Backend} (m : Method) (w : World b)
    → w.faults ≡ []
    → IsConsistent w.db
    → is_kept m (view w.db) ≡ true
    → observe (run (exec m) w) ≡ spec b.column_time w.clock (w.clock + tick w.ticks) m (view w.db)
unfolding row_of
exec-Refines (Store.create_appliance name label g) w calm h kept =
    create_appliance-Refines w calm name label g (below_is_free w.next_id w.appliances h.0.below)
exec-Refines (Store.get_appliance id) w calm h kept = get_appliance-Refines w calm id
exec-Refines (Store.set_appliance_status id s) w calm h kept =
    set_appliance_status-Refines w calm id s kept
exec-Refines (Store.mark_appliance_claimed id) w calm h kept =
    mark_appliance_claimed-Refines w calm id kept
exec-Refines (Store.save_claim_token id hash t) w calm h kept =
    save_claim_token-Refines w calm id hash t
exec-Refines (Store.get_claim_token id) w calm h kept = get_claim_token-Refines w calm id
exec-Refines (Store.delete_claim_token id) w calm h kept = delete_claim_token-Refines w calm id
exec-Refines (Store.save_enroll_exchange_code id hash token t) w calm h kept =
    save_enroll_exchange_code-Refines w calm id hash token t
exec-Refines (Store.get_enroll_exchange_code id) w calm h kept =
    get_enroll_exchange_code-Refines w calm id
exec-Refines (Store.delete_enroll_exchange_code id) w calm h kept =
    delete_enroll_exchange_code-Refines w calm id
exec-Refines (Store.set_appliance_secret_hash id hash) w calm h kept =
    set_appliance_secret_hash-Refines w calm id hash
exec-Refines (Store.get_appliance_secret_hash id) w calm h kept =
    get_appliance_secret_hash-Refines w calm id
exec-Refines (Store.save_login_code hash id user t) w calm h kept =
    let (_, (_, (_, logins))) = h in save_login_code-Refines w calm logins.distinct hash id user t
exec-Refines (Store.consume_login_code hash id) w calm h kept =
    let (_, (_, (_, logins))) = h in consume_login_code-Refines w calm logins.distinct hash id
