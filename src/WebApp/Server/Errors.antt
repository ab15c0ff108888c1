-- ===== src/WebApp/Server/Errors.antt =====
-- The parts of the handlers of internal/appliancewebapp/webapp.go, where nothing fails: how they end.
pub mod Handlers
pub mod Responses
use appliance_registry.Prelude.{
  ℕ, ◌≡◌, refl, sym, subst, Bool, true, false, Option, none, some, List, [], ◌∷◌, Text, arith,
  amend, text_eq,
}
use appliance_registry.External.{External, Backend}
use appliance_registry.Persistence.{Appliance, DbError, no_rows, pending, active}
use appliance_registry.World.{World, Database}
use appliance_registry.World.Statements.{has_id, set_hash, status_eq}
use appliance_registry.World.Rows.{appliance_of, appliance_of-id, row_of-amend}
use appliance_registry.Mariadb
use appliance_registry.Mariadb.Success.{Calm, mark_succeeds, ignore_succeeds}
use appliance_registry.Mariadb.Ends.{Missing, get_appliance_ends, get_appliance_secret_hash_ends}
use appliance_registry.Tokens.{bearer_token, hash_secret}
use appliance_registry.Program.{Prog, fail, on_error}
use appliance_registry.Program.Success.{Succeeds, handled_succeeds}
use appliance_registry.Program.Ends.{
  Ends, ends_ret, ends_fail, ends_Succeeds, ends_then, ends_on_error, ends_any, ends_guard,
}
use appliance_registry.WebApp.{
  WebApp, Failure, unauthorized, forbidden, not_found, conflict, too_many_requests, internal_error,
  bad_gateway, required, lookup_error, use_token, authenticate_appliance, require_owning_group,
}
use appliance_registry.WebApp.Claiming.{activate, expired_claim, expired_code}
use appliance_registry.WebApp.Claiming.Success.{publish_secret_succeeds}

-- Every response of an error but the status 500.
abbrev pub Explained : Failure → Type 0
Explained (unauthorized _) = Unit
Explained (forbidden _) = Unit
Explained (not_found _) = Unit
Explained (conflict _) = Unit
Explained (too_many_requests _) = Unit
Explained (internal_error _) = ⊥
Explained (bad_gateway _) = Unit

-- The row of an appliance that has been read, under its own id.
its_row :
    (db : Database) (id : ℕ) {a : Appliance}
    → appliance_of id db ≡ some a
    → appliance_of a.id db ≡ some a
its_row db id {a = a} row =
    subst (λ i. appliance_of i db ≡ some a) (sym (appliance_of-id id db row)) row

module _ {b : Backend} where
  pub required_ends :
      {A : Type 0} (f : Failure) (o : Option A) (w : World b)
      → Explained f
      → Ends (required f o) w Explained (λ a v. (o ≡ some a) × (v ≡ w))
  required_ends f none w h = ends_fail f w h
  required_ends f (some a) w h = ends_ret a w (refl, refl)

  lookup_error_ends :
      {A : Type 0} (f g : Failure) (e : DbError) (w : World b) {P : A → World b → Type 0}
      → Explained f
      → Missing e
      → Ends (lookup_error f g e) w Explained P
  lookup_error_ends f g e w {P = P} h m =
      subst (λ d. Ends (lookup_error f g d) w Explained P) (sym m) (ends_fail f w h)

  -- A look-up whose row may be missing, and nothing worse.
  pub looked_up_ends :
      {A : Type 0} (f g : Failure) {m : Prog DbError A} {w : World b} {P : A → World b → Type 0}
      → Explained f
      → Ends m w Missing P
      → Ends (on_error (lookup_error f g) m) w Explained P
  looked_up_ends f g h s = ends_on_error s λ d v m. lookup_error_ends f g d v h m

  pub sure_ends :
      {D A : Type 0} (h : D → Prog Failure A) {m : Prog D A} {w : World b}
      {P : A → World b → Type 0}
      → Succeeds m w P
      → Ends (on_error h m) w Explained P
  sure_ends h s = ends_Succeeds (handled_succeeds h s)

  -- A part whose error is reported with an explained status.
  pub or_fail_ends :
      {D A : Type 0} (f : Failure) (m : Prog D A) (w : World b)
      → Explained f
      → Ends (on_error (λ _. fail f) m) w Explained (λ _ _. Unit {0})
  or_fail_ends f m w h = ends_on_error (ends_any m w) λ d v _. ends_fail f v h

  module _ {db : Database} {entropy : List (Option (List ℕ))} where
    pub moved : {v w : World b} → v ≡ w → Calm w db entropy → Calm v db entropy
    moved e c = subst (λ u. Calm u db entropy) (sym e) c

    module _ (x : External) (app : WebApp) where
      pub authenticate_appliance_ends :
          (id : ℕ) (auth : Text) (w : World b)
          → Calm w db entropy
          → Ends
              (authenticate_appliance x app id auth)
              w
              Explained
              (λ a v. (appliance_of a.id db ≡ some a) × Calm v db entropy)
      unfolding authenticate_appliance
      authenticate_appliance_ends id auth w c =
          ends_then (required_ends _ (bearer_token auth) w tt) λ secret w₁ (_, e₁).
            ends_then (looked_up_ends _ _ tt (get_appliance_secret_hash_ends w₁ (moved e₁ c) id))
              λ stored w₂ c₂. ends_then (ends_guard _ _ w₂ tt) λ _ w₃ (_, e₃).
                ends_then (looked_up_ends _ _ tt (get_appliance_ends w₃ (moved e₃ c₂) id))
                  λ a w₄ (row, c₄).
                    ends_then (ends_guard _ _ w₄ tt)
                      λ _ w₅ (_, e₅). ends_ret a w₅ (its_row db id row, moved e₅ c₄)

      pub require_owning_group_ends :
          (id g : ℕ) (w : World b)
          → Calm w db entropy
          → Ends
              (require_owning_group x app id g)
              w
              Explained
              (λ a v. (a.id ≡ id) × (appliance_of a.id db ≡ some a) × Calm v db entropy)
      unfolding require_owning_group
      require_owning_group_ends id g w c =
          ends_then (looked_up_ends _ _ tt (get_appliance_ends w c id)) λ a w₁ (row, c₁).
            ends_then (ends_guard _ _ w₁ tt) λ _ w₂ (_, e₂).
              ends_ret a w₂ (appliance_of-id id db row, its_row db id row, moved e₂ c₁)

  module _ (x : External) (app : WebApp) where
    pub activate_ends :
        {db : Database} (buf : List ℕ) (rest : List (Option (List ℕ))) (id : ℕ) (w : World b)
        → Calm w db (some buf ∷ rest)
        → Ends (activate x app id) w Explained (λ _ _. Unit {0})
    unfolding activate
    activate_ends {db = db} buf rest id w c =
        ends_then (looked_up_ends _ _ tt (get_appliance_ends w c id)) λ a w₁ (row, c₁).
          ends_then (ends_guard _ _ w₁ tt) λ _ w₂ (waits, e₂).
            ends_then
              (ends_Succeeds
                (publish_secret_succeeds x app a.id w₂ buf rest (moved e₂ c₁) (its_row db id row)))
              λ secret w₃ c₃.
                let mine = its_row db id row in
                let hashed : appliance_of a.id w₃.db ≡ some a = ground (
                  arith,
                  mine,
                  c₃.same_db,
                  row_of-amend (set_hash (some (hash_secret x secret))) a.id a.id db (λ r. refl),
                ) in
                ends_then
                  (sure_ends _ (
                    mark_succeeds a.id w₃
                      (record {
                        no_faults = c₃.no_faults;
                        same_db = refl;
                        same_entropy = c₃.same_entropy;
                      })
                      hashed (ground (arith, waits))))
                  λ _ w₄ _. ends_ret (a, secret) w₄ tt

  pub expired_claim_ends :
      (id : ℕ) (late : Bool) (w : World b) → Ends (expired_claim id late) w Explained (λ _ v. v ≡ w)
  expired_claim_ends id true w =
      ends_then (ends_Succeeds (ignore_succeeds tt (Mariadb.delete_claim_token_of id) w))
        λ _ v _. ends_fail _ v tt
  expired_claim_ends id false w = ends_ret tt w refl

  pub expired_code_ends :
      (id : ℕ) (late : Bool) (w : World b) → Ends (expired_code id late) w Explained (λ _ v. v ≡ w)
  expired_code_ends id true w =
      ends_then (ends_Succeeds (ignore_succeeds tt (Mariadb.delete_enroll_exchange_code id) w))
        λ _ v _. ends_fail _ v tt
  expired_code_ends id false w = ends_ret tt w refl
