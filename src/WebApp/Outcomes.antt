-- ===== src/WebApp/Outcomes.antt =====
-- What the shared helpers of internal/appliancewebapp/webapp.go have done where they return.
use appliance_registry.Prelude.{
  ℕ, ◌+◌, ◌≡◌, ◌≢◌, refl, Bool, true, false, Option, none, some, Result, Text, text, text_eq_iff,
  ok, arith, inl, inr, Option-cases,
}
use appliance_registry.External.{External, Backend, Identity}
use appliance_registry.Persistence.{Appliance, active, DbError, no_rows, duplicate, unavailable}
use appliance_registry.World.{World}
use appliance_registry.World.Codes
use appliance_registry.World.Rows.{appliance_of, hash_of}
use appliance_registry.Mariadb
use appliance_registry.Mariadb.Results
use appliance_registry.Mariadb.Results.{SameStores, Wrote}
use appliance_registry.Tokens.{bearer_token, hash_secret}
use appliance_registry.Program.{ret, call, on_error, ignore, time_now, guard, ◌>>=◌, ◌>>◌}
use appliance_registry.Program.Run.{run, perform, tick}
use appliance_registry.Program.Rules.{IsFail, after_handled, after_ret}
use appliance_registry.WebApp.{
  WebApp, Failure, Handler, required, lookup_error, use_token, authenticate_appliance,
  require_owning_group,
}

pub lookup_error-IsFail :
    (A : Type 0) (f g : Failure) (e : DbError) → IsFail (lookup_error {A = A} f g e)
lookup_error-IsFail A f g no_rows = tt
lookup_error-IsFail A f g duplicate = tt
lookup_error-IsFail A f g unavailable = tt

module _ {b : Backend} {G : Type 0} where
  pub after_required :
      {A B : Type 0} (f : Failure) {o : Option A} (k : A → Handler B) (w : World b) {c : B}
      {w' : World b}
      → run (required f o >>= k) w ≡ (ok c, w')
      → ((a : A) → o ≡ some a → run (k a) w ≡ (ok c, w') → G)
      → G
  unfolding run ◌>>=◌
  after_required f {o = none} k w h g = cc
  after_required f {o = some a} k w h g = g a refl h

  pub after_guard :
      {B : Type 0} (f : Failure) {p : Bool} (m : Handler B) (w : World b) {c : B} {w' : World b}
      → run (guard p f >> m) w ≡ (ok c, w')
      → (p ≡ true → run m w ≡ (ok c, w') → G)
      → G
  unfolding run ◌>>=◌
  after_guard f {p = false} m w h g = cc
  after_guard f {p = true} m w h g = g refl h

  pub after_lookup :
      {A B : Type 0} (f g : Failure) (m : Mariadb.Query A) (k : A → Handler B) (w : World b) {c : B}
      {w' : World b}
      → run (on_error (lookup_error f g) m >>= k) w ≡ (ok c, w')
      → ((a : A) (v : World b) → run m w ≡ (ok a, v) → run (k a) v ≡ (ok c, w') → G)
      → G
  after_lookup {A = A} f g m n w h k =
      after_handled (lookup_error f g) m n w h (lookup_error-IsFail A f g) k

module _ {b : Backend} where
  -- A reading of the clock.
  pub record Read (w : World b) (now : ℕ) (w' : World b) : Type 0 where
    pub reading : now ≡ w.clock + tick w.ticks
    pub new_clock : w'.clock ≡ now
    pub same_db : w'.db ≡ w.db
    pub same_cluster : w'.cluster ≡ w.cluster
    pub same_replies : w'.replies ≡ w.replies

  pub time_now-eq-ok :
      {E : Type 0} (w : World b) {now : ℕ} {w' : World b}
      → run {E = E} (call time_now ret) w ≡ (ok now, w')
      → Read w now w'
  unfolding run perform
  time_now-eq-ok w h = ground arith

  -- What becomes of an ignored deletion, the appliances and the Secrets stay.
  pub record SameAppliances (w w' : World b) : Type 0 where
    pub same_appliances : w'.appliances ≡ w.appliances
    pub same_cluster : w'.cluster ≡ w.cluster

  pub ignore-delete_claim_token :
      (id : ℕ) (w : World b) {r : Result Failure (Unit {0})} {w' : World b}
      → run (ignore {E = Failure} tt (Mariadb.delete_claim_token_of id)) w ≡ (r, w')
      → SameAppliances w w'
  unfolding run perform on_error Mariadb.delete_claim_token_of Codes.delete_claim_token
  ignore-delete_claim_token id w h = ground arith

  pub ignore-delete_exchange_code :
      (id : ℕ) (w : World b) {r : Result Failure (Unit {0})} {w' : World b}
      → run (ignore {E = Failure} tt (Mariadb.delete_enroll_exchange_code id)) w ≡ (r, w')
      → SameAppliances w w'
  unfolding run perform on_error Mariadb.delete_enroll_exchange_code Codes.delete_exchange_code
  ignore-delete_exchange_code id w h = ground arith

  pub SameStores-trans : {u v w : World b} → SameStores u v → SameStores v w → SameStores u w
  SameStores-trans h k = ground arith

  module _ (x : External) (app : WebApp) where
    -- The appliance that authenticates: its secret is presented, and it is active.
    pub record Authenticated (w : World b) (id : ℕ) (header : Text) (a : Appliance) : Type 0 where
      pub secret : Text
      pub presented : bearer_token header ≡ some secret
      pub known : hash_of id w.db ≡ some (hash_secret x secret)
      pub not_empty : hash_secret x secret ≢ text ""
      pub its_row : appliance_of id w.db ≡ some a
      pub is_active : a.status ≡ active

    -- Whatever fails or passes, an appliance that authenticates is active and presents the secret whose
    -- hash is in its row, and that hash is not empty; nothing is changed by it.
    pub authenticate_appliance-eq-ok :
        (id : ℕ) (header : Text) (w : World b) {a : Appliance} {w' : World b}
        → run (authenticate_appliance x app id header) w ≡ (ok a, w')
        → Authenticated w id header a × SameStores w w'
    unfolding authenticate_appliance run
    authenticate_appliance-eq-ok id header w h = after_required _ _ _ h λ secret bearer h₁.
        after_lookup _ _ _ _ _ h₁ λ stored w₁ read h₂. after_guard _ _ _ h₂ λ equal h₃.
          after_lookup _ _ _ _ _ h₃ λ found w₂ got h₄. after_guard _ _ _ h₄ λ live h₅.
            let (hash, s₁) = Mariadb.Results.get_appliance_secret_hash-eq-ok id w read in
            let (row, s₂) = Mariadb.Results.get_appliance-eq-ok id w₁ got in
            (
              record {
                secret = secret;
                presented = bearer;
                known = ground (arith, text_eq_iff (hash_secret x secret) stored);
                not_empty = ground (
                  arith,
                  text_eq_iff (hash_secret x secret) stored,
                  text_eq_iff stored (text ""),
                );
                its_row = ground arith;
                is_active = ground arith;
              },
              ground arith,
            )

    pub use_token-eq-ok :
        (auth : Text) (w : World b) {who : Identity} {w' : World b}
        → run (use_token x app auth) w ≡ (ok who, w')
        → (x.verify auth ≡ some who) × (w ≡ w')
    unfolding use_token run
    use_token-eq-ok auth w h = elim (Option-cases (x.verify auth)) [
      | inl e ↦ ground arith
      | inr (who, e) ↦ ground arith
    ]

    pub require_owning_group-eq-ok :
        (id g : ℕ) (w : World b) {a : Appliance} {w' : World b}
        → run (require_owning_group x app id g) w ≡ (ok a, w')
        → (appliance_of id w.db ≡ some a) × (a.group_id ≡ g) × SameStores w w'
    unfolding require_owning_group
    require_owning_group-eq-ok id g w h = after_lookup _ _ _ _ _ h λ found w₁ read h₁.
        after_guard _ _ _ h₁ λ owned h₂.
          let (row, s) = Mariadb.Results.get_appliance-eq-ok id w read in
          after_ret (λ a v. (appliance_of id w.db ≡ some a) × (a.group_id ≡ g) × SameStores w v)
            found w₁ h₂ (row, ground arith, s)
