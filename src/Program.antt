-- ===== src/Program.antt =====
-- The shape of a handler: a sequence of calls to the services, each followed by what the code does
-- with the answer. A call is one step that nothing interrupts; between two calls of a request other
-- requests may run.
use appliance_registry.Prelude.{ℕ, Bool, Option, List, Text, Result, ok, err}
use appliance_registry.Persistence.{
  ApplianceStatus, Appliance, ClaimToken, EnrollExchangeCode, LoginCode, ApplianceFilter, DbError,
}
use appliance_registry.External.{Secret, SecretKey}
pub mod Run
pub mod Rules
pub mod Success
pub mod Footprint
pub mod Steps
pub mod Ends
pub mod LoginCodes
pub mod Invariants

-- IsAlreadyExists, IsNotFound, and every other error of the API server.
pub data ApiError : Type 0 where
  already_exists not_found other : ApiError

pub data Op : Type 0 where
  insert_appliance : (name label : Text) (group_id : ℕ) → Op
  select_appliance select_one select_secret_hash : (id : ℕ) → Op
  select_group : (group_id : ℕ) → ApplianceFilter → Op
  select_status : ApplianceStatus → Op
  update_status : (id : ℕ) → ApplianceStatus → Op
  update_claimed : (id : ℕ) → Op
  update_secret_hash : (id : ℕ) → Option Text → Op
  upsert_claim_token : ClaimToken → Op
  select_claim_token delete_claim_token : (id : ℕ) → Op
  upsert_exchange_code : EnrollExchangeCode → Op
  select_exchange_code delete_exchange_code : (id : ℕ) → Op
  prune_login_codes : (now : ℕ) → Op
  insert_login_code : LoginCode → Op
  take_login_code : (hash : Text) (id : ℕ) → Op
  create_secret update_secret : SecretKey → Secret → Op
  get_secret delete_secret : SecretKey → Op
  read_random : (bytes : ℕ) → Op
  time_now limiter_allow : Op
  http_get : (url bearer : Text) → Op

abbrev pub Answer : Op → Type 0
Answer (insert_appliance _ _ _) = Result DbError ℕ
Answer (select_appliance _) = Result DbError Appliance
Answer (select_one _) = Result DbError (Unit {0})
Answer (select_secret_hash _) = Result DbError (Option Text)
Answer (select_group _ _) = Result DbError (List Appliance)
Answer (select_status _) = Result DbError (List Appliance)
Answer (update_status _ _) = Result DbError ℕ
Answer (update_claimed _) = Result DbError ℕ
Answer (update_secret_hash _ _) = Result DbError ℕ
Answer (upsert_claim_token _) = Result DbError (Unit {0})
Answer (select_claim_token _) = Result DbError ClaimToken
Answer (delete_claim_token _) = Result DbError (Unit {0})
Answer (upsert_exchange_code _) = Result DbError (Unit {0})
Answer (select_exchange_code _) = Result DbError EnrollExchangeCode
Answer (delete_exchange_code _) = Result DbError (Unit {0})
Answer (prune_login_codes _) = Result DbError (Unit {0})
Answer (insert_login_code _) = Result DbError (Unit {0})
Answer (take_login_code _ _) = Result DbError LoginCode
Answer (create_secret _ _) = Result ApiError (Unit {0})
Answer (update_secret _ _) = Result ApiError (Unit {0})
Answer (get_secret _) = Result ApiError Secret
Answer (delete_secret _) = Result ApiError (Unit {0})
Answer (read_random _) = Option (List ℕ)
Answer time_now = ℕ
Answer limiter_allow = Bool
Answer (http_get _ _) = Option (ℕ × Text)

-- `fail` is a return with an error.
pub data Prog {ℓ} (E A : Type ℓ) : Type ℓ where
  ret : A → Prog E A
  fail : E → Prog E A
  call : (o : Op) → (Answer o → Prog E A) → Prog E A

module _ {ℓ} {E A B : Type ℓ} where
  infixl 5 ◌>>=◌
  unfoldable pub ◌>>=◌ : Prog E A → (A → Prog E B) → Prog E B
  ret a >>= f = f a
  fail e >>= f = fail e
  call o k >>= f = call o (λ r. k r >>= f)

infixl 5 ◌>>◌
abbrev pub ◌>>◌ {ℓ} : {E A B : Type ℓ} → Prog E A → Prog E B → Prog E B
m >> k = m >>= λ _. k

-- `if err != nil { … }` behind a call: what is done with its error.
unfoldable pub on_error {ℓ} : {D E A : Type ℓ} → (D → Prog E A) → Prog D A → Prog E A
on_error h (ret a) = ret a
on_error h (fail e) = h e
on_error h (call o k) = call o (λ r. on_error h (k r))

-- An error that is logged, or dropped, and not returned.
abbrev pub ignore {ℓ} : {D E : Type ℓ} {A : Type ℓ} → A → Prog D A → Prog E A
ignore a m = on_error (λ _. ret a) m

abbrev pub returned {ℓ} : {E A : Type ℓ} → Result E A → Prog E A
returned (ok a) = ret a
returned (err e) = fail e

abbrev pub guard {ℓ} : {E : Type ℓ} → Bool → E → Prog E (Unit {ℓ})
guard Bool.true e = ret tt
guard Bool.false e = fail e
