-- ===== src/WebApp/Server/Revocations.antt =====
-- internal/appliancewebapp/webapp.go: Revoke, and the requests that an appliance sends, among other requests.
use appliance_registry.Prelude.{
  ℕ, ◌≡◌, ◌≢◌, refl, subst, Bool, true, false, none, some, Text, arith, ◌==◌, Option-cases, inl,
  inr, Result, ok, err,
}
use appliance_registry.External.{External, Backend}
use appliance_registry.Persistence.{
  Appliance, active, revoked, DbError, no_rows, duplicate, unavailable,
}
use appliance_registry.RestModels.{RedeemLoginCodeRequest}
use appliance_registry.World.{World, Database, Row}
use appliance_registry.World.Statements
use appliance_registry.World.Statements.{row_of, set_status, status_eq}
use appliance_registry.World.Rows.{row_of-amend}
use appliance_registry.World.Lifecycle.{AtLeast, Kept-AtLeast}
use appliance_registry.Mariadb
use appliance_registry.Mariadb.Footprint.{Emitted, Quiet}
use appliance_registry.Program.{
  Op, ret, fail, on_error, guard, select_appliance, update_status, returned, ◌>>=◌, ◌>>◌,
}
use appliance_registry.Program.Run.{perform}
use appliance_registry.Program.Invariants.{perform-keeps}
use appliance_registry.WebApp.{
  WebApp, Handler, Failure, lookup_error, authenticate_appliance, require_owning_group,
}
use appliance_registry.WebApp.Rotation
use appliance_registry.WebApp.Login
use appliance_registry.WebApp.Server.{
  Request, Response, revoke, rotate_own_secret, redeem_login_code, check_access, serve,
}
use appliance_registry.WebApp.Server.Footprint.{Quiet-serve_any}
use appliance_registry.WebApp.Server.Among.{
  Among, Only, only_fail, only_call, Only->>=, Only-after, Doomed, doomed_call, Doomed->>=,
  Doomed-after, Among-Only, Among-Doomed,
}
use appliance_registry.WebApp.Server.Among.Answers.{
  some_row_of, select-id, looked_up-Doomed, guard-Doomed, unmarked-Only,
}

-- The requests for which an appliance presents its secret.
pub data Errand : Type 0 where
  rotation : Errand
  redemption : RedeemLoginCodeRequest → Errand
  access_check : (user_id : ℕ) → Errand

abbrev pub sent_by : Errand → Text → ℕ → Request
sent_by rotation authorization id = rotate_own_secret authorization id
sent_by (redemption body) authorization id = redeem_login_code authorization id body
sent_by (access_check user_id) authorization id = check_access authorization id user_id

-- Any call but the one that marks an appliance as claimed.
abbrev pub Unclaiming : Op → Type 0
Unclaiming = Emitted false

abbrev IsRevoked : ℕ → Database → Type 0
IsRevoked = AtLeast 3

module _ {b : Backend} (id : ℕ) (w : World b) where
  select-revoked :
      {a : Appliance}
      → IsRevoked id w.db
      → (perform (select_appliance id) w).0 ≡ ok a
      → status_eq a.status active ≡ false
  unfolding perform Statements.select_appliance
  select-revoked {a = a} s e = let far = s.bound in ground arith

  update_status-IsRevoked :
      {r : Row}
      → row_of id w.db ≡ some r
      → IsRevoked id (Statements.update_status id revoked w.db).1
  unfolding Statements.update_status
  update_status-IsRevoked row =
      let new = row_of-amend (set_status revoked) id id w.db (λ r. refl) in
      record { bound = ground (arith, new, row) }

  unchanged : row_of id w.db ≡ none → some_row_of (perform (update_status id revoked) w).0 ≡ false
  unfolding perform Statements.update_status
  unchanged absent = ground arith

  -- An UPDATE that reports a row has revoked the appliance.
  changed-IsRevoked :
      some_row_of (perform (update_status id revoked) w).0 ≡ true
      → IsRevoked id (perform (update_status id revoked) w).1.db
  unfolding perform
  changed-IsRevoked e = elim (Option-cases (row_of id w.db)) [
    | inl absent ↦ let none_changed = unchanged absent in absurd (ground arith)
    | inr (r, row) ↦
        let t = update_status-IsRevoked row in let far = t.bound in record { bound = ground arith }
  ]

module _ (b : Backend) (x : External) (app : WebApp) (id : ℕ) where
  set_status-Only :
      (j : ℕ) (e : Failure)
      → j ≡ id
      → Only b (IsRevoked id) (on_error (λ _. fail e) (Mariadb.set_appliance_status j revoked))
  unfolding Mariadb.set_appliance_status on_error ◌>>=◌
  set_status-Only j e same =
      only_call (update_status j revoked) _
        (λ w. some_row_of (perform (update_status j revoked) w).0)
        (λ w m.
          subst (λ i. IsRevoked i (perform (update_status j revoked) w).1.db) same
            (changed-IsRevoked j w m))
        λ w m. unmarked-Only b (IsRevoked id) e (perform (update_status j revoked) w).0 m

  guarded-Only :
      (p : Bool) (e : Failure) (a : Appliance) (f : Appliance → Handler (Unit {0}))
      → Only b (IsRevoked id) (f a)
      → Only b (IsRevoked id) ((guard p e >> ret a) >>= f)
  unfolding ◌>>=◌
  guarded-Only true e a f h = h
  guarded-Only false e a f h = only_fail e

  answered-Only :
      (g h e : Failure) (n : ℕ) (f : Appliance → Handler (Unit {0})) (r : Result DbError Appliance)
      → ((a : Appliance) → r ≡ ok a → Only b (IsRevoked id) (f a))
      → Only b (IsRevoked id) (
          (on_error (lookup_error g h) (returned r) >>= λ a. guard (a.group_id == n) e >> ret a)
          >>= f)
  unfolding on_error ◌>>=◌
  answered-Only g h e n f (ok a) k = guarded-Only (a.group_id == n) e a f (k a refl)
  answered-Only g h e n f (err no_rows) k = only_fail g
  answered-Only g h e n f (err duplicate) k = only_fail h
  answered-Only g h e n f (err unavailable) k = only_fail h

  -- After the look-up of the appliance, with its id.
  owned-Only :
      (g : ℕ) (f : Appliance → Handler (Unit {0}))
      → ((a : Appliance) → a.id ≡ id → Only b (IsRevoked id) (f a))
      → Only b (IsRevoked id) (require_owning_group x app id g >>= f)
  unfolding require_owning_group Mariadb.get_appliance on_error ◌>>=◌
  owned-Only g f k =
      only_call (select_appliance id) _ (λ _. false) (λ w e. absurd (ground arith))
        λ w _.
          answered-Only _ _ _ g f (perform (select_appliance id) w).0
            λ a found. k a (select-id id w found)

  revoke-Only : (auth : Text) → Only b (IsRevoked id) (serve x app (revoke auth id))
  unfolding serve Rotation.revoke
  revoke-Only auth = Only->>= b (IsRevoked id) _ (
      Only-after b (IsRevoked id) _ λ who.
        owned-Only who.group_id _
          λ a same. Only->>= b (IsRevoked id) _ (set_status-Only a.id _ same))

  active-Doomed :
      (g h e : Failure)
      → Doomed b (IsRevoked id) (
          on_error (lookup_error g h) (Mariadb.get_appliance id) >>= λ a.
          guard (status_eq a.status active) e >> ret a)
  unfolding Mariadb.get_appliance on_error ◌>>=◌
  active-Doomed g h e = doomed_call (select_appliance id) _ λ w gone.
      looked_up-Doomed b (IsRevoked id) g h (λ a. guard (status_eq a.status active) e >> ret a)
        (perform (select_appliance id) w).0
        λ a found. guard-Doomed b (IsRevoked id) _ e _ (select-revoked id w gone found)

  authenticate-Doomed :
      (auth : Text) → Doomed b (IsRevoked id) (authenticate_appliance x app id auth)
  unfolding authenticate_appliance
  authenticate-Doomed auth = Doomed-after b (IsRevoked id) _ λ _.
      Doomed-after b (IsRevoked id) _ λ _. Doomed-after b (IsRevoked id) _ λ _. active-Doomed _ _ _

  sent_by-Doomed :
      (r : Errand) (auth : Text) → Doomed b (IsRevoked id) (serve x app (sent_by r auth id))
  unfolding serve Rotation.rotate_own_secret Login.redeem_login_code Login.check_access
  sent_by-Doomed rotation auth = search (Doomed->>=, authenticate-Doomed)
  sent_by-Doomed (redemption body) auth = search (Doomed->>=, authenticate-Doomed)
  sent_by-Doomed (access_check user) auth = search (Doomed->>=, authenticate-Doomed)

module _ {b : Backend} (x : External) (app : WebApp) where
  -- Once a Revoke of an appliance has succeeded, no request that the appliance sends afterwards succeeds,
  -- whatever header it has: a RotateOwnSecret, a RedeemLoginCode or a CheckAccess. Other requests may
  -- make any calls between the calls of the two and in the time between them, as long as no appliance is
  -- marked as claimed; and each call of any of them may fail or lose its answer.
  pub revoke_then_errand-Among :
      (authorization : Text) (id : ℕ) (w v : World b) (resp : Response)
      → Among Unclaiming (serve x app (revoke authorization id)) w (ret resp) v
      → (r : Errand) (header : Text) (left : Handler Response) (u : World b)
      → Among Unclaiming (serve x app (sent_by r header id)) v left u
      → (resp' : Response) → left ≢ ret resp'
  revoke_then_errand-Among authorization id w v resp first r header left u second resp' e =
      let kept =
        perform-keeps (IsRevoked id) (Kept-AtLeast 3 id false (λ t. absurd (ground arith))) in
      let gone =
        Among-Only b (IsRevoked id) Unclaiming kept first
          (Quiet-serve_any x app (revoke authorization id) (λ t. t))
          (revoke-Only b x app id authorization) in
      Among-Doomed b (IsRevoked id) Unclaiming kept
        (subst (λ n. Among Unclaiming (serve x app (sent_by r header id)) v n u) e second)
        (errand-Quiet r header id) (sent_by-Doomed b x app id r header) gone
    where
      errand-Quiet :
          (r : Errand) (header : Text) (id : ℕ) → Quiet false (serve x app (sent_by r header id))
      errand-Quiet rotation header id = Quiet-serve_any x app (sent_by rotation header id) (λ t. t)
      errand-Quiet (redemption body) header id =
          Quiet-serve_any x app (sent_by (redemption body) header id) (λ t. t)
      errand-Quiet (access_check user) header id =
          Quiet-serve_any x app (sent_by (access_check user) header id) (λ t. t)
