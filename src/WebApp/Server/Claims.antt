-- ===== src/WebApp/Server/Claims.antt =====
-- internal/appliancewebapp/webapp.go: Claim and EnrollRedeem among other requests.
use appliance_registry.Prelude.{
  ℕ, ◌≡◌, ◌≢◌, refl, subst, true, false, none, some, Text, ok, arith, Option-cases, inl, inr,
}
use appliance_registry.External.{External, Backend}
use appliance_registry.Persistence.{Appliance, pending}
use appliance_registry.World.{World, Row}
use appliance_registry.World.Statements
use appliance_registry.World.Statements.{row_of, set_claimed, status_eq}
use appliance_registry.World.Rows.{row_of-amend}
use appliance_registry.World.Lifecycle.{IsSettled, Kept-AtLeast}
use appliance_registry.Mariadb
use appliance_registry.Program.{ret, fail, on_error, guard, select_appliance, update_claimed, ◌>>=◌}
use appliance_registry.Program.Run.{perform}
use appliance_registry.WebApp.{WebApp, Handler, Failure}
use appliance_registry.WebApp.Claiming.{activate, publish_secret}
use appliance_registry.WebApp.Claiming
use appliance_registry.WebApp.Server.{Request, Response, claim, enroll_redeem, serve}
use appliance_registry.WebApp.Server.Footprint.{Quiet-serve}
use appliance_registry.WebApp.Server.Among.{
  Among, Only, only_call, Only->>=, Only-after, Doomed, doomed_call, Doomed->>=, Doomed-after,
  Among-Only, Among-Doomed,
}
use appliance_registry.Program.Invariants.{perform-keeps}
use appliance_registry.Mariadb.Footprint.{Emitted}
use appliance_registry.WebApp.Server.Among.Answers.{
  some_row_of, select-id, looked_up-Only, looked_up-Doomed, guard-Doomed, unmarked-Only,
}

-- What a request claims an appliance with.
pub data Credential : Type 0 where
  claim_token exchange_code : Credential

abbrev pub claim_with : Credential → Text → ℕ → Request
claim_with claim_token authorization id = claim authorization id
claim_with exchange_code authorization id = enroll_redeem authorization id

-- What the two calls of `activate` that count can answer where the appliance is settled, and do.
module _ {b : Backend} (id : ℕ) (w : World b) where
  select-settled :
      {a : Appliance}
      → IsSettled id w.db
      → (perform (select_appliance id) w).0 ≡ ok a
      → status_eq a.status pending ≡ false
  unfolding perform Statements.select_appliance
  select-settled {a = a} s e = let far = s.bound in ground arith

  update_claimed-IsSettled :
      (now : ℕ) {r : Row}
      → row_of id w.db ≡ some r
      → IsSettled id (Statements.update_claimed id now w.db).1
  unfolding Statements.update_claimed
  update_claimed-IsSettled now row =
      let new = row_of-amend (set_claimed now) id id w.db (λ r. refl) in
      record { bound = ground (arith, new, row) }

  -- An UPDATE that reports a row has brought the appliance to `active`.
  unmarked : row_of id w.db ≡ none → some_row_of (perform (update_claimed id) w).0 ≡ false
  unfolding perform Statements.update_claimed
  unmarked absent = ground arith

  marked-IsSettled :
      some_row_of (perform (update_claimed id) w).0 ≡ true
      → IsSettled id (perform (update_claimed id) w).1.db
  unfolding perform
  marked-IsSettled e = elim (Option-cases (row_of id w.db)) [
    | inl absent ↦ let none_marked = unmarked absent in absurd (ground arith)
    | inr (r, row) ↦
        let t = update_claimed-IsSettled (b.column_time w.clock) row in
        let far = t.bound in record { bound = ground arith }
  ]

module _ (b : Backend) (x : External) (app : WebApp) (id : ℕ) where
  marked-Only :
      (j : ℕ) (e : Failure)
      → j ≡ id
      → Only b (IsSettled id) (on_error (λ _. fail e) (Mariadb.mark_appliance_claimed j))
  unfolding Mariadb.mark_appliance_claimed on_error ◌>>=◌
  marked-Only j e same =
      only_call (update_claimed j) _ (λ w. some_row_of (perform (update_claimed j) w).0)
        (λ w m.
          subst (λ i. IsSettled i (perform (update_claimed j) w).1.db) same
            (marked-IsSettled j w m))
        λ w m. unmarked-Only b (IsSettled id) e (perform (update_claimed j) w).0 m

  activate-Only : Only b (IsSettled id) (activate x app id)
  unfolding activate Mariadb.get_appliance on_error ◌>>=◌
  activate-Only =
      only_call (select_appliance id) _ (λ _. false) (λ w e. absurd (ground arith))
        λ w _. looked_up-Only b (IsSettled id) _ _ _ (perform (select_appliance id) w).0 λ a found.
          Only-after b (IsSettled id) (guard _ _) λ _.
            Only-after b (IsSettled id) (publish_secret x app a.id)
              λ s. Only->>= b (IsSettled id) _ (marked-Only a.id _ (select-id id w found))

  activate-Doomed : Doomed b (IsSettled id) (activate x app id)
  unfolding activate Mariadb.get_appliance on_error ◌>>=◌
  activate-Doomed = doomed_call (select_appliance id) _ λ w settled.
      looked_up-Doomed b (IsSettled id) _ _ _ (perform (select_appliance id) w).0
        λ a found. guard-Doomed b (IsSettled id) _ _ _ (select-settled id w settled found)

  claim_with-Only :
      (c : Credential) (auth : Text) → Only b (IsSettled id) (serve x app (claim_with c auth id))
  unfolding serve Claiming.claim Claiming.enroll_redeem
  claim_with-Only claim_token auth = search (Only->>=, Only-after, activate-Only) depth 16
  claim_with-Only exchange_code auth = search (Only->>=, Only-after, activate-Only) depth 16

  claim_with-Doomed :
      (c : Credential) (auth : Text) → Doomed b (IsSettled id) (serve x app (claim_with c auth id))
  unfolding serve Claiming.claim Claiming.enroll_redeem
  claim_with-Doomed claim_token auth = search (Doomed->>=, Doomed-after, activate-Doomed) depth 16
  claim_with-Doomed exchange_code auth = search (Doomed->>=, Doomed-after, activate-Doomed) depth 16

module _ {b : Backend} (x : External) (app : WebApp) where
  -- Once a claim of an appliance has succeeded, by its claim token or by an exchange code, no claim of it
  -- that begins afterwards succeeds, by either, whatever it presents. Other requests may make any of their
  -- calls between the calls of the two claims and in the time between them, and each call of any of
  -- them may fail or lose its answer.
  pub claim_once-Among :
      (c : Credential) (authorization : Text) (id : ℕ) (w v : World b) (resp : Response)
      → Among (Emitted true) (serve x app (claim_with c authorization id)) w (ret resp) v
      → (d : Credential) (again : Text) (left : Handler Response) (u : World b)
      → Among (Emitted true) (serve x app (claim_with d again id)) v left u
      → (resp' : Response) → left ≢ ret resp'
  claim_once-Among c authorization id w v resp first d again left u second resp' e =
      let kept = perform-keeps (IsSettled id) (Kept-AtLeast 2 id true (λ _. omega arith)) in
      let settled =
        Among-Only b (IsSettled id) (Emitted true) kept first
          (Quiet-serve x app (claim_with c authorization id))
          (claim_with-Only b x app id c authorization) in
      Among-Doomed b (IsSettled id) (Emitted true) kept
        (subst (λ n. Among (Emitted true) (serve x app (claim_with d again id)) v n u) e second)
        (Quiet-serve x app (claim_with d again id)) (claim_with-Doomed b x app id d again) settled
