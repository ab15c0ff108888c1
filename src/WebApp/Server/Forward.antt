-- ===== src/WebApp/Server/Forward.antt =====
-- internal/appliancewebapp/webapp.go: how far an appliance has come, along requests that are served one
-- after another.
use appliance_registry.Prelude.{
  ℕ, ◌≤◌, ◌≡◌, ◌≢◌, refl, sym, subst, true, false, Text, Result, ok, err, arith, ◌∙◌, ℕ_discrete,
  dec_le,
}
use appliance_registry.External.{External, Backend}
use appliance_registry.Persistence.{Appliance}
use appliance_registry.World.{World}
use appliance_registry.World.Statements
use appliance_registry.World.Statements.{row_of}
use appliance_registry.World.Rows.{appliance_of-id}
use appliance_registry.Mariadb
use appliance_registry.Mariadb.Footprint.{Quiet, Emitted, calls}
use appliance_registry.Program.{Op, Answer, call, returned, update_claimed, Prog, on_error, ◌>>=◌}
use appliance_registry.Program.Run.{run, perform}
use appliance_registry.Program.Rules.{run->>=, resume, rescue, run-on_error, on_error-eq-ok}
use appliance_registry.Program.Invariants.{run-keeps, on_db-keeps}
use appliance_registry.Program.Footprint.{Uses-returned, uses_ret}
use appliance_registry.WebApp.{WebApp}
use appliance_registry.WebApp.Claiming.{activate}
use appliance_registry.WebApp.Claiming
use appliance_registry.WebApp.Server.{Request, serve}
use appliance_registry.WebApp.Server.Footprint
use appliance_registry.WebApp.Server.Footprint.{queries, parts, claims}
use appliance_registry.WebApp.Outcomes.{lookup_error-IsFail}
use appliance_registry.Mariadb.Results
use appliance_registry.World.Lifecycle.{AtLeast, Kept-AtLeast, stage, stage-update_claimed}

-- Where the appliance has come that far before, it has come that far after.
pub record IsForward (b : Backend) (n id : ℕ) {E A : Type 0} (m : Prog E A) : Type 0 where
  pub keeps : (w : World b) → AtLeast n id w.db → AtLeast n id (run m w).1.db

module _ {b : Backend} {n id : ℕ} where
  IsForward-Quiet : {E A : Type 0} {m : Prog E A} → Quiet false m → IsForward b n id m
  IsForward-Quiet q = record {
    keeps = λ w h. run-keeps (AtLeast n id) (Kept-AtLeast n id false (λ e. ground arith)) q w h;
  }

  resume-AtLeast :
      {E A B : Type 0} {f : A → Prog E B} (p : Result E A × World b)
      → ((a : A) → IsForward b n id (f a))
      → AtLeast n id p.1.db
      → AtLeast n id (resume f p).1.db
  resume-AtLeast (ok a, v) k h = (k a).keeps v h
  resume-AtLeast (err e, v) k h = h

  IsForward->>= :
      {E A B : Type 0} {m : Prog E A} {f : A → Prog E B}
      → IsForward b n id m
      → ((a : A) → IsForward b n id (f a))
      → IsForward b n id (m >>= f)
  IsForward->>= {m = m} {f = f} u k = record {
    keeps = λ w h.
        subst (λ p. AtLeast n id p.1.db) (sym (run->>= m f w))
          (resume-AtLeast (run m w) k (u.keeps w h));
  }

  rescue-AtLeast :
      {D E A : Type 0} {h : D → Prog E A} (p : Result D A × World b)
      → ((d : D) → IsForward b n id (h d))
      → AtLeast n id p.1.db
      → AtLeast n id (rescue h p).1.db
  rescue-AtLeast (ok a, v) k u = u
  rescue-AtLeast (err d, v) k u = (k d).keeps v u

  IsForward-on_error :
      {D E A : Type 0} {h : D → Prog E A} {m : Prog D A}
      → ((d : D) → IsForward b n id (h d))
      → IsForward b n id m
      → IsForward b n id (on_error h m)
  IsForward-on_error {h = h} {m = m} k u = record {
    keeps = λ w v.
        subst (λ p. AtLeast n id p.1.db) (sym (run-on_error h m w))
          (rescue-AtLeast (run m w) k (u.keeps w v));
  }

  IsForward-call :
      {E A : Type 0} (o : Op) (k : Answer o → Prog E A)
      → ((w : World b) → AtLeast n id w.db → AtLeast n id (perform o w).1.db)
      → ((r : Answer o) → IsForward b n id (k r))
      → IsForward b n id (call o k)
  unfolding run
  IsForward-call o k step u = record {
    keeps = λ w h. (u (perform o w).0).keeps (perform o w).1 (step w h);
  }

  IsForward-mark : (j : ℕ) → (j ≡ id → n ≤ 2) → IsForward b n id (Mariadb.mark_appliance_claimed j)
  unfolding Mariadb.mark_appliance_claimed perform
  IsForward-mark j low =
      IsForward->>=
        (IsForward-call (update_claimed j) returned
          (λ w h.
            on_db-keeps (AtLeast n id) (Statements.update_claimed j (b.column_time w.clock)) w
              (stage-update_claimed n id j (b.column_time w.clock) w.db low h) h)
          (λ r. IsForward-Quiet (Uses-returned (Emitted false) r)))
        λ k. IsForward-Quiet (search calls)

  -- The same, by what the first part can return.
  resume_known-AtLeast :
      {E A B : Type 0} {f : A → Prog E B} (p : Result E A × World b)
      → ((a : A) (v : World b) → p ≡ (ok a, v) → IsForward b n id (f a))
      → AtLeast n id p.1.db
      → AtLeast n id (resume f p).1.db
  resume_known-AtLeast (ok a, v) k h = (k a v refl).keeps v h
  resume_known-AtLeast (err e, v) k h = h

  IsForward-known :
      {E A B : Type 0} {m : Prog E A} {f : A → Prog E B}
      → IsForward b n id m
      → ((w : World b) (a : A) (v : World b) → run m w ≡ (ok a, v) → IsForward b n id (f a))
      → IsForward b n id (m >>= f)
  IsForward-known {m = m} {f = f} u k = record {
    keeps = λ w h.
        subst (λ p. AtLeast n id p.1.db) (sym (run->>= m f w))
          (resume_known-AtLeast (run m w) (k w) (u.keeps w h));
  }

module _ (x : External) (app : WebApp) where
  activate-refused :
      {b : Backend} (id : ℕ) (w : World b)
      → 2 ≤ stage id w.db
      → (run (activate x app id) w).1.db ≡ w.db
  unfolding activate run perform on_error Mariadb.get_appliance Statements.select_appliance ◌>>=◌
  activate-refused id w h = ground arith

  module _ {b : Backend} {n id : ℕ} where
    activate-other : (j : ℕ) → j ≢ id → IsForward b n id (activate x app j)
    unfolding activate
    activate-other j other =
        IsForward-known (IsForward-Quiet (search queries depth 12)) λ w a v got.
          let found = on_error-eq-ok _ _ w (lookup_error-IsFail Appliance _ _) got in
          let same = appliance_of-id j w.db (Mariadb.Results.get_appliance-eq-ok j w found).0 in
          IsForward->>= (IsForward-Quiet (search queries)) λ _.
            IsForward->>= (IsForward-Quiet (Footprint.Quiet-publish_secret x app a.id)) λ secret.
              IsForward->>=
                (IsForward-on_error (λ d. IsForward-Quiet (search queries))
                  (IsForward-mark a.id (λ e. absurd (other (sym same ∙ e)))))
                λ _. IsForward-Quiet (search queries)

    IsForward-activate : (j : ℕ) → IsForward b n id (activate x app j)
    IsForward-activate j = elim (ℕ_discrete j id) [
      | no other ↦ activate-other j other
      | yes same ↦ elim (dec_le n 2) [
        | yes early ↦ record {
          keeps =
              run-keeps (AtLeast n id) (Kept-AtLeast n id true (λ _. early))
                (Footprint.Quiet-activate x app refl j);
        }
        | no late ↦ record {
          keeps = λ w h.
              let far = h.bound in
              subst (AtLeast n id)
                (sym (
                  subst (λ i. (run (activate x app i) w).1.db ≡ w.db) (sym same)
                    (activate-refused id w (omega arith))))
                h;
        }
      ]
    ]

    IsForward-claim : (auth : Text) (j : ℕ) → IsForward b n id (Claiming.claim x app auth j)
    unfolding Claiming.claim
    IsForward-claim auth j = IsForward->>= (IsForward-Quiet (search parts)) λ raw.
        IsForward->>= (IsForward-Quiet (search parts depth 12)) λ stored.
          IsForward->>= (IsForward-Quiet (search parts)) λ now.
            IsForward->>= (IsForward-Quiet (search parts)) λ _.
              IsForward->>= (IsForward-Quiet (search parts)) λ _.
                IsForward->>= (IsForward-activate j)
                  λ (a, secret). IsForward-Quiet (search parts depth 12)

    IsForward-enroll_redeem :
        (auth : Text) (j : ℕ) → IsForward b n id (Claiming.enroll_redeem x app auth j)
    unfolding Claiming.enroll_redeem
    IsForward-enroll_redeem auth j = IsForward->>= (IsForward-Quiet (search parts)) λ raw.
        IsForward->>= (IsForward-Quiet (search parts depth 12)) λ code.
          IsForward->>= (IsForward-Quiet (search parts)) λ now.
            IsForward->>= (IsForward-Quiet (search parts)) λ _.
              IsForward->>= (IsForward-Quiet (search parts)) λ _.
                IsForward->>= (IsForward-Quiet (search parts depth 12)) λ token.
                  IsForward->>= (IsForward-Quiet (search parts)) λ _.
                    IsForward->>= (IsForward-activate j)
                      λ (a, secret). IsForward-Quiet (search parts depth 12)

    other_request : (r : Request) → claims r ≡ false → IsForward b n id (serve x app r)
    other_request r e = IsForward-Quiet (Footprint.Quiet-serve_any x app r (λ t. ground arith))

    pub IsForward-serve : (r : Request) → IsForward b n id (serve x app r)
    unfolding serve
    IsForward-serve (Request.claim auth j) =
        IsForward->>= (IsForward-claim auth j) λ r. IsForward-Quiet (uses_ret _)
    IsForward-serve (Request.enroll_redeem auth j) =
        IsForward->>= (IsForward-enroll_redeem auth j) λ r. IsForward-Quiet (uses_ret _)
    IsForward-serve (Request.register auth body) = other_request (Request.register auth body) refl
    IsForward-serve (Request.list_appliances auth status all) =
        other_request (Request.list_appliances auth status all) refl
    IsForward-serve (Request.enroll auth body) = other_request (Request.enroll auth body) refl
    IsForward-serve (Request.create_login_code auth j) =
        other_request (Request.create_login_code auth j) refl
    IsForward-serve (Request.revoke auth j) = other_request (Request.revoke auth j) refl
    IsForward-serve (Request.rotate_secret auth j) =
        other_request (Request.rotate_secret auth j) refl
    IsForward-serve (Request.rotate_own_secret auth j) =
        other_request (Request.rotate_own_secret auth j) refl
    IsForward-serve (Request.redeem_login_code auth j body) =
        other_request (Request.redeem_login_code auth j body) refl
    IsForward-serve (Request.check_access auth j user) =
        other_request (Request.check_access auth j user) refl
    IsForward-serve (Request.plugin_get_params auth body) =
        other_request (Request.plugin_get_params auth body) refl
