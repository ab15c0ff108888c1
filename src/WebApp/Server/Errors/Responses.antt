-- ===== src/WebApp/Server/Errors/Responses.antt =====
-- main.go: which requests are answered with the status 500 although no call fails.
use appliance_registry.Prelude.{
  ℕ, ◌<◌, ◌≡◌, ◌≢◌, refl, subst, false, Option, none, some, List, [], ◌∷◌, ◌++◌, map, length, Text,
  arith, find, All, Result, ok, err,
}
use Prim.Native.String.{String}
use appliance_registry.External.{External, Backend}
use appliance_registry.Persistence.{Appliance, revoked}
use appliance_registry.World.{World, Database}
use appliance_registry.World.Statements.{has_label, row_of, status_eq}
use appliance_registry.World.Codes.{has_hash}
use appliance_registry.World.Rows.{appliance_of}
use appliance_registry.World.Integrity.{IsConsistent}
use appliance_registry.Text.{hex}
use appliance_registry.Tokens.{hash_secret}
use appliance_registry.Mariadb.Success.{Calm, time_now_succeeds}
use appliance_registry.Mariadb.Ends.{save_enroll_exchange_code_succeeds, generate_token_succeeds}
use appliance_registry.Mariadb.Store.Refinement.{below_is_free}
use appliance_registry.Program.Run.{run}
use appliance_registry.Program.Ends.{Ends, Outcome, ends_ret, ends_Returns, ends_then}
use appliance_registry.WebApp.{WebApp, Handler, Failure, internal_error}
use appliance_registry.WebApp.Registration
use appliance_registry.WebApp.Registration.{create_appliance_with_retry}
use appliance_registry.WebApp.Registration.Retry.{
  label_of, IsTaken, create_appliance_with_retry_succeeds,
}
use appliance_registry.WebApp.Registration.Success.{issue_claim_token_succeeds}
use appliance_registry.WebApp.Server.{
  Request, register, list_appliances, enroll, claim, enroll_redeem, create_login_code, revoke,
  rotate_secret, rotate_own_secret, redeem_login_code, check_access, plugin_get_params, serve,
}
use appliance_registry.WebApp.Server.Errors.{Explained, sure_ends}
use appliance_registry.WebApp.Server.Errors.Handlers.{use_token_ends}
use appliance_registry.Program.{ret, ◌>>=◌}
use appliance_registry.Program.Success.{Succeeds}
use appliance_registry.WebApp.Server.Errors.Handlers

-- One of the first five labels that the random source leads to is free, and what it gives after it.
pub record HasFreeLabel (x : External) (name : Text) (db : Database)
    (entropy rest : List (Option (List ℕ))) : Type 0 where
  pub taken : List (List ℕ)
  pub bytes : List ℕ
  pub few : length taken < 5
  pub all : All (IsTaken x name db) taken
  pub free : find (has_label (label_of x name bytes)) db.appliances ≡ none
  pub reads : entropy ≡ map some taken ++ some bytes ∷ rest

calmly :
    {b : Backend} (w : World b) {entropy : List (Option (List ℕ))}
    → w.faults ≡ []
    → w.entropy ≡ entropy
    → Calm w w.db entropy
calmly w calm e = record { no_faults = calm; same_db = refl; same_entropy = e }

unexplained :
    {b : Backend} {A : Type 0} {message : String} (r : Result Failure A × World b)
    → Outcome Explained (λ _ _. Unit {0}) r
    → r.0 ≢ err (internal_error message)
unexplained (ok a, v) o e = cc
unexplained (err f, v) o e =
    subst (λ (t : Result Failure _). Outcome Explained (λ _ _. Unit {0}) (t, v)) e o

module _ {b : Backend} (x : External) (app : WebApp) where
  created_succeeds :
      (name : Text) (g : ℕ) (w v : World b) {rest : List (Option (List ℕ))}
      → IsConsistent w.db
      → w.faults ≡ []
      → HasFreeLabel x name w.db w.entropy rest
      → v ≡ w
      → Succeeds
          (create_appliance_with_retry x app name g)
          v
          (λ a u. (appliance_of a.id u.db ≡ some a) × (u.faults ≡ []) × (u.entropy ≡ rest))
  unfolding row_of
  created_succeeds name g w v {rest = rest} h calm f e =
      let s =
        create_appliance_with_retry_succeeds x app name g f.taken f.bytes rest w.db v f.few f.all
          f.free (below_is_free w.next_id w.appliances h.0.below)
          (record {
            no_faults = ground (arith, e, calm);
            same_db = ground (arith, e);
            same_entropy = ground (arith, e, f.reads);
          }) in
      record {
        value = s.value;
        after = s.after;
        runs = s.runs;
        holds = (s.holds.on_file, s.holds.no_faults, s.holds.same_entropy);
      }

  register_ends :
      (auth name : Text) (w : World b) {buf : List ℕ} {rest : List (Option (List ℕ))}
      → IsConsistent w.db
      → w.faults ≡ []
      → HasFreeLabel x name w.db w.entropy (some buf ∷ rest)
      → Ends (Registration.register x app auth name) w Explained (λ _ _. Unit {0})
  unfolding Registration.register
  register_ends auth name w h calm f = ends_then (use_token_ends x app auth w) λ who w₁ (_, e₁).
      ends_then (sure_ends _ (created_succeeds name who.group_id w w₁ h calm f e₁))
        λ a w₂ (row, calm₂, more).
          ends_then (sure_ends _ (issue_claim_token_succeeds x app a.id w₂ row calm₂ more))
            λ t w₃ _. ends_ret _ w₃ tt

  enroll_ends :
      (auth name : Text) (w : World b) {buf buf' : List ℕ} {rest : List (Option (List ℕ))}
      → IsConsistent w.db
      → w.faults ≡ []
      → HasFreeLabel x name w.db w.entropy (some buf ∷ some buf' ∷ rest)
      → Ends (Registration.enroll x app auth name) w Explained (λ _ _. Unit {0})
  unfolding Registration.enroll
  enroll_ends auth name w {buf' = buf'} h calm f =
      ends_then (use_token_ends x app auth w) λ who w₁ (_, e₁).
        ends_then (sure_ends _ (created_succeeds name who.group_id w w₁ h calm f e₁))
          λ a w₂ (row, calm₂, more).
            ends_then (sure_ends _ (issue_claim_token_succeeds x app a.id w₂ row calm₂ more))
              λ t w₃ (row₃, calm₃, more₃).
                ends_then
                  (sure_ends _ (
                    generate_token_succeeds {db = w₃.db} x buf' w₃
                      (record { no_faults = calm₃; same_db = refl; same_entropy = more₃ })))
                  λ (code, hash) w₄ (_, c₄).
                    ends_then (ends_Returns (time_now_succeeds a.id w₄ c₄)) λ now w₅ (_, c₅).
                      ends_then
                        (sure_ends _
                          (save_enroll_exchange_code_succeeds w₅ c₅ a.id hash t.hash _ row₃))
                        λ _ w₆ _. ends_ret _ w₆ tt

  -- What a request needs of the tables and of the random source.
  abbrev pub Ordinary : Request → World b → Type 0
  Ordinary (register auth body) w =
      (buf : List ℕ) × (rest : List (Option (List ℕ))) × HasFreeLabel x body.name w.db w.entropy
        (some buf ∷ rest)
  Ordinary (enroll auth body) w =
      (buf : List ℕ) × (buf' : List ℕ) × (rest : List (Option (List ℕ))) × HasFreeLabel x body.name
        w.db w.entropy (some buf ∷ some buf' ∷ rest)
  Ordinary (claim auth id) w =
      (buf : List ℕ) × (rest : List (Option (List ℕ))) × (w.entropy ≡ some buf ∷ rest)
  Ordinary (enroll_redeem auth id) w =
      (buf : List ℕ) × (rest : List (Option (List ℕ))) × (w.entropy ≡ some buf ∷ rest)
  Ordinary (rotate_secret auth id) w =
      (buf : List ℕ) × (rest : List (Option (List ℕ))) × (w.entropy ≡ some buf ∷ rest)
  Ordinary (rotate_own_secret auth id) w =
      (buf : List ℕ) × (rest : List (Option (List ℕ))) × (w.entropy ≡ some buf ∷ rest)
  Ordinary (create_login_code auth id) w =
      (buf : List ℕ) × (rest : List (Option (List ℕ))) × (w.entropy ≡ some buf ∷ rest)
      × (find (has_hash (hash_secret x (hex buf))) w.db.login_codes ≡ none)
  Ordinary (revoke auth id) w =
      (a : Appliance) → appliance_of id w.db ≡ some a → status_eq a.status revoked ≡ false
  Ordinary (list_appliances auth status all) w = Unit
  Ordinary (redeem_login_code auth id body) w = Unit
  Ordinary (check_access auth id user) w = Unit
  Ordinary (plugin_get_params auth body) w = Unit

  answered :
      {A B : Type 0} {m : Handler A} (f : A → B) (w : World b)
      → Ends m w Explained (λ _ _. Unit {0})
      → Ends (m >>= λ a. ret (f a)) w Explained (λ _ _. Unit {0})
  answered f w s = ends_then s λ a v _. ends_ret (f a) v tt

  serve_ends :
      (r : Request) (w : World b)
      → IsConsistent w.db
      → w.faults ≡ []
      → Ordinary r w
      → Ends (serve x app r) w Explained (λ _ _. Unit {0})
  unfolding serve
  serve_ends (register auth body) w h calm (buf, rest, f) =
      answered _ w (register_ends auth body.name w h calm f)
  serve_ends (enroll auth body) w h calm (buf, buf', rest, f) =
      answered _ w (enroll_ends auth body.name w h calm f)
  serve_ends (claim auth id) w h calm (buf, rest, e) =
      answered _ w (Handlers.claim_ends x app buf w (calmly w calm e) auth id)
  serve_ends (enroll_redeem auth id) w h calm (buf, rest, e) =
      answered _ w (Handlers.enroll_redeem_ends x app buf w (calmly w calm e) auth id)
  serve_ends (rotate_secret auth id) w h calm (buf, rest, e) =
      answered _ w (Handlers.rotate_secret_ends x app buf w (calmly w calm e) auth id)
  serve_ends (rotate_own_secret auth id) w h calm (buf, rest, e) =
      answered _ w (Handlers.rotate_own_secret_ends x app buf w (calmly w calm e) auth id)
  serve_ends (create_login_code auth id) w h calm (buf, rest, e, fresh) =
      answered _ w (Handlers.create_login_code_ends x app buf w (calmly w calm e) auth id fresh)
  serve_ends (revoke auth id) w h calm live =
      answered _ w (Handlers.revoke_ends x app w (calmly w calm refl) auth id live)
  serve_ends (list_appliances auth status all) w h calm _ =
      answered _ w (Handlers.list_appliances_ends x app w (calmly w calm refl) auth status all)
  serve_ends (redeem_login_code auth id body) w h calm _ =
      answered _ w (Handlers.redeem_login_code_ends x app w (calmly w calm refl) auth id body.code)
  serve_ends (check_access auth id user) w h calm _ =
      answered _ w (Handlers.check_access_ends x app w (calmly w calm refl) auth id user)
  serve_ends (plugin_get_params auth body) w h calm _ =
      answered _ w (Handlers.plugin_get_params_ends x app w (calmly w calm refl) auth)

  -- Where no call fails, the tables keep their keys and the random source has reads at hand, a request
  -- is not answered with the status 500, unless it is a Register or an Enroll whose first five labels are
  -- taken, a CreateLoginCode that draws a code whose hash is on file, or a Revoke of an appliance that is
  -- revoked.
  pub serve-ne-internal_error :
      (r : Request) (w : World b) (message : String)
      → IsConsistent w.db
      → w.faults ≡ []
      → Ordinary r w
      → (run (serve x app r) w).0 ≢ err (internal_error message)
  serve-ne-internal_error r w message h calm o e =
      let s = serve_ends r w h calm o in unexplained _ s.outcome e
