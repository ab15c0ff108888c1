-- ===== src/WebApp/Login/Outcomes.antt =====
-- internal/appliancewebapp/webapp.go: what a successful RedeemLoginCode requires and does.
use appliance_registry.Prelude.{
  pair_eq, ℕ, ◌+◌, ◌≤◌, ◌≡◌, ◌≢◌, refl, sym, true, not, Option, none, some, List, [], ◌∷◌, Text,
  text, ◌++◌, ok, ap, subst, ◌∙◌, Option-cases, Bool-cases, inl, inr, arith, find, keep,
}
use appliance_registry.External.{External, Backend}
use appliance_registry.Persistence.{Appliance, LoginCode}
use appliance_registry.World.{World}
use appliance_registry.World.Codes.{has_hash, has_hash_of}
use appliance_registry.World.Rows.{appliance_of-id}
use appliance_registry.Mariadb
use appliance_registry.Mariadb.Results
use appliance_registry.Mariadb.Results.{SameStores, Wrote}
use appliance_registry.Text.{decimal}
use appliance_registry.Tokens.{hash_secret}
use appliance_registry.UserRegistry.Access.{Access, User}
use appliance_registry.UserRegistry.Client.{membership_url, get_group_member, membership_answer}
use appliance_registry.RestModels.{CloudUserResponse}
use appliance_registry.Program.Run.{run, perform, tick, respond, later}
use appliance_registry.Program.Rules.{after_ok, after_ret, after_handled}
use appliance_registry.WebApp.{WebApp}
use appliance_registry.WebApp.Outcomes.{
  after_required, after_guard, after_lookup, time_now-eq-ok, Authenticated,
  authenticate_appliance-eq-ok,
}
use appliance_registry.WebApp.Login.{redeem_login_code, user_response, member}

find-keep_sub :
    (hash : Text) (id : ℕ) (cs : List LoginCode)
    → find (has_hash_of hash id) (keep (λ c. not (has_hash hash c)) cs) ≡ none
unfolding find keep
find-keep_sub hash id [] = refl
find-keep_sub hash id (c ∷ cs) = ground (arith, find-keep_sub hash id cs)

member-eq-some :
    (a : Access) {u : User} → member a ≡ some u → a ≡ record { is_member = true; user = some u }
member-eq-some a h = elim (Bool-cases a.is_member) [
  | inl isin ↦ ground arith
  | inr isnt ↦ ground arith
]

module _ {b : Backend} (x : External) where
  answered :
      (o : Option (ℕ × Text)) (w : World b) {a : Access} {w' : World b}
      → run (membership_answer x o) w ≡ (ok a, w')
      → ((body : Text) × (o ≡ some (200, body)) × (x.decode_access body ≡ some a)) × (w'.db ≡ w.db)
  unfolding run
  answered none w h = ground arith
  answered (some (status, body)) w h = elim (Option-cases (x.decode_access body)) [
    | inl broken ↦ ground arith
    | inr (a, read) ↦ ((body, ground arith, ground arith), ground arith)
  ]

  -- The user registry has answered with the status 200 to a request about this group and this user, and
  -- this is what the body says.
  pub record Answered (app : WebApp) (w : World b) (group_id user_id : ℕ) (access : Access)
      : Type 0 where
    pub body : Text
    pub answer :
        respond w.replies
          (app.user_registry.base_url
            ++ text "/cloud-user-registry/v0/internal/groups/"
            ++ decimal group_id
            ++ text "/members/"
            ++ decimal user_id)
          (text "Bearer " ++ app.user_registry.service_token)
        ≡ some (200, body)
    pub decoded : x.decode_access body ≡ some access

  pub get_group_member-eq-ok :
      (app : WebApp) (g user : ℕ) (w : World b) {a : Access} {w' : World b}
      → run (get_group_member x app.user_registry g user) w ≡ (ok a, w')
      → Answered app w g user a × (w'.db ≡ w.db)
  unfolding run perform get_group_member membership_url
  get_group_member-eq-ok app g user w h =
      let url = membership_url app.user_registry g user in
      let bearer = text "Bearer " ++ app.user_registry.service_token in
      let ((body, answer, read), same) =
        answered (respond w.replies url bearer) (record w { replies = later w.replies }) h in
      (record { body = body; answer = answer; decoded = read }, same)

  -- The appliance has authenticated, and the code that it presents is on file for it and has not
  -- expired; the user whom the code was issued to is a member of the appliance's group, as the user
  -- registry answers now; and the code is gone.
  pub record Redeemed (app : WebApp) (w : World b) (authorization : Text) (id : ℕ) (code : Text)
      (resp : CloudUserResponse) (w' : World b) : Type 0 where
    pub appliance : Appliance
    pub authenticated : Authenticated x app w id authorization appliance
    pub login : LoginCode
    pub on_file : find (has_hash_of (hash_secret x code) id) w.login_codes ≡ some login
    pub in_time : w.clock + tick w.ticks ≤ login.expires_at
    pub user : User
    pub is_member :
        Answered app w appliance.group_id login.user_id
          (record { is_member = true; user = some user })
    pub its_user : resp ≡ user_response user
    pub new_db : w'.db ≡ record w.db {
      login_codes = keep (λ c. not (has_hash (hash_secret x code) c)) w.db.login_codes;
    }

  -- Whatever fails or passes, a login code that is redeemed with success was on file for the appliance
  -- that authenticated, not expired, and issued to a user whom the user registry, asked about that user
  -- and the appliance's group, answers to be a member; and after it no code with its hash is on file,
  -- while every other table is as before.
  pub redeem_login_code-Redeemed :
      (app : WebApp) (authorization : Text) (id : ℕ) (code : Text) (w : World b)
      {resp : CloudUserResponse} {w' : World b}
      → run (redeem_login_code x app authorization id code) w ≡ (ok resp, w')
      → Redeemed app w authorization id code resp w'
  unfolding redeem_login_code
  redeem_login_code-Redeemed app authorization id code w h = after_ok _ _ _ h λ a w₁ auth h₁.
      after_lookup _ _ _ _ _ h₁ λ login w₂ taken h₂. after_ok _ _ _ h₂ λ now w₃ clock h₃.
        after_guard _ _ _ h₃ λ valid h₄.
          after_handled _ _ _ _ h₄ (λ e. tt)
            λ access w₄ asked h₅. after_required _ _ _ h₅ λ user isin h₆.
              let (who, s₁) = authenticate_appliance-eq-ok x app id authorization w auth in
              let same = appliance_of-id id w.db who.its_row in
              let (row, s₂) =
                Mariadb.Results.consume_login_code-eq-ok a.id w₁ (hash_secret x code) taken in
              let t = time_now-eq-ok w₂ clock in
              let (known, s₄) = get_group_member-eq-ok app a.group_id login.user_id w₃ asked in
              let answer = known.answer in
              let read = known.decoded in
              after_ret (Redeemed app w authorization id code) (user_response user) w₄ h₆ (record {
                appliance = a;
                authenticated = who;
                login = login;
                on_file =
                    subst
                      (λ i. find (has_hash_of (hash_secret x code) i) w.login_codes ≡ some login)
                      same
                      (ap (λ db. find (has_hash_of (hash_secret x code) a.id) db.login_codes)
                          (sym s₁.same_db)
                        ∙ row);
                in_time = ground arith;
                user = user;
                is_member = record {
                  body = known.body;
                  answer = ground arith;
                  decoded = read ∙ ap some (member-eq-some access isin);
                };
                its_user = refl;
                new_db = ground arith;
              })

  -- A code that has been redeemed is not redeemed again: right after a success, neither the same
  -- appliance nor another one redeems a code with the same hash.
  redeem_login_code_once :
      (app : WebApp) (authorization : Text) (id : ℕ) (code : Text) (w : World b)
      {resp : CloudUserResponse} {w' : World b}
      → run (redeem_login_code x app authorization id code) w ≡ (ok resp, w')
      → (again : Text) (id' : ℕ) (resp' : CloudUserResponse)
      → (run (redeem_login_code x app again id' code) w').0 ≢ ok resp'
  redeem_login_code_once app authorization id code w {w' = w'} h again id' resp' h' =
      let first = redeem_login_code-Redeemed app authorization id code w h in
      let second = redeem_login_code-Redeemed app again id' code w' (pair_eq _ h') in
      let hash = hash_secret x code in
      let gone : find (has_hash_of hash id') w'.login_codes ≡ none =
        ap (λ db. find (has_hash_of hash id') db.login_codes) first.new_db
        ∙ find-keep_sub hash id' w.login_codes in
      let there = second.on_file in ground arith
