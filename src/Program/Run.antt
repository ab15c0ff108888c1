-- ===== src/Program/Run.antt =====
-- What each call does to the world, and a program run on its own.
use appliance_registry.Prelude.{
  ℕ, ◌+◌, Bool, false, Option, none, some, List, [], ◌∷◌, Text, Result, ok, err,
}
use appliance_registry.Persistence.{DbError, unavailable}
use appliance_registry.External.{Backend, SecretKey, Secret}
use appliance_registry.World.{Database, World, Fault, passes, refused, unacknowledged}
use appliance_registry.World.Statements
use appliance_registry.World.Statements.{Reply}
use appliance_registry.World.Codes
use appliance_registry.Program.{
  ApiError, already_exists, not_found, other, Op, insert_appliance, select_appliance, select_one,
  select_secret_hash, select_group, select_status, update_status, update_claimed,
  update_secret_hash, upsert_claim_token, select_claim_token, delete_claim_token,
  upsert_exchange_code, select_exchange_code, delete_exchange_code, prune_login_codes,
  insert_login_code, take_login_code, create_secret, update_secret, get_secret, delete_secret,
  read_random, time_now, limiter_allow, http_get, Answer, Prog, ret, fail, call,
}

abbrev pub next_fault : List Fault → Fault
next_fault [] = passes
next_fault (f ∷ _) = f

abbrev pub later {ℓ} : {A : Type ℓ} → List A → List A
later [] = []
later (_ ∷ xs) = xs

abbrev pub tick : List ℕ → ℕ
tick [] = 0
tick (t ∷ _) = t

abbrev pub supply {ℓ} : {A : Type ℓ} → List (Option A) → Option A
supply [] = none
supply (a ∷ _) = a

abbrev pub respond : List (Text → Text → Option (ℕ × Text)) → Text → Text → Option (ℕ × Text)
respond [] url bearer = none
respond (reply ∷ _) url bearer = reply url bearer

abbrev pub permit : List Bool → Bool
permit [] = false
permit (p ∷ _) = p

module _ {b : Backend} where
  -- The two last arguments: the call as carried out, and the world without it.
  abbrev pub settle :
      {E A : Type 0} → Fault → E → Result E A × World b → World b → Result E A × World b
  settle passes e done before = done
  settle refused e done before = (err e, before)
  settle unacknowledged e (_, after) before = (err e, after)

  abbrev pub attempt :
      {E A : Type 0} → E → (World b → Result E A × World b) → World b → Result E A × World b
  attempt e f w =
      let w' : World b = record w { faults = later w.faults } in
      settle (next_fault w.faults) e (f w') w'

  abbrev pub on_db : {A : Type 0} → (Database → Reply A) → World b → Result DbError A × World b
  on_db f = attempt unavailable (λ w. let (r, db') = f w.db in (r, record w { db = db' }))

  abbrev created : SecretKey → Secret → World b → Result ApiError (Unit {0}) × World b
  created k s w = elim (b.lookup w.cluster k) [
    | some _ ↦ (err already_exists, w)
    | none ↦ (ok tt, record w { cluster = b.store w.cluster k s })
  ]

  abbrev updated : SecretKey → Secret → World b → Result ApiError (Unit {0}) × World b
  updated k s w = elim (b.lookup w.cluster k) [
    | none ↦ (err not_found, w)
    | some _ ↦ (ok tt, record w { cluster = b.store w.cluster k s })
  ]

  abbrev found : SecretKey → World b → Result ApiError Secret × World b
  found k w = elim (b.lookup w.cluster k) [ none ↦ (err not_found, w) | some s ↦ (ok s, w) ]

  abbrev deleted : SecretKey → World b → Result ApiError (Unit {0}) × World b
  deleted k w = elim (b.lookup w.cluster k) [
    | none ↦ (err not_found, w)
    | some _ ↦ (ok tt, record w { cluster = b.remove w.cluster k })
  ]

  -- CURRENT_TIMESTAMP is the clock as a TIMESTAMP column holds it.
  unfoldable pub perform : (o : Op) → World b → Answer o × World b
  perform (insert_appliance name label g) w =
      on_db (Statements.insert_appliance name label g (b.column_time w.clock)) w
  perform (select_appliance id) w = on_db (Statements.select_appliance id) w
  perform (select_one id) w = on_db (Statements.select_one id) w
  perform (select_secret_hash id) w = on_db (Statements.select_secret_hash id) w
  perform (select_group g f) w = on_db (Statements.select_group b.collate g f) w
  perform (select_status s) w = on_db (Statements.select_status s) w
  perform (update_status id s) w = on_db (Statements.update_status id s) w
  perform (update_claimed id) w = on_db (Statements.update_claimed id (b.column_time w.clock)) w
  perform (update_secret_hash id h) w = on_db (Statements.update_secret_hash id h) w
  perform (upsert_claim_token t) w =
      on_db (Codes.upsert_claim_token (record t { expires_at = b.column_time t.expires_at })) w
  perform (select_claim_token id) w = on_db (Codes.select_claim_token id) w
  perform (delete_claim_token id) w = on_db (Codes.delete_claim_token id) w
  perform (upsert_exchange_code c) w =
      on_db (Codes.upsert_exchange_code (record c { expires_at = b.column_time c.expires_at })) w
  perform (select_exchange_code id) w = on_db (Codes.select_exchange_code id) w
  perform (delete_exchange_code id) w = on_db (Codes.delete_exchange_code id) w
  perform (prune_login_codes now) w = on_db (Codes.prune_login_codes now) w
  perform (insert_login_code c) w =
      on_db (Codes.insert_login_code (record c { expires_at = b.column_time c.expires_at })) w
  perform (take_login_code hash id) w = on_db (Codes.take_login_code hash id) w
  perform (create_secret k s) w = attempt other (created k s) w
  perform (update_secret k s) w = attempt other (updated k s) w
  perform (get_secret k) w = attempt other (found k) w
  perform (delete_secret k) w = attempt other (deleted k) w
  perform (read_random n) w = (supply w.entropy, record w { entropy = later w.entropy })
  perform time_now w =
      (w.clock + tick w.ticks, record w { clock = w.clock + tick w.ticks; ticks = later w.ticks })
  perform limiter_allow w = (permit w.permits, record w { permits = later w.permits })
  perform (http_get url bearer) w =
      (respond w.replies url bearer, record w { replies = later w.replies })

  unfoldable pub run : {E A : Type 0} → Prog E A → World b → Result E A × World b
  run (ret a) w = (ok a, w)
  run (fail e) w = (err e, w)
  run (call o k) w = let (r, w') = perform o w in run (k r) w'
