-- ===== src/Mariadb/Success.antt =====
-- Calls to internal/persistence/mariadb/mariadb.go, and those that stand between them, where nothing
-- fails: each returns its result.
use appliance_registry.Prelude.{
  ℕ, ◌+◌, ◌≡◌, refl, ap, ◌∙◌, Option, some, List, [], ◌∷◌, ◌++◌, Text, text, ok, arith, find, amend,
  Result, err,
}
use appliance_registry.External.{Backend}
use appliance_registry.Persistence.{Appliance, ClaimToken, EnrollExchangeCode, pending}
use appliance_registry.World.{World, Database}
use appliance_registry.World.Statements
use appliance_registry.World.Statements.{row_of, has_id, set_hash, status_eq}
use appliance_registry.World.Codes
use appliance_registry.World.Codes.{token_of, code_of}
use appliance_registry.World.Rows.{appliance_of, row_of-amend}
use appliance_registry.Mariadb
use appliance_registry.Tokens.{random_hex, generate_appliance_secret}
use appliance_registry.K8sSecrets.{
  SecretWriter, client, noop, write_appliance_secret, overwrite_secret,
}
use appliance_registry.Text.{decimal, hex}
use appliance_registry.Program.Rules.{rescue, run-on_error}
use appliance_registry.Program.{Prog, ignore, call, ret, time_now, on_error, ◌>>=◌}
use appliance_registry.Program.Run.{run, perform, tick}
use appliance_registry.Program.Success.{Succeeds, Returns, ret_succeeds}

module _ {b : Backend} where
  -- No call is going to fail; the tables, and the random reads to come.
  pub record Calm (w : World b) (db : Database) (entropy : List (Option (List ℕ))) : Type 0 where
    pub no_faults : w.faults ≡ []
    pub same_db : w.db ≡ db
    pub same_entropy : w.entropy ≡ entropy

  module _ {db : Database} {entropy : List (Option (List ℕ))} (id : ℕ) (w : World b)
      (c : Calm w db entropy) where
    pub get_appliance_succeeds :
        {a : Appliance}
        → appliance_of id db ≡ some a
        → Returns (Mariadb.get_appliance id) w a (λ v. Calm v db entropy)
    unfolding run perform Mariadb.get_appliance Statements.select_appliance
    get_appliance_succeeds {a = a} e = record {
      after = record w { faults = [] };
      runs = ground (arith, c.no_faults, c.same_db);
      holds = ground (arith, c.same_db, c.same_entropy);
    }

    pub get_claim_token_succeeds :
        {t : ClaimToken}
        → find (token_of id) db.claim_tokens ≡ some t
        → Returns
            (Mariadb.get_claim_token id)
            w
            t
            (λ v. (v.clock ≡ w.clock) × (v.ticks ≡ w.ticks) × Calm v db entropy)
    unfolding run perform Mariadb.get_claim_token Codes.select_claim_token
    get_claim_token_succeeds {t = t} e = record {
      after = record w { faults = [] };
      runs = ground (arith, c.no_faults, c.same_db);
      holds = ground (arith, c.same_db, c.same_entropy);
    }

    pub get_enroll_exchange_code_succeeds :
        {k : EnrollExchangeCode}
        → find (code_of id) db.exchange_codes ≡ some k
        → Returns
            (Mariadb.get_enroll_exchange_code id)
            w
            k
            (λ v. (v.clock ≡ w.clock) × (v.ticks ≡ w.ticks) × Calm v db entropy)
    unfolding run perform Mariadb.get_enroll_exchange_code Codes.select_exchange_code
    get_enroll_exchange_code_succeeds {k} e = record {
      after = record w { faults = [] };
      runs = ground (arith, c.no_faults, c.same_db);
      holds = ground (arith, c.same_db, c.same_entropy);
    }

    pub time_now_succeeds :
        {E : Type 0}
        → Returns {E = E} (call time_now ret) w (w.clock + tick w.ticks) (λ v. Calm v db entropy)
    unfolding run perform
    time_now_succeeds = record {
      after = (perform time_now w).1;
      runs = refl;
      holds = ground (arith, c.same_db, c.same_entropy, c.no_faults);
    }

    pub write_appliance_secret_succeeds :
        (sw : SecretWriter) (auth : Text)
        → Succeeds (write_appliance_secret sw id auth) w (λ _ v. Calm v db entropy)
    unfolding run perform write_appliance_secret overwrite_secret on_error ◌>>=◌
    write_appliance_secret_succeeds (client n) auth = record {
      value = tt;
      after = (run (write_appliance_secret (client n) id auth) w).1;
      runs = ground (arith, c.no_faults, c.same_db, c.same_entropy);
      holds = ground (arith, c.no_faults, c.same_db, c.same_entropy);
    }
    write_appliance_secret_succeeds noop auth = ret_succeeds tt w c

    pub set_hash_succeeds :
        (hash : Option Text) {a : Appliance}
        → appliance_of id db ≡ some a
        → Succeeds (Mariadb.set_appliance_secret_hash id hash) w (λ _ v.
          Calm v
            (record db { appliances = amend (has_id id) (set_hash hash) db.appliances })
            entropy)
    unfolding run perform Mariadb.set_appliance_secret_hash Statements.update_secret_hash
        Statements.select_one ◌>>=◌
    set_hash_succeeds hash e = record {
      value = tt;
      after = (run (Mariadb.set_appliance_secret_hash id hash) w).1;
      runs =
          ground
            (arith, c.no_faults, c.same_db, e, row_of-amend (set_hash hash) id id db (λ r. refl));
      holds = ground (arith, c.no_faults, c.same_db, c.same_entropy);
    }

    pub mark_succeeds :
        {a : Appliance}
        → appliance_of id db ≡ some a
        → a.status ≡ pending
        → Succeeds (Mariadb.mark_appliance_claimed id) w (λ _ _. Unit {0})
    unfolding run perform Mariadb.mark_appliance_claimed Statements.update_claimed ◌>>=◌
    mark_succeeds e p = record {
      value = tt;
      after = (run (Mariadb.mark_appliance_claimed id) w).1;
      runs = ground (arith, c.no_faults, c.same_db, e, p);
      holds = tt;
    }

  pub generate_succeeds :
      {db : Database} {rest : List (Option (List ℕ))} (buf : List ℕ) (id : ℕ) (w : World b)
      → Calm w db (some buf ∷ rest)
      → Succeeds (generate_appliance_secret id) w (λ _ v. Calm v db rest)
  unfolding run perform generate_appliance_secret random_hex ◌>>=◌
  generate_succeeds {rest = rest} buf id w c = record {
    value = text "appliance-" ++ decimal id ++ text ":" ++ hex buf;
    after = record w { entropy = rest };
    runs = ground (arith, c.same_entropy);
    holds = ground (arith, c.same_db, c.no_faults);
  }

  pub ignore_succeeds :
      {D E A : Type 0} (a : A) (m : Prog D A) (w : World b)
      → Succeeds {E = E} (ignore a m) w (λ _ _. Unit {0})
  unfolding run
  ignore_succeeds {D = D} {E = E} {A = A} a m w = go (run m w) refl
    where
      go :
          (p : Result D A × World b)
          → run m w ≡ p
          → Succeeds {E = E} (ignore a m) w (λ _ _. Unit {0})
      go (ok r, v) e = record {
        value = r;
        after = v;
        runs = run-on_error (λ _. ret a) m w ∙ ap (rescue (λ _. ret a)) e;
        holds = tt;
      }
      go (err d, v) e = record {
        value = a;
        after = v;
        runs = run-on_error (λ _. ret a) m w ∙ ap (rescue (λ _. ret a)) e;
        holds = tt;
      }
