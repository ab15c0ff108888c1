-- ===== src/Mariadb/Store/Logins.antt =====
-- internal/persistence/mariadb/mariadb.go: SaveLoginCode and ConsumeLoginCode, against their promises.
use appliance_registry.Prelude.{
  ℕ, ◌+◌, ◌≡◌, Bool, not, Option, none, some, List, [], ◌∷◌, Text, ok, err, arith, ap, ◌∙◌, ◌==◌,
  ltb, find, keep, Option-cases, inl, inr,
}
use mathlib.Core.Path.{fun_ext}
use appliance_registry.External.{Backend}
use appliance_registry.Persistence.{LoginCode, unavailable, duplicate}
use appliance_registry.World.{World}
use appliance_registry.World.Statements.{row_of}
use appliance_registry.World.Codes
use appliance_registry.World.Codes.{has_hash, has_hash_of}
use appliance_registry.World.Keys.{IsDistinct}
use appliance_registry.Program.{◌>>=◌}
use appliance_registry.Program.Run.{run, perform, tick}
use appliance_registry.Mariadb
use appliance_registry.Mariadb.Store.{
  view, put_text, only_if, exec, spec, save_login_code, consume_login_code,
}
use appliance_registry.Mariadb.Store.Lookups.{find-keep_text, find-keep_only, find-and}
use appliance_registry.Mariadb.Store.Reads.{observe, Refines}

abbrev AreDistinct : List LoginCode → Type 0
AreDistinct = IsDistinct (λ c d. has_hash c.code_hash d)

module _ {b : Backend} (w : World b) (calm : w.faults ≡ [])
    (distinct : AreDistinct w.login_codes) where
  pub consume_login_code-Refines : (hash : Text) (id : ℕ) → Refines (consume_login_code hash id) w
  unfolding run perform Mariadb.consume_login_code Codes.take_login_code row_of
  consume_login_code-Refines hash id =
      let mine : LoginCode → Bool = λ c. c.appliance_id == id in
      let found : find (has_hash_of hash id) w.login_codes
          ≡ only_if mine (find (has_hash hash) w.login_codes) =
        find-and (has_hash hash) mine w.login_codes
        ∙ find-keep_only (λ c. c.code_hash) mine hash w.login_codes distinct in
      elim (Option-cases (find (has_hash_of hash id) w.login_codes)) [
        | inl e ↦ ground (arith, calm, e, found)
        | inr (c, e) ↦
            let ran : observe (run (exec (consume_login_code hash id)) w) ≡ (
              ok c,
              view (record w.db { login_codes = keep (λ u. not (has_hash hash u)) w.login_codes }),
            ) =
              ground (arith, calm, e) in
            let promise : (
              ok c,
              record (view w.db) { logins = put_text hash none (view w.db).logins },
            )
                ≡ spec b.column_time w.clock (w.clock + tick w.ticks) (consume_login_code hash id)
                    (view w.db) =
              ground (arith, e, found) in
            ran
            ∙ ap (λ f. (ok c, record (view w.db) { logins = f }))
                (fun_ext (λ k. find-keep_text (λ c. c.code_hash) hash k w.login_codes))
            ∙ promise
      ]

  pub save_login_code-Refines :
      (hash : Text) (id user t : ℕ) → Refines (save_login_code hash id user t) w
  unfolding run perform Mariadb.save_login_code Codes.prune_login_codes Codes.insert_login_code
      row_of ◌>>=◌ find
  save_login_code-Refines hash id user t =
      let now = w.clock + tick w.ticks in
      let live : LoginCode → Bool = λ c. not (ltb c.expires_at now) in
      let pruned = keep live w.login_codes in
      let kept : Text → Option LoginCode = λ k. only_if live (find (has_hash k) w.login_codes) in
      let same : (λ k. find (has_hash k) pruned) ≡ kept =
        fun_ext (λ k. find-keep_only (λ c. c.code_hash) live k w.login_codes distinct) in
      let there = ap (λ f. f hash) same in
      let new : LoginCode = record {
        code_hash = hash;
        appliance_id = id;
        user_id = user;
        expires_at = b.column_time t;
      } in
      let m = save_login_code hash id user t in
      let promised = spec b.column_time w.clock now m (view w.db) in
      elim (Option-cases (row_of id w.db)) [
        | inl e ↦
            let ran : observe (run (exec m) w)
                ≡ (err unavailable, view (record w.db { login_codes = pruned })) =
              ground (arith, calm, e) in
            ran
            ∙ ap (λ f. (err unavailable, record (view w.db) { logins = f })) same
            ∙ ground (arith, e)
        | inr (r, e) ↦ elim (Option-cases (find (has_hash hash) pruned)) [
          | inr (c, k) ↦
              let ran : observe (run (exec m) w)
                  ≡ (err duplicate, view (record w.db { login_codes = pruned })) =
                ground (arith, calm, e, k) in
              ran
              ∙ ap (λ f. (err duplicate, record (view w.db) { logins = f })) same
              ∙ ground (arith, e, k, there)
          | inl k ↦
              let ran : observe (run (exec m) w)
                  ≡ (ok tt, view (record w.db { login_codes = new ∷ pruned })) =
                ground (arith, calm, e, k) in
              ran
              ∙ ap (λ f. (ok tt, record (view w.db) { logins = put_text hash (some new) f })) same
              ∙ ground (arith, e, k, there)
        ]
      ]
