-- ===== src/WebApp/Rotation/Hidden.antt =====
-- internal/appliancewebapp/webapp.go: what a caller learns of an appliance that is not its group's, from
-- requireOwningGroup and from the handlers that call it.
use appliance_registry.Prelude.{
  ℕ, ◌≡◌, sym, ap, ◌∙◌, Bool, false, none, some, Text, err, Result, arith, ◌==◌,
}
use appliance_registry.External.{External, Backend, Identity}
use appliance_registry.Persistence.{Appliance}
use appliance_registry.World.{World, Database, Fault, passes, refused, unacknowledged}
use appliance_registry.World.Statements
use appliance_registry.World.Rows.{appliance_of}
use appliance_registry.Mariadb
use appliance_registry.Program.{on_error, ◌>>=◌}
use appliance_registry.Program.Run.{run, perform, next_fault, later}
use appliance_registry.Program.Rules.{run->>=, resume}
use appliance_registry.WebApp.{
  WebApp, Failure, Handler, not_found, unauthorized, required, internal_error, use_token,
  require_owning_group,
}
use appliance_registry.WebApp.Rotation.{revoke, rotate_secret}
use appliance_registry.WebApp.Login.{create_login_code}

-- Whether there is an appliance with that id, and it is the group's.
unfoldable pub is_visible : ℕ → ℕ → Database → Bool
is_visible id group_id db = elim (appliance_of id db) [
  | none ↦ false
  | some a ↦ a.group_id == group_id
]

-- The error of the look-up, by what becomes of the query.
abbrev denial : Fault → Failure
denial passes = not_found "appliance not found"
denial refused = internal_error "failed to look up appliance"
denial unacknowledged = internal_error "failed to look up appliance"

module _ {b : Backend} (x : External) (app : WebApp) where
  abbrev denied : {A : Type 0} → World b → Result Failure A × World b
  denied w = (err (denial (next_fault w.faults)), record w { faults = later w.faults })

  require_owning_group-denied :
      (id g : ℕ) (w : World b)
      → is_visible id g w.db ≡ false
      → run (require_owning_group x app id g) w ≡ denied w
  unfolding is_visible require_owning_group Mariadb.get_appliance Statements.select_appliance run
      perform on_error ◌>>=◌
  require_owning_group-denied id g w h = ground arith

  -- A handler that starts with the caller's identity and its group's appliance.
  denied_handler :
      {A : Type 0} (authorization : Text) (id : ℕ) (who : Identity)
      (k : Identity → Appliance → Handler A) (w : World b)
      → x.verify authorization ≡ some who
      → is_visible id who.group_id w.db ≡ false
      → run
          (use_token x app authorization
            >>= (λ i. require_owning_group x app id i.group_id >>= k i))
          w
        ≡ denied w
  unfolding use_token run ◌>>=◌
  denied_handler authorization id who k w v h =
      ap
        (λ o.
          run
            (required (unauthorized "invalid or expired token") o
              >>= (λ i. require_owning_group x app id i.group_id >>= k i))
            w)
        v
      ∙ run->>= (require_owning_group x app id who.group_id) (k who) w
      ∙ ap (resume (k who)) (require_owning_group-denied id who.group_id w h)

  module _ (authorization : Text) (id id' : ℕ) (who : Identity) (w : World b) where
    -- To a caller with a valid token, an appliance of another group and an id that does not exist look
    -- the same: revoking, rotating and asking for a login code each give the same response on either,
    -- and leave the same world.
    pub hidden_alike :
        x.verify authorization ≡ some who
        → is_visible id who.group_id w.db ≡ false
        → is_visible id' who.group_id w.db ≡ false
        → (run (revoke x app authorization id) w ≡ run (revoke x app authorization id') w)
          × (run (rotate_secret x app authorization id) w
              ≡ run (rotate_secret x app authorization id') w)
          × (run (create_login_code x app authorization id) w
              ≡ run (create_login_code x app authorization id') w)
    unfolding revoke rotate_secret create_login_code
    hidden_alike v h h' = (
      denied_handler authorization id who _ w v h
          ∙ sym (denied_handler authorization id' who _ w v h'),
      denied_handler authorization id who _ w v h
          ∙ sym (denied_handler authorization id' who _ w v h'),
      denied_handler authorization id who _ w v h
          ∙ sym (denied_handler authorization id' who _ w v h'),
    )
