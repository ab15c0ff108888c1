-- ===== src/Tests/History.antt =====
-- What stays true while the service runs.
use appliance_registry.Prelude.{
  ℕ, ◌≡◌, ◌≢◌, ◌≤◌, refl, arith, List, [], ◌∷◌, Text, text, ok, none, some,
}
use appliance_registry.Persistence.{Appliance, active, pending}
use appliance_registry.World.{World}
use appliance_registry.World.Lifecycle.{stage}
use appliance_registry.World.Consistency.{HasKeys}
use appliance_registry.World.Integrity.{IsConsistent}
use appliance_registry.Program.Run.{run}
use appliance_registry.Mariadb.Store
use appliance_registry.Mariadb.Store.{view, exec, spec}
use appliance_registry.Mariadb.Store.Reads.{observe}
use appliance_registry.Mariadb.Store.Refinement.{exec-Refines}
use appliance_registry.K8sSecrets.{secret_key, write_appliance_secret, delete_appliance_secret}
use appliance_registry.K8sSecrets.Names.{appliance_secrets-other}
use appliance_registry.WebApp.{authenticate_appliance, hostname}
use appliance_registry.WebApp.Server.Addresses.{hostnames-ne}
use appliance_registry.WebApp.Rotation.{revoke}
use appliance_registry.WebApp.Server.{Request, serve, serve_all}
use appliance_registry.WebApp.Server
use appliance_registry.WebApp.Server.History.{stage-le-serve_all, revoke_then_authenticate}
use appliance_registry.WebApp.Server.Interleaving.{Reach-IsConsistent, Reach-serve_all}
use appliance_registry.Tests.Fixtures.{backend, env, app, tables, start, everything}

abbrev secret : Text
secret = text "Bearer s2"

abbrev active_two : Appliance
active_two = record {
  id = 2;
  name = text "n";
  hostname_label = text "c";
  group_id = 3;
  status = active;
  created_at = 1;
  claimed_at = none;
  last_seen_at = none;
}

-- A user revokes appliance 2, and asks for a new secret of it.
abbrev requests : List Request
requests = Server.revoke (text "use") 2 ∷ Server.rotate_secret (text "use") 2 ∷ []

stage-le-serve_all_example : stage 2 start.db ≤ stage 2 (serve_all env app requests start).db
stage-le-serve_all_example = stage-le-serve_all env app 2 requests start

abbrev dismissed : World backend
dismissed = (run (revoke env app (text "use") 2) start).1

-- The old secret, after a failed rotation.
revoke_then_authenticate_example :
    (run
      (authenticate_appliance env app 2 secret)
      (serve_all env app (Server.rotate_secret (text "use") 2 ∷ []) dismissed)).0
    ≢ ok active_two
unfolding everything
revoke_then_authenticate_example =
    revoke_then_authenticate env app (text "use") 2 start {w' = dismissed} refl
      (Server.rotate_secret (text "use") 2 ∷ []) secret active_two

tables-HasKeys : HasKeys tables
unfolding everything
tables-HasKeys = record {
  ids = (refl, (refl, (refl, (refl, tt))));
  below = (omega arith, (omega arith, (omega arith, (omega arith, tt))));
  labels = (refl, (refl, (refl, (refl, tt))));
}

pub tables-IsConsistent : IsConsistent tables
unfolding everything
tables-IsConsistent = (
  tables-HasKeys,
  (
    record { distinct = (refl, tt); owned = (record { bound = omega arith }, tt) },
    (
      record { distinct = (refl, tt); owned = (record { bound = omega arith }, tt) },
      record { distinct = (refl, tt); owned = (record { bound = omega arith }, tt) },
    ),
  ),
)

-- Appliance 2 logs a user in, a user registers an appliance, and appliance 2 is revoked.
abbrev pub served : List Request
served =
    Server.redeem_login_code secret 2 (record { code = text "lc" })
    ∷ Server.register (text "use") (record { name = text "My Pi" })
    ∷ Server.revoke (text "use") 2
    ∷ []

Reach-IsConsistent_example : IsConsistent (serve_all env app served start).db
Reach-IsConsistent_example =
    Reach-IsConsistent env app start
      (record { world = serve_all env app served start; requests = [] }) tables-IsConsistent
      (Reach-serve_all env app served start)

abbrev written : World backend
written = (run (write_appliance_secret app.secret_writer 2 (text "a")) start).1

-- Appliance 2 has a Secret; the one of appliance 1 is written, or deleted.
appliance_secrets-other_example :
    (backend.lookup
        (run (write_appliance_secret app.secret_writer 1 (text "a")) written).1.cluster
        (secret_key (text "ns") 2)
      ≡ backend.lookup written.cluster (secret_key (text "ns") 2))
    × (backend.lookup
          (run (delete_appliance_secret app.secret_writer 1) written).1.cluster
          (secret_key (text "ns") 2)
        ≡ backend.lookup written.cluster (secret_key (text "ns") 2))
appliance_secrets-other_example =
    appliance_secrets-other backend (text "ns") 1 2 (λ e. ground arith) app.secret_writer (text "a")
      written

-- What the answer to the registration, and to a second one, shows.
abbrev labelled : ℕ → Text → Appliance
labelled id label = record active_two {
  id = id;
  name = text "My Pi";
  hostname_label = label;
  status = pending;
  created_at = 11;
}

abbrev registrations : List Request
registrations =
    Server.register (text "use") (record { name = text "My Pi" })
    ∷ Server.register (text "use") (record { name = text "My Pi" })
    ∷ []

abbrev crowded : World backend
crowded = record start {
  entropy = some (1 ∷ []) ∷ some (2 ∷ []) ∷ some (1 ∷ []) ∷ some (3 ∷ []) ∷ some (4 ∷ []) ∷ [];
}

-- The second one draws the label of the first, and another.
hostnames-ne_example :
    hostname env app (record (labelled 5 (text "my-pi-01")) { created_at = 10 })
    ≢ hostname env app (labelled 6 (text "my-pi-03"))
unfolding everything
hostnames-ne_example =
    hostnames-ne env app crowded
      (record { world = serve_all env app registrations crowded; requests = [] }) 5 6
      (record (labelled 5 (text "my-pi-01")) { created_at = 10 }) (labelled 6 (text "my-pi-03"))
      tables-IsConsistent (Reach-serve_all env app registrations crowded) (λ e. ground arith) refl
      refl

-- The pending appliance 1 is marked as claimed.
exec-Refines_example :
    observe (run (exec (Store.mark_appliance_claimed 1)) start)
    ≡ spec backend.column_time 10 11 (Store.mark_appliance_claimed 1) (view start.db)
unfolding everything
exec-Refines_example =
    exec-Refines (Store.mark_appliance_claimed 1) start refl tables-IsConsistent refl
