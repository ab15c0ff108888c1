-- ===== src/Tests/Serving.antt =====
-- How much a server does for its requests, and which it answers with the status 500.
use appliance_registry.Prelude.{◌+◌, ◌*◌, ◌≤◌, ◌≢◌, refl, some, [], ◌∷◌, text, err, arith}
use appliance_registry.Program.LoginCodes.{on_file}
use appliance_registry.Program.Run.{run}
use appliance_registry.WebApp.{internal_error}
use appliance_registry.WebApp.Server
use appliance_registry.WebApp.Server.{Request, serve, serve_all}
use appliance_registry.WebApp.Server.Interleaving.{Reach, Reach-serve_all}
use appliance_registry.WebApp.Server.Calls.{calls, arrivals, calls-le}
use appliance_registry.WebApp.Server.Redemptions.{redemptions, issues, redemptions-le}
use appliance_registry.WebApp.Server.Errors.Responses.{serve-ne-internal_error}
use appliance_registry.Tests.Fixtures.{backend, env, app, start, everything}
use appliance_registry.Tests.History.{served, tables-IsConsistent}

abbrev history :
    Reach {b = backend} env app
      (record { world = start; requests = [] })
      (record { world = serve_all env app served start; requests = [] })
history = Reach-serve_all env app served start

calls-le_example : calls env app history ≤ 21 * arrivals env app history
calls-le_example =
    calls-le env app start (record { world = serve_all env app served start; requests = [] })
      history

-- The code of appliance 2 is consumed once.
redemptions-le_example :
    redemptions env app (text "6c63") history
      + on_file (text "6c63") (serve_all env app served start).db
    ≤ issues env app (text "6c63") history + on_file (text "6c63") start.db
redemptions-le_example = redemptions-le env app (text "6c63") history

serve-ne-internal_error_example :
    (run (serve env app (Server.register (text "use") (record { name = text "My Pi" }))) start).0
    ≢ err (internal_error "failed to register appliance")
unfolding everything
serve-ne-internal_error_example =
    serve-ne-internal_error env app (Server.register (text "use") (record { name = text "My Pi" }))
      start "failed to register appliance" tables-IsConsistent refl
      (
        4 ∷ 5 ∷ [],
        some (6 ∷ []) ∷ [],
        record {
          taken = [];
          bytes = 1 ∷ 2 ∷ 3 ∷ [];
          few = omega arith;
          all = tt;
          free = refl;
          reads = refl;
        },
      )
