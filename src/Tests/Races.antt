-- ===== src/Tests/Races.antt =====
-- A claim that another request overtakes: MarkApplianceClaimed does not look at the status. And what
-- the two methods that set a status do where their promises do not hold.
use appliance_registry.Prelude.{true, none, ◌≡◌, refl, text, ok, err}
use appliance_registry.Persistence.{pending, revoked, no_rows}
use appliance_registry.World.{World}
use appliance_registry.World.Lifecycle.{stage}
use appliance_registry.Program.{Prog, ret, call, update_status}
use appliance_registry.Program.Run.{perform, run}
use appliance_registry.Mariadb.Store
use appliance_registry.Mariadb.Store.{exec, spec, view}
use appliance_registry.Mariadb.Footprint.{Emitted}
use appliance_registry.WebApp.{Handler, Failure}
use appliance_registry.WebApp.Claiming.{claim_response}
use appliance_registry.WebApp.Server.{Response, secret_issued, serve}
use appliance_registry.WebApp.Server.Among.{Among, own, other, Among-run}
use appliance_registry.WebApp.Server.Claims.{claim_token, claim_with}
use appliance_registry.Tests.Fixtures.{backend, env, app, row, start, everything}

abbrev claiming : Handler Response
claiming = serve env app (claim_with claim_token (text "Bearer tk") 1)

-- The next call of a request, and what is left of it.
abbrev advance : {A : Type 0} → Prog Failure A × World backend → Prog Failure A × World backend
advance (call o k, w) = (k (perform o w).0, (perform o w).1)
advance p = p

-- The claim has looked up the token, the time and the appliance, which is pending.
abbrev halfway : Handler Response × World backend
halfway = advance (advance (advance (claiming, start)))

-- Then a revocation sets the status, and the claim goes on.
abbrev revoked_meanwhile : World backend
revoked_meanwhile = (perform (update_status 1 revoked) halfway.1).1

abbrev overtaken : World backend
overtaken = (run halfway.0 revoked_meanwhile).1

-- The revoked appliance is active at the end.
reactivated : (stage 1 revoked_meanwhile.db ≡ 3) × (stage 1 overtaken.db ≡ 2)
unfolding everything
reactivated = (refl, refl)

abbrev answer : Response
answer =
    secret_issued
      (claim_response env app (row 1 pending 3 none).appliance (text "appliance-1:010203"))

claim_overtaken : Among (Emitted true) claiming start (ret answer) overtaken
unfolding everything
claim_overtaken =
    own _ _ _ _ _
      (own _ _ _ _ _ (own _ _ _ _ _ (other (update_status 1 revoked) _ _ _ _ refl (Among-run _ _))))

-- There the method reports that the appliance is claimed, where the interface promises to find none that
-- is pending.
mark_unpromised :
    ((run (exec (Store.mark_appliance_claimed 1)) revoked_meanwhile).0 ≡ ok tt)
    × ((spec backend.column_time 13 14
          (Store.mark_appliance_claimed 1)
          (view revoked_meanwhile.db)).0
        ≡ err no_rows)
unfolding everything
mark_unpromised = (refl, refl)

-- A status that is set already is reported as a missing row.
status_unpromised :
    ((run (exec (Store.set_appliance_status 1 revoked)) revoked_meanwhile).0 ≡ err no_rows)
    × ((spec backend.column_time 13 14
          (Store.set_appliance_status 1 revoked)
          (view revoked_meanwhile.db)).0
        ≡ ok tt)
unfolding everything
status_unpromised = (refl, refl)
