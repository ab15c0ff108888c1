-- ===== src/Tests/Access.antt =====
-- Login codes, rotations and revocations.
use appliance_registry.Prelude.{arith, ◌≡◌, ◌≢◌, refl, text, ok, err, Text, none}
use appliance_registry.Persistence.{Appliance, active, revoked}
use appliance_registry.World.{World}
use appliance_registry.RestModels.{ClaimApplianceResponse, LoginCodeResponse}
use appliance_registry.Program.Run.{run, perform}
use appliance_registry.Mariadb.Results.{SameStores}
use appliance_registry.WebApp.{internal_error, authenticate_appliance}
use appliance_registry.WebApp.Outcomes.{Authenticated, authenticate_appliance-eq-ok}
use appliance_registry.WebApp.Claiming.{claim_response}
use appliance_registry.WebApp.Login.{create_login_code, redeem_login_code, user_response}
use appliance_registry.WebApp.Login.Outcomes.{Redeemed, redeem_login_code-Redeemed}
use appliance_registry.WebApp.Login.Issuing.{CodeIssued, create_login_code-CodeIssued}
use appliance_registry.WebApp.Rotation.{revoke, rotate_secret, rotate_own_secret}
use appliance_registry.WebApp.Rotation.Outcomes.{
  Rotated, Owned, rotate_secret-Rotated, rotate_own_secret-Rotated,
}
use appliance_registry.WebApp.Rotation.Revocation.{Revoked, revoke-Revoked, revoke_again}
use appliance_registry.WebApp.Rotation.Access.{rotate_then_authenticate}
use appliance_registry.WebApp.Rotation.Success.{revoke_succeeds}
use appliance_registry.WebApp.Rotation.Hidden.{hidden_alike, is_visible}
use appliance_registry.Program.{ret, read_random}
use appliance_registry.WebApp.Server
use appliance_registry.WebApp.Server.{serve, no_content}
use appliance_registry.WebApp.Server.Among.{ended, other, Among-run}
use appliance_registry.WebApp.Server.Revocations.{rotation, sent_by, revoke_then_errand-Among}
use appliance_registry.Tests.Fixtures.{backend, env, app, start, everything, alice}

abbrev use_token : Text
use_token = text "use"

abbrev secret : Text
secret = text "Bearer s2"

abbrev active_two : Appliance
active_two = record {
  id = 2;
  name = text "n";
  hostname_label = text "c";
  group_id = 3;
  status = active;
  created_at = 1;
  claimed_at = none;
  last_seen_at = none;
}

abbrev authenticated : World backend
authenticated = (run (authenticate_appliance env app 2 secret) start).1

authenticate_appliance_example :
    Authenticated env app start 2 secret active_two × SameStores start authenticated
unfolding everything
authenticate_appliance_example =
    authenticate_appliance-eq-ok env app 2 secret start {a = active_two} {w' = authenticated} refl

abbrev logged_in : World backend
logged_in = (run (redeem_login_code env app secret 2 (text "lc")) start).1

redeem_login_code_example :
    Redeemed env app start secret 2 (text "lc") (user_response alice) logged_in
unfolding everything
redeem_login_code_example =
    redeem_login_code-Redeemed env app secret 2 (text "lc") start {resp = user_response alice}
      {w' = logged_in} refl

abbrev issued : World backend
issued = (run (create_login_code env app use_token 2) start).1

abbrev login_answer : LoginCodeResponse
login_answer = record { code = text "010203"; expires_at = 61; hostname = text "c.x.io" }

create_login_code_example : CodeIssued env app start use_token 2 login_answer issued
unfolding everything
create_login_code_example =
    create_login_code-CodeIssued env app use_token 2 start {resp = login_answer} {w' = issued} refl

abbrev answer : ClaimApplianceResponse
answer = claim_response env app active_two (text "appliance-2:010203")

abbrev rotated : World backend
rotated = (run (rotate_secret env app use_token 2) start).1

rotate_secret_example :
    ((o : Owned env app start use_token 2) × (o.appliance.status ≡ active))
    × Rotated env app start 2 answer rotated
unfolding everything
rotate_secret_example =
    rotate_secret-Rotated env app use_token 2 start {resp = answer} {w' = rotated} refl

abbrev self_rotated : World backend
self_rotated = (run (rotate_own_secret env app secret 2) start).1

rotate_own_secret_example :
    ((a : Appliance) × Authenticated env app start 2 secret a)
    × Rotated env app start 2 answer self_rotated
unfolding everything
rotate_own_secret_example =
    rotate_own_secret-Rotated env app secret 2 start {resp = answer} {w' = self_rotated} refl

abbrev dismissed : World backend
dismissed = (run (revoke env app use_token 2) start).1

revoke_example : Revoked env app start use_token 2 dismissed
unfolding everything
revoke_example = revoke-Revoked env app use_token 2 start {w' = dismissed} refl

revoke_succeeds_example :
    (w' : World backend) × (run (revoke env app use_token 2) start ≡ (ok tt, w'))
    × Revoked env app start use_token 2 w'
unfolding everything
revoke_succeeds_example =
    revoke_succeeds env app use_token 2 start (record { user_id = 7; group_id = 3 }) active_two refl
      refl refl refl refl

abbrev revoked_three : Appliance
revoked_three = record active_two { id = 3; hostname_label = text "d"; status = revoked }

abbrev refused : World backend
refused = (run (revoke env app use_token 3) start).1

revoke_again_example :
    (err (internal_error "failed to revoke appliance") ≢ ok tt) × (refused.cluster ≡ start.cluster)
unfolding everything
revoke_again_example =
    revoke_again env app use_token 3 start revoked_three refl refl
      {r = err (internal_error "failed to revoke appliance")} {w' = refused} refl

-- Appliance 4 is another group's, and 99 does not exist.
hidden_alike_example :
    (run (revoke env app use_token 4) start ≡ run (revoke env app use_token 99) start)
    × (run (rotate_secret env app use_token 4) start
        ≡ run (rotate_secret env app use_token 99) start)
    × (run (create_login_code env app use_token 4) start
        ≡ run (create_login_code env app use_token 99) start)
unfolding everything is_visible
hidden_alike_example =
    hidden_alike env app use_token 4 99 (record { user_id = 7; group_id = 3 }) start refl refl refl

-- The secret from before the rotation.
rotate_then_authenticate_example :
    (run (authenticate_appliance env app 2 secret) rotated).0 ≢ ok active_two
unfolding everything
rotate_then_authenticate_example =
    rotate_then_authenticate env app use_token 2 start {resp = answer} {w' = rotated} refl secret
      (text "s2") refl (λ e. ground arith) active_two

abbrev revoked_two : World backend
revoked_two = (run (serve env app (Server.revoke use_token 2)) start).1

-- Appliance 2 is revoked; another request reads a random byte; then it rotates its secret.
revoke_then_errand-Among_example :
    ended
      (run (serve env app (sent_by rotation secret 2)) (perform (read_random 1) revoked_two).1).0
    ≢ ret no_content
unfolding everything
revoke_then_errand-Among_example =
    revoke_then_errand-Among env app use_token 2 start revoked_two no_content
      (Among-run (serve env app (Server.revoke use_token 2)) start) rotation secret _ _
      (other (read_random 1) _ revoked_two _ _ tt (Among-run _ _)) no_content
