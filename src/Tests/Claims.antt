-- ===== src/Tests/Claims.antt =====
-- Claims, registrations and the requests after them.
use appliance_registry.Prelude.{◌≡◌, ◌≢◌, refl, text, ok, [], ◌∷◌, Text, none, arith}
use appliance_registry.Program.{ret, update_status}
use appliance_registry.Persistence.{Appliance, pending, revoked}
use appliance_registry.World.{World}
use appliance_registry.RestModels.{ClaimApplianceResponse, RegisterApplianceResponse}
use appliance_registry.Program.Run.{run, perform}
use appliance_registry.WebApp.{to_appliance_response}
use appliance_registry.WebApp.Registration
use appliance_registry.RestModels.{EnrollApplianceResponse}
use appliance_registry.WebApp.Registration.Enrolled.{Enrolled, enroll-Enrolled}
use appliance_registry.WebApp.Registration.Issued.{Registered, register-Registered}
use appliance_registry.WebApp.Claiming.{claim, enroll_redeem, claim_response}
use appliance_registry.WebApp.Claiming.Outcomes.{
  ClaimProved, CodeProved, Claimed, claim-Claimed, enroll_redeem-Claimed,
}
use appliance_registry.WebApp.Claiming.Success.{claim_succeeds}
use appliance_registry.WebApp.Claiming.Access.{claim_then_authenticate}
use appliance_registry.Persistence.{active}
use appliance_registry.WebApp.{authenticate_appliance}
use appliance_registry.WebApp.Server.{Request, secret_issued, serve}
use appliance_registry.WebApp.Server.Among.{ended, other, Among-run}
use appliance_registry.WebApp.Server.Claims.{
  claim_token, exchange_code, claim_with, claim_once-Among,
}
use appliance_registry.World.Lifecycle.{IsSettled}
use appliance_registry.WebApp.Server.Interleaving.{System, here, step, arrives, Reach-IsSettled}
use appliance_registry.Tests.Fixtures.{backend, env, app, start, everything}

abbrev token : Text
token = text "Bearer tk"

abbrev pending_one : Appliance
pending_one = record {
  id = 1;
  name = text "n";
  hostname_label = text "b";
  group_id = 3;
  status = pending;
  created_at = 1;
  claimed_at = none;
  last_seen_at = none;
}

abbrev answer : ClaimApplianceResponse
answer = claim_response env app pending_one (text "appliance-1:010203")

abbrev claimed : World backend
claimed = (run (claim env app token 1) start).1

-- The appliance is claimed with its token; another request revokes it; then its exchange code is
-- presented.
claim_once-Among_example :
    ended
      (run
        (serve env app (claim_with exchange_code token 1))
        (perform (update_status 1 revoked) claimed).1).0
    ≢ ret (secret_issued answer)
unfolding everything
claim_once-Among_example =
    claim_once-Among env app claim_token token 1 start claimed (secret_issued answer)
      (Among-run (serve env app (claim_with claim_token token 1)) start) exchange_code token _ _
      (other (update_status 1 revoked) _ claimed _ _ refl (Among-run _ _)) (secret_issued answer)

claim-Claimed_example : ClaimProved env app start token 1 × Claimed env app start 1 answer claimed
unfolding everything
claim-Claimed_example = claim-Claimed env app token 1 start {resp = answer} {w' = claimed} refl

abbrev code : Text
code = text "Bearer cd"

abbrev redeemed : World backend
redeemed = (run (enroll_redeem env app code 1) start).1

enroll_redeem-Claimed_example :
    CodeProved env app start code 1 × Claimed env app start 1 answer redeemed
unfolding everything
enroll_redeem-Claimed_example =
    enroll_redeem-Claimed env app code 1 start {resp = answer} {w' = redeemed} refl

claim_succeeds_example :
    (resp : ClaimApplianceResponse) × (w' : World backend) × (run (claim env app token 1) start
      ≡ (ok resp, w'))
    × Claimed env app start 1 resp w'
unfolding everything
claim_succeeds_example =
    claim_succeeds env app token 1 start (text "tk") _ pending_one (1 ∷ 2 ∷ 3 ∷ []) _ refl refl refl
      (omega arith) refl refl refl refl

abbrev registered : World backend
registered = (run (Registration.register env app (text "use") (text "My Pi")) start).1

abbrev registration : RegisterApplianceResponse
registration = record {
  appliance = to_appliance_response env app (record pending_one {
    id = 5;
    name = text "My Pi";
    hostname_label = text "my-pi-010203";
    created_at = 10;
  });
  claim_token = text "0405";
  claim_token_expires_at = 111;
}

register-Registered_example :
    Registered env app start (text "use") (text "My Pi") registration registered
unfolding everything
register-Registered_example =
    register-Registered env app (text "use") (text "My Pi") start {resp = registration}
      {w' = registered} refl

abbrev busy : System backend
busy = record { world = claimed; requests = serve env app (Request.revoke (text "use") 1) ∷ [] }

claimed_IsSettled : IsSettled 1 claimed.db
unfolding everything
claimed_IsSettled = record { bound = omega arith }

Reach-IsSettled_example : IsSettled 1 busy.world.db
Reach-IsSettled_example =
    Reach-IsSettled env app 1 claimed busy claimed_IsSettled
      (step _ _ _ (arrives (Request.revoke (text "use") 1) claimed []) (here busy))

abbrev own_secret : Text
own_secret = text "Bearer appliance-1:010203"

claim_then_authenticate_example :
    (a : Appliance) × (w'' : World backend) × (run
        (authenticate_appliance env app 1 own_secret)
        claimed
      ≡ (ok a, w''))
    × (a.status ≡ active)
unfolding everything
claim_then_authenticate_example =
    claim_then_authenticate env app token 1 start {resp = answer} {w' = claimed} refl own_secret
      refl (λ e. ground arith) refl

abbrev enrolled : World backend
enrolled = (run (Registration.enroll env app (text "use") (text "My Pi")) start).1

abbrev enrolment : EnrollApplianceResponse
enrolment = record { appliance_id = 5; exchange_code = text "06"; exchange_code_expires_at = 62 }

enroll-Enrolled_example : Enrolled env app start (text "use") (text "My Pi") enrolment enrolled
unfolding everything
enroll-Enrolled_example =
    enroll-Enrolled env app (text "use") (text "My Pi") start {resp = enrolment} {w' = enrolled}
      refl
