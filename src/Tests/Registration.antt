-- ===== src/Tests/Registration.antt =====
-- Registrations, where labels are taken.
use appliance_registry.Prelude.{ℕ, ◌≡◌, refl, some, none, ok, List, [], ◌∷◌, Option, text, arith}
use appliance_registry.Persistence.{Appliance, pending}
use appliance_registry.World.{World, Database, Row}
use appliance_registry.World.Integrity.{IsConsistent}
use appliance_registry.RestModels.{
  EnrollApplianceResponse, ClaimApplianceResponse, RegisterApplianceResponse,
}
use appliance_registry.Program.Run.{run}
use appliance_registry.WebApp.{to_appliance_response}
use appliance_registry.WebApp.Claiming.{claim, enroll_redeem}
use appliance_registry.WebApp.Claiming.Outcomes.{Claimed}
use appliance_registry.WebApp.Registration.Claimable.{register_then_claim, enroll_then_redeem}
use appliance_registry.WebApp.Registration.{register, enroll}
use appliance_registry.WebApp.Registration.Issued.{Registered}
use appliance_registry.WebApp.Registration.Success.{register_succeeds}
use appliance_registry.Tests.Fixtures.{backend, env, app, row, start, everything}

-- The label that the byte 1 leads to is taken.
abbrev namesake : Row
namesake = record (row 1 pending 3 none) {
  appliance = record (row 1 pending 3 none).appliance { hostname_label = text "my-pi-01" };
}

abbrev one_row : Database
one_row = record {
  appliances = namesake ∷ [];
  next_id = 2;
  claim_tokens = [];
  exchange_codes = [];
  login_codes = [];
}

one_row-IsConsistent : IsConsistent one_row
unfolding everything
one_row-IsConsistent = (
  record { ids = (refl, tt); below = (omega arith, tt); labels = (refl, tt) },
  (
    record { distinct = tt; owned = tt },
    (record { distinct = tt; owned = tt }, record { distinct = tt; owned = tt }),
  ),
)

abbrev one : List ℕ
one = 1 ∷ []

abbrev drawing : List (Option (List ℕ)) → World backend
drawing entropy = record start { db = one_row; entropy = entropy }

-- The second label is free.
abbrev once : World backend
once = drawing (some one ∷ some (2 ∷ []) ∷ some (3 ∷ []) ∷ [])

register_succeeds_example :
    (resp : RegisterApplianceResponse) × (w' : World backend) × (run
        (register env app (text "use") (text "My Pi"))
        once
      ≡ (ok resp, w'))
    × Registered env app once (text "use") (text "My Pi") resp w'
unfolding everything
register_succeeds_example =
    register_succeeds env app (text "use") (text "My Pi") once
      (record { user_id = 7; group_id = 3 }) (one ∷ []) (2 ∷ []) (3 ∷ []) [] refl (omega arith)
      ((namesake, refl), tt) refl one_row-IsConsistent refl refl

-- A registration, and the claim with its claim token.
abbrev stocked : World backend
stocked = drawing (some (2 ∷ []) ∷ some (3 ∷ []) ∷ some (4 ∷ []) ∷ [])

abbrev second : Appliance
second = record (row 2 pending 3 none).appliance {
  name = text "My Pi";
  hostname_label = text "my-pi-02";
  created_at = 10;
}

abbrev registered : RegisterApplianceResponse
registered = record {
  appliance = to_appliance_response env app second;
  claim_token = text "03";
  claim_token_expires_at = 111;
}

abbrev after_registration : World backend
after_registration = (run (register env app (text "use") (text "My Pi")) stocked).1

register_then_claim_example :
    (answer : ClaimApplianceResponse) × (w : World backend) × (run
        (claim env app (text "Bearer 03") registered.appliance.id)
        after_registration
      ≡ (ok answer, w))
    × Claimed env app after_registration registered.appliance.id answer w
unfolding everything
register_then_claim_example =
    register_then_claim env app (text "use") (text "My Pi") stocked {resp = registered}
      {w' = after_registration} one_row-IsConsistent refl (text "Bearer 03") refl (omega arith) refl
      (4 ∷ []) [] refl

-- An enrolment, and the redemption of its exchange code.
abbrev enrolled : EnrollApplianceResponse
enrolled = record { appliance_id = 2; exchange_code = text "04"; exchange_code_expires_at = 62 }

abbrev supplied_with_four : World backend
supplied_with_four = drawing (some (2 ∷ []) ∷ some (3 ∷ []) ∷ some (4 ∷ []) ∷ some (5 ∷ []) ∷ [])

abbrev after_enrolment : World backend
after_enrolment = (run (enroll env app (text "use") (text "My Pi")) supplied_with_four).1

enroll_then_redeem_example :
    (answer : ClaimApplianceResponse) × (w : World backend) × (run
        (enroll_redeem env app (text "Bearer 04") 2)
        after_enrolment
      ≡ (ok answer, w))
    × Claimed env app after_enrolment 2 answer w
unfolding everything
enroll_then_redeem_example =
    enroll_then_redeem env app (text "use") (text "My Pi") supplied_with_four {resp = enrolled}
      {w' = after_enrolment} one_row-IsConsistent refl (text "Bearer 04") refl (omega arith) refl
      (5 ∷ []) [] refl
