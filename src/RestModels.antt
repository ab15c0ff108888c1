-- ===== src/RestModels.antt =====
-- restmodels/appliance.go: the bodies of the requests and of the responses.
use appliance_registry.Prelude.{ℕ, Bool, Option, List, Text}

pub record RegisterApplianceRequest : Type 0 where
  pub name : Text

pub record RedeemLoginCodeRequest : Type 0 where
  pub code : Text

-- Each value of the input is the JSON text that it came as.
pub record ArgoCdPluginGetParamsRequest : Type 0 where
  pub application_set_name : Text
  pub input : List (Text × Text)

pub record ApplianceResponse : Type 0 where
  pub id : ℕ
  pub name : Text
  pub hostname : Text
  pub status : Text
  pub created_at : ℕ
  pub claimed_at : Option ℕ
  pub last_seen_at : Option ℕ

pub record RegisterApplianceResponse : Type 0 where
  pub appliance : ApplianceResponse
  pub claim_token : Text
  pub claim_token_expires_at : ℕ

pub record ClaimApplianceResponse : Type 0 where
  pub appliance_secret : Text
  pub hostname : Text
  pub tunnel_url : Text

pub record EnrollApplianceResponse : Type 0 where
  pub appliance_id : ℕ
  pub exchange_code : Text
  pub exchange_code_expires_at : ℕ

pub record LoginCodeResponse : Type 0 where
  pub code : Text
  pub expires_at : ℕ
  pub hostname : Text

pub record CloudUserResponse : Type 0 where
  pub id : ℕ
  pub username : Text
  pub name : Text
  pub surname : Text
  pub email : Text

pub record ApplianceAccessResponse : Type 0 where
  pub allowed : Bool

pub record ArgoCdPluginParameter : Type 0 where
  pub id : Text
  pub hostname : Text
  pub name : Text

pub record ArgoCdPluginGetParamsResponse : Type 0 where
  pub parameters : List ArgoCdPluginParameter
