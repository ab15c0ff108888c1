-- ===== src/WebApp/Server.antt =====
-- main.go: the routes, each to its handler, as requests; and requests that are served one after another.
pub mod Footprint
pub mod Among
pub mod Claims
pub mod Revocations
pub mod Once
pub mod Forward
pub mod History
pub mod Interleaving
pub mod Addresses
pub mod Steps
pub mod Errors
pub mod Redemptions
pub mod Calls
use appliance_registry.Prelude.{ℕ, Bool, List, [], ◌∷◌, Text}
use appliance_registry.External.{External, Backend}
use appliance_registry.World.{World}
use appliance_registry.RestModels.{
  RegisterApplianceRequest, RedeemLoginCodeRequest, ArgoCdPluginGetParamsRequest,
  RegisterApplianceResponse, ApplianceResponse, EnrollApplianceResponse, ClaimApplianceResponse,
  LoginCodeResponse, CloudUserResponse, ApplianceAccessResponse, ArgoCdPluginGetParamsResponse,
}
use appliance_registry.Program.{ret, ◌>>=◌}
use appliance_registry.Program.Run.{run}
use appliance_registry.WebApp.{WebApp, Handler}
use appliance_registry.WebApp.Registration
use appliance_registry.WebApp.Listing
use appliance_registry.WebApp.Claiming
use appliance_registry.WebApp.Login
use appliance_registry.WebApp.Rotation

-- One constructor for each route of `main`; the first text is the Authorization header. No handler looks
-- at the body of PluginGetParams.
pub data Request : Type 0 where
  register enroll : (authorization : Text) (body : RegisterApplianceRequest) → Request
  list_appliances : (authorization status : Text) (include_revoked : Bool) → Request
  claim enroll_redeem create_login_code revoke rotate_secret rotate_own_secret :
      (authorization : Text) (id : ℕ) → Request
  redeem_login_code : (authorization : Text) (id : ℕ) (body : RedeemLoginCodeRequest) → Request
  check_access : (authorization : Text) (id user_id : ℕ) → Request
  plugin_get_params : (authorization : Text) (body : ArgoCdPluginGetParamsRequest) → Request

pub data Response : Type 0 where
  registered : RegisterApplianceResponse → Response
  listed : List ApplianceResponse → Response
  enrolled : EnrollApplianceResponse → Response
  secret_issued : ClaimApplianceResponse → Response
  login_code : LoginCodeResponse → Response
  cloud_user : CloudUserResponse → Response
  access : ApplianceAccessResponse → Response
  no_content : Response
  parameters : ArgoCdPluginGetParamsResponse → Response

module _ (x : External) (app : WebApp) where
  unfoldable pub serve : Request → Handler Response
  serve (register auth body) = do r ← Registration.register x app auth body.name; ret (registered r)
  serve (list_appliances auth status all) = do
    r ← Listing.list_appliances x app auth status all
    ret (listed r)
  serve (enroll auth body) = do r ← Registration.enroll x app auth body.name; ret (enrolled r)
  serve (claim auth id) = do r ← Claiming.claim x app auth id; ret (secret_issued r)
  serve (enroll_redeem auth id) = do r ← Claiming.enroll_redeem x app auth id; ret (secret_issued r)
  serve (create_login_code auth id) = do
    r ← Login.create_login_code x app auth id
    ret (login_code r)
  serve (redeem_login_code auth id body) = do
    r ← Login.redeem_login_code x app auth id body.code
    ret (cloud_user r)
  serve (check_access auth id user) = do r ← Login.check_access x app auth id user; ret (access r)
  serve (revoke auth id) = do r ← Rotation.revoke x app auth id; ret no_content
  serve (rotate_secret auth id) = do r ← Rotation.rotate_secret x app auth id; ret (secret_issued r)
  serve (rotate_own_secret auth id) = do
    r ← Rotation.rotate_own_secret x app auth id
    ret (secret_issued r)
  serve (plugin_get_params auth body) = do
    r ← Listing.plugin_get_params x app auth
    ret (parameters r)

  -- Requests that come one after another, whatever becomes of each.
  unfoldable pub serve_all : {b : Backend} → List Request → World b → World b
  serve_all [] w = w
  serve_all (r ∷ rs) w = serve_all rs (run (serve r) w).1
