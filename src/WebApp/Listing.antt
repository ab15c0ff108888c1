-- ===== src/WebApp/Listing.antt =====
-- internal/appliancewebapp/webapp.go: ListAppliances, applianceListResponse and PluginGetParams.
pub mod Outcomes
use appliance_registry.Prelude.{Bool, if◌then◌else◌, List, map, Text}
use appliance_registry.External.{External}
use appliance_registry.Persistence.{Appliance, active}
use appliance_registry.Text.{decimal}
use appliance_registry.Tokens.{check_service_tokens}
use appliance_registry.Mariadb
use appliance_registry.RestModels.{
  ApplianceResponse, ArgoCdPluginParameter, ArgoCdPluginGetParamsResponse,
}
use appliance_registry.Program.{ret, call, guard, limiter_allow, ◌>>=◌, ◌>>◌}
use appliance_registry.WebApp.{
  WebApp, Handler, or_fail, unauthorized, too_many_requests, internal_error, use_token, hostname,
  to_appliance_response,
}

module _ (x : External) (app : WebApp) where
  unfoldable pub appliance_list_response : List Appliance → List ApplianceResponse
  appliance_list_response = map (to_appliance_response x app)

  unfoldable pub list_appliances :
      (authorization status : Text) (include_revoked : Bool) → Handler (List ApplianceResponse)
  list_appliances authorization status include_revoked =
      if check_service_tokens app.service_tokens authorization
      then (do
        appliances ←
            or_fail (internal_error "failed to list appliances")
              (Mariadb.list_appliances_by_status active)
        ret (appliance_list_response appliances))
      else (do
        who ← use_token x app authorization
        appliances ← or_fail (internal_error "failed to list appliances") (
            Mariadb.list_appliances_for_group who.group_id
              (record { status = status; include_revoked = include_revoked }))
        ret (appliance_list_response appliances))

  unfoldable pub plugin_parameter : Appliance → ArgoCdPluginParameter
  plugin_parameter a = record { id = decimal a.id; hostname = hostname x app a; name = a.name }

  unfoldable pub plugin_get_params : (authorization : Text) → Handler ArgoCdPluginGetParamsResponse
  plugin_get_params authorization = do
    allowed ← call limiter_allow ret
    guard allowed (too_many_requests "rate limit exceeded")
    guard (check_service_tokens app.plugin_tokens authorization)
        (unauthorized "invalid service token")
    appliances ←
        or_fail (internal_error "failed to list appliances")
          (Mariadb.list_appliances_by_status active)
    ret (record { parameters = map plugin_parameter appliances })
