-- ===== src/Tests/Listing.antt =====
-- Appliances that are listed, and a user's access.
use appliance_registry.Prelude.{◌≡◌, refl, true, false, List, [], ◌∷◌, map, text, none, ok}
use appliance_registry.Persistence.{pending, active, revoked}
use appliance_registry.World.{World}
use appliance_registry.RestModels.{ApplianceResponse, ArgoCdPluginGetParamsResponse}
use appliance_registry.Program.Run.{run}
use appliance_registry.Mariadb.Results.{SameStores}
use appliance_registry.WebApp.{WebApp, to_appliance_response}
use appliance_registry.WebApp.Listing.{list_appliances, plugin_parameter, plugin_get_params}
use appliance_registry.WebApp.Listing.Outcomes.{
  Listed, list_appliances-Listed, Parameters, plugin_get_params-Parameters,
}
use appliance_registry.WebApp.Login.{check_access}
use appliance_registry.WebApp.Login.Checking.{AccessKnown, check_access-AccessKnown}
use appliance_registry.Tests.Fixtures.{backend, env, app, row, start, everything}

-- Of the four appliances, 3 is revoked and 4 another group's.
abbrev listed : List ApplianceResponse
listed =
    map (to_appliance_response env app)
      ((row 1 pending 3 none).appliance ∷ (row 2 active 3 none).appliance ∷ [])

listed_unasked : (run (list_appliances env app (text "use") [] false) start).0 ≡ ok listed
unfolding everything
listed_unasked = refl

listed_with_revoked :
    (run (list_appliances env app (text "use") [] true) start).0
    ≡ ok (
        map (to_appliance_response env app) (
          (row 1 pending 3 none).appliance
          ∷ (row 2 active 3 none).appliance
          ∷ (row 3 revoked 3 none).appliance
          ∷ []))
unfolding everything
listed_with_revoked = refl

-- The revoked ones.
abbrev asked : List ApplianceResponse
asked = map (to_appliance_response env app) ((row 3 revoked 3 none).appliance ∷ [])

abbrev after_listing : World backend
after_listing = (run (list_appliances env app (text "use") (text "revoked") false) start).1

list_appliances_example :
    Listed env app start (text "use") (text "revoked") false asked × SameStores start after_listing
unfolding everything
list_appliances_example =
    list_appliances-Listed env app (text "use") (text "revoked") false start {resp = asked}
      {w' = after_listing} refl

-- A plugin token, and a limiter that lets one request through.
abbrev plugged : WebApp
plugged = record app { plugin_tokens = text "plug" ∷ [] }

abbrev permitted : World backend
permitted = record start { permits = true ∷ [] }

abbrev parameters : ArgoCdPluginGetParamsResponse
parameters = record {
  parameters =
      map (plugin_parameter env plugged)
        ((row 2 active 3 none).appliance ∷ (row 4 active 9 none).appliance ∷ []);
}

abbrev after_parameters : World backend
after_parameters = (run (plugin_get_params env plugged (text "Bearer plug")) permitted).1

plugin_get_params_example :
    Parameters env plugged permitted (text "Bearer plug") parameters
    × (after_parameters.db ≡ permitted.db)
    × (after_parameters.cluster ≡ permitted.cluster)
unfolding everything
plugin_get_params_example =
    plugin_get_params-Parameters env plugged (text "Bearer plug") permitted {resp = parameters}
      {w' = after_parameters} refl

abbrev checked : World backend
checked = (run (check_access env app (text "Bearer s2") 2 7) start).1

check_access_example :
    AccessKnown env app start (text "Bearer s2") 2 7 (record { allowed = true }) checked
unfolding everything
check_access_example =
    check_access-AccessKnown env app (text "Bearer s2") 2 7 start {resp = record { allowed = true }}
      {w' = checked} refl
