-- ===== src/WebApp/Listing/Outcomes.antt =====
-- internal/appliancewebapp/webapp.go: what ListAppliances and PluginGetParams show.
use appliance_registry.Prelude.{
  ℕ, ◌≡◌, ◌≢◌, refl, sym, subst, ◌∙◌, Bool, true, false, ◌&&◌, some, List, [], map, Text,
  text_eq_iff, ◌↔◌, ok, arith, ◌==◌, keep, sort_by, All, Bool-cases, inl, inr, ◌⊎◌,
}
use appliance_registry.Prelude.Sorting.{
  IsOrdered, sort_by-Perm, sort_by-IsOrdered, All-sort_by, All-kept,
}
use mathlib.Core.List.{Perm}
use appliance_registry.External.{External, Identity, Backend}
use appliance_registry.Persistence.{Appliance, ApplianceFilter, active, revoked, status_text}
use appliance_registry.World.{Row, Database, World}
use appliance_registry.World.Statements
use appliance_registry.World.Statements.{status_eq, matches_filter}
use appliance_registry.Tokens.{check_service_tokens}
use appliance_registry.RestModels.{ApplianceResponse, ArgoCdPluginGetParamsResponse}
use appliance_registry.Mariadb
use appliance_registry.Mariadb.Results.{SameStores}
use appliance_registry.Program.Rules.{after_ok, after_handled, after_ret}
use appliance_registry.Program.Run.{run, perform, permit}
use appliance_registry.WebApp.{WebApp, to_appliance_response}
use appliance_registry.WebApp.Outcomes.{use_token-eq-ok, after_guard}
use appliance_registry.WebApp.Listing.{
  list_appliances, appliance_list_response, plugin_parameter, plugin_get_params,
}

abbrev all_appliances : Database → List Appliance
all_appliances db = map (λ (r : Row). r.appliance) db.appliances

-- The active appliances of all groups, each once, in the order of their ids.
pub record AllActive (db : Database) (shown : List Appliance) : Type 0 where
  pub live : All (λ (a : Appliance). a.status ≡ active) shown
  pub all : Perm shown (keep (λ a. status_eq a.status active) (all_appliances db))
  pub by_id : IsOrdered (λ (a : Appliance). a.id) shown

-- What ApplianceFilter's comment says: a status that is given is the one that is matched, and takes
-- precedence; without one, revoked appliances are omitted unless they are to be included.
abbrev pub IsAskedFor : (Text → Text → Bool) → ApplianceFilter → Appliance → Type 0
IsAskedFor collate f a =
    ((f.status ≢ []) × (collate (status_text a.status) f.status ≡ true))
    ⊎ ((f.status ≡ []) × ((f.include_revoked ≡ true) ⊎ (a.status ≢ revoked)))

matches_filter_iff :
    (collate : Text → Text → Bool) (f : ApplianceFilter) (a : Appliance)
    → (matches_filter collate f a ≡ true) ↔ IsAskedFor collate f a
unfolding matches_filter
matches_filter_iff collate f a = ground (arith, text_eq_iff f.status [])

module _ {b : Backend} where
  -- The appliances of a group: each that the filter asks for, once, in the order of creation. What is
  -- wanted is not the code's test, but any that tells these appliances from the others.
  pub record OfGroup (w : World b) (group_id : ℕ) (f : ApplianceFilter) (shown : List Appliance)
      : Type 0 where
    pub wanted : Appliance → Bool
    pub exactly :
        (a : Appliance) → (wanted a ≡ true) ↔ ((a.group_id ≡ group_id) × IsAskedFor b.collate f a)
    pub own : All (λ (a : Appliance). a.group_id ≡ group_id) shown
    pub not_revoked :
        f.status ≡ []
        → f.include_revoked ≡ false
        → All (λ (a : Appliance). a.status ≢ revoked) shown
    pub all : Perm shown (keep wanted (all_appliances w.db))
    pub by_creation : IsOrdered (λ (a : Appliance). a.created_at) shown

  list_appliances_for_group-OfGroup :
      (g : ℕ) (f : ApplianceFilter) (w : World b) {shown : List Appliance} {w' : World b}
      → run (Mariadb.list_appliances_for_group g f) w ≡ (ok shown, w')
      → OfGroup w g f shown × SameStores w w'
  unfolding run perform Mariadb.list_appliances_for_group Statements.select_group matches_filter
  list_appliances_for_group-OfGroup g f w {shown} h =
      let wanted : Appliance → Bool = λ a. a.group_id == g && matches_filter b.collate f a in
      let matching = keep wanted (all_appliances w.db) in
      let e : shown ≡ sort_by (λ (a : Appliance). a.created_at) matching = ground arith in
      let listing : OfGroup w g f (sort_by (λ (a : Appliance). a.created_at) matching) = record {
        wanted = wanted;
        exactly = λ a. ground (arith, matches_filter_iff b.collate f a);
        own =
            All-sort_by _ _ matching
              (All-kept _ wanted (all_appliances w.db) (λ a p. ground arith));
        not_revoked = λ empty hide. All-sort_by _ _ matching (
            All-kept _ wanted (all_appliances w.db)
              (λ a p. λ gone. ground (arith, text_eq_iff f.status [])));
        all = sort_by-Perm (λ (a : Appliance). a.created_at) matching;
        by_creation = sort_by-IsOrdered (λ (a : Appliance). a.created_at) matching;
      } in
      (subst (OfGroup w g f) (sym e) listing, ground arith)

  list_appliances_by_status-AllActive :
      (w : World b) {shown : List Appliance} {w' : World b}
      → run (Mariadb.list_appliances_by_status active) w ≡ (ok shown, w')
      → AllActive w.db shown × SameStores w w'
  unfolding run perform Mariadb.list_appliances_by_status Statements.select_status
  list_appliances_by_status-AllActive w {shown} h =
      let matching = keep (λ (a : Appliance). status_eq a.status active) (all_appliances w.db) in
      let e : shown ≡ sort_by (λ (a : Appliance). a.id) matching = ground arith in
      let listing : AllActive w.db (sort_by (λ (a : Appliance). a.id) matching) = record {
        live = All-sort_by _ _ matching (All-kept _ _ (all_appliances w.db) (λ a p. ground arith));
        all = sort_by-Perm (λ (a : Appliance). a.id) matching;
        by_id = sort_by-IsOrdered (λ (a : Appliance). a.id) matching;
      } in
      (subst (AllActive w.db) (sym e) listing, ground arith)

  module _ (x : External) (app : WebApp) where
    -- For an internal service, or for a user.
    pub record Listed (w : World b) (authorization status : Text) (include_revoked : Bool)
        (resp : List ApplianceResponse) : Type 0 where
      pub shown : List Appliance
      pub as_responses : resp ≡ map (to_appliance_response x app) shown
      pub entitled :
          ((check_service_tokens app.service_tokens authorization ≡ true) × AllActive w.db shown)
          ⊎ ((check_service_tokens app.service_tokens authorization ≡ false)
              × (who : Identity) × (x.verify authorization ≡ some who)
              × OfGroup w who.group_id
                  (record { status = status; include_revoked = include_revoked })
                  shown)

    -- Whatever fails or passes, a ListAppliances that succeeds changes nothing and shows a caller with a
    -- service token all active appliances of all groups, in the order of their ids. It shows anyone else
    -- only appliances of the group of their use token, in the order of creation: where `status` is given,
    -- each whose status the column's collation equates with it, once; where it is not, each that is not
    -- revoked, once, and with `includeRevoked` each that is revoked too.
    pub list_appliances-Listed :
        (authorization status : Text) (include_revoked : Bool) (w : World b)
        {resp : List ApplianceResponse} {w' : World b}
        → run (list_appliances x app authorization status include_revoked) w ≡ (ok resp, w')
        → Listed w authorization status include_revoked resp × SameStores w w'
    unfolding list_appliances appliance_list_response
    list_appliances-Listed authorization status include_revoked w h =
        elim (Bool-cases (check_service_tokens app.service_tokens authorization)) [
          | inl e ↦
              after_handled _ _ _ _ (rw e at h) (λ _. tt)
                λ shown w₁ read h₁.
                  let (listing, s) = list_appliances_by_status-AllActive w read in
                  after_ret
                    (λ r v. Listed w authorization status include_revoked r × SameStores w v) _ w₁
                    h₁
                    (record { shown = shown; as_responses = refl; entitled = inl (e, listing) }, s)
          | inr e ↦ after_ok _ _ _ (rw e at h) λ who w₁ login h₁.
              let (verified, same) = use_token-eq-ok x app authorization w login in
              after_handled _ _ _ _ h₁ (λ _. tt)
                λ shown w₂ read h₂.
                  let asked : ApplianceFilter = record {
                    status = status;
                    include_revoked = include_revoked;
                  } in
                  let (listing, s) =
                    subst (λ v. OfGroup v who.group_id asked shown × SameStores v w₂) (sym same)
                      (list_appliances_for_group-OfGroup who.group_id asked w₁ read) in
                  after_ret
                    (λ r v. Listed w authorization status include_revoked r × SameStores w v) _ w₂
                    h₂
                    (
                      record {
                        shown = shown;
                        as_responses = refl;
                        entitled = inr (e, who, verified, listing);
                      },
                      s,
                    )
        ]

    -- For ArgoCD.
    pub record Parameters (w : World b) (authorization : Text)
        (resp : ArgoCdPluginGetParamsResponse) : Type 0 where
      pub within_limit : permit w.permits ≡ true
      pub entitled : check_service_tokens app.plugin_tokens authorization ≡ true
      pub shown : List Appliance
      pub listing : AllActive w.db shown
      pub as_parameters : resp.parameters ≡ map (plugin_parameter x app) shown

    -- Whatever fails or passes, a PluginGetParams that succeeds was let through by the rate limiter and has
    -- a plugin token; it shows all active appliances of all groups, each once, in the order of their ids,
    -- and changes no table and no Secret.
    pub plugin_get_params-Parameters :
        (authorization : Text) (w : World b) {resp : ArgoCdPluginGetParamsResponse} {w' : World b}
        → run (plugin_get_params x app authorization) w ≡ (ok resp, w')
        → Parameters w authorization resp × (w'.db ≡ w.db) × (w'.cluster ≡ w.cluster)
    unfolding plugin_get_params run perform
    plugin_get_params-Parameters authorization w h = after_ok _ _ _ h λ allowed w₁ asked h₁.
        after_guard _ _ _ h₁ λ within h₂. after_guard _ _ _ h₂ λ known h₃.
          after_handled _ _ _ _ h₃ (λ e. tt)
            λ shown w₂ read h₄.
              let same : (w₁.db ≡ w.db) × (w₁.cluster ≡ w.cluster) × (allowed ≡ permit w.permits) =
                ground arith in
              let (listing, s) = list_appliances_by_status-AllActive w₁ read in
              after_ret
                (λ r v. Parameters w authorization r × (v.db ≡ w.db) × (v.cluster ≡ w.cluster)) _ w₂
                h₄
                (
                  record {
                    within_limit = sym same.2 ∙ within;
                    entitled = known;
                    shown = shown;
                    listing = subst (λ db. AllActive db shown) same.0 listing;
                    as_parameters = refl;
                  },
                  s.same_db ∙ same.0,
                  s.same_cluster ∙ same.1,
                )
