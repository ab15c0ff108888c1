-- ===== src/WebApp/Server/Addresses.antt =====
-- internal/appliancewebapp/webapp.go: the hostnames of different appliances, while the service runs.
use appliance_registry.Prelude.{ℕ, ◌≡◌, ◌≢◌, some, [], text, ◌++◌, arith, Option-cases, inl, inr}
use mathlib.Core.List.{append_cancel_right}
use appliance_registry.External.{External, Backend}
use appliance_registry.Persistence.{Appliance}
use appliance_registry.World.{World}
use appliance_registry.World.Statements.{row_of}
use appliance_registry.World.Rows.{appliance_of}
use appliance_registry.World.Labels.{label_of_rows-ne}
use appliance_registry.World.Integrity.{IsConsistent}
use appliance_registry.Hostnames.{full_hostname}
use appliance_registry.WebApp.{WebApp, hostname}
use appliance_registry.WebApp.Server.Interleaving.{System, Reach, Reach-IsConsistent}

module _ {b : Backend} (x : External) (app : WebApp) where
  -- Start from any tables that keep their keys and foreign keys. However the calls of any requests
  -- interleave, fail, lose their answers or are cut short, no two appliances have the same hostname.
  pub hostnames-ne :
      (w : World b) (t : System b) (i j : ℕ) (a c : Appliance)
      → IsConsistent w.db
      → Reach x app (record { world = w; requests = [] }) t
      → i ≢ j
      → appliance_of i t.world.db ≡ some a
      → appliance_of j t.world.db ≡ some c
      → hostname x app a ≢ hostname x app c
  unfolding hostname full_hostname
  hostnames-ne w t i j a c h r other e k same =
      let (keys, _) = Reach-IsConsistent x app w t h r in
      let labels : a.hostname_label ≡ c.hostname_label =
        append_cancel_right a.hostname_label c.hostname_label (text ".") (
          append_cancel_right (a.hostname_label ++ text ".") (c.hostname_label ++ text ".")
            app.base_domain same) in
      elim (Option-cases (row_of i t.world.db)) [
        | inl none_i ↦ ground arith
        | inr (u, some_i) ↦ elim (Option-cases (row_of j t.world.db)) [
          | inl none_j ↦ ground arith
          | inr (v, some_j) ↦
              let differ =
                label_of_rows-ne i j t.world.db {r = u} {s = v} keys other some_i some_j in
              ground arith
        ]
      ]
