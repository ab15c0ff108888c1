-- ===== src/Tests/Texts.antt =====
-- Labels and tokens.
use appliance_registry.Prelude.{◌≡◌, ◌↔◌, refl, text, true, [], ◌∷◌, Text, some, arith}
use mathlib.Core.List.{Mem}
use appliance_registry.World.{World}
use appliance_registry.Program.Run.{run}
use appliance_registry.Hostnames.{generate_label}
use appliance_registry.Hostnames.Label.{IsLabel, generate_label-IsLabel}
use appliance_registry.Tokens.{bearer_token, check_service_tokens}
use appliance_registry.Tokens.Lists.{check_service_tokens_iff}
use appliance_registry.Tests.Fixtures.{backend, env, start, everything}

abbrev labelled : World backend
labelled = (run (generate_label env (text "My Pi")) start).1

generate_label_example : IsLabel env (text "my-pi-010203")
unfolding everything
generate_label_example =
    generate_label-IsLabel env (text "My Pi") start (1 ∷ 2 ∷ 3 ∷ []) {label = text "my-pi-010203"}
      {w' = labelled} refl refl (omega arith, (omega arith, (omega arith, tt))) refl

check_service_tokens_example :
    (check_service_tokens (text "svc" ∷ []) (text "Bearer svc") ≡ true)
    ↔ ((p : Text) × (bearer_token (text "Bearer svc") ≡ some p) × Mem p (text "svc" ∷ []))
check_service_tokens_example = check_service_tokens_iff (text "svc" ∷ []) (text "Bearer svc")
