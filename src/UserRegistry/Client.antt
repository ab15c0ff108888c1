-- ===== src/UserRegistry/Client.antt =====
-- internal/userregistry/client.go: the lookup of a membership.
use appliance_registry.Prelude.{ℕ, none, some, Text, text, ◌++◌, ◌==◌, if◌then◌else◌, Option}
use appliance_registry.External.{External}
use appliance_registry.Text.{decimal}
use appliance_registry.Program.{Prog, ret, fail, call, http_get}
use appliance_registry.UserRegistry.Access.{Access}

pub record HttpClient : Type 0 where
  pub base_url : Text
  pub service_token : Text

unfoldable pub membership_url : HttpClient → ℕ → ℕ → Text
membership_url c group_id user_id =
    c.base_url
    ++ text "/cloud-user-registry/v0/internal/groups/"
    ++ decimal group_id
    ++ text "/members/"
    ++ decimal user_id

abbrev pub decoded : Option Access → Prog (Unit {0}) Access
decoded none = fail tt
decoded (some a) = ret a

-- `none` is a request that could not be made or read.
abbrev pub membership_answer : External → Option (ℕ × Text) → Prog (Unit {0}) Access
membership_answer x none = fail tt
membership_answer x (some (status, body)) =
    if status == 200 then decoded (x.decode_access body) else fail tt

unfoldable pub get_group_member : External → HttpClient → ℕ → ℕ → Prog (Unit {0}) Access
get_group_member x c group_id user_id =
    call (http_get (membership_url c group_id user_id) (text "Bearer " ++ c.service_token))
      (membership_answer x)
