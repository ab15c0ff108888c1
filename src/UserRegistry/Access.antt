-- ===== src/UserRegistry/Access.antt =====
-- internal/userregistry/client.go: the answer about a membership.
use appliance_registry.Prelude.{ℕ, Bool, Option, Text}

pub record User : Type 0 where
  pub id : ℕ
  pub username : Text
  pub name : Text
  pub surname : Text
  pub email : Text

pub record Access : Type 0 where
  pub is_member : Bool
  pub user : Option User
