-- ===== src/External.antt =====
-- What the program uses of code outside the repository.
use appliance_registry.Prelude.{
  ℕ, ◌≡◌, Bool, Option, none, some, List, Text, text_eq, if◌then◌else◌,
}
use appliance_registry.UserRegistry.Access.{Access}

-- What cloudtoken.FromAuthHeader reads from a use token.
pub record Identity : Type 0 where
  pub user_id : ℕ
  pub group_id : ℕ

-- Pure functions of other packages.
--   verify: cloudtoken.FromAuthHeader under the public key that the service loaded;
--   sha256: crypto/sha256 on the text's bytes, as a list of bytes;
--   lower_wide: unicode.ToLower on a code point that is not ASCII;
--   decode_access: json.Unmarshal into an Access.
pub record External : Type 0 where
  pub verify : Text → Option Identity
  pub sha256 : Text → List ℕ
  pub lower_wide : ℕ → ℕ
  pub decode_access : Text → Option Access

-- A Kubernetes Secret, as far as this program writes it.
pub record Secret : Type 0 where
  pub managed_by : Text
  pub auth : Text

pub record SecretKey : Type 0 where
  pub namespace : Text
  pub name : Text

abbrev pub key_eq : SecretKey → SecretKey → Bool
key_eq k j = if text_eq k.namespace j.namespace then text_eq k.name j.name else Bool.false

-- The API server's store of Secrets, by what `lookup` shows of it after each write.
pub record SecretStore : Type 1 where
  pub Cluster : Type 0
  pub lookup : Cluster → SecretKey → Option Secret
  pub store : Cluster → SecretKey → Secret → Cluster
  pub remove : Cluster → SecretKey → Cluster
  pub lookup-store :
      (c : Cluster) (k j : SecretKey) (s : Secret)
      → lookup (store c k s) j ≡ (if key_eq k j then some s else lookup c j)
  pub lookup-remove :
      (c : Cluster) (k j : SecretKey)
      → lookup (remove c k) j ≡ (if key_eq k j then none else lookup c j)

-- The services that the program calls.
--   secrets: the API server's store;
--   column_time: the time that a TIMESTAMP column gives back for one that is stored in it;
--   collate: the comparison of the status column with a text, under the column's collation.
pub record Backend : Type 1 where
  pub secrets : SecretStore
  pub open secrets use *
  pub column_time : ℕ → ℕ
  pub collate : Text → Text → Bool
