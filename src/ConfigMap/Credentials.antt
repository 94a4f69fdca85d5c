-- ===== src/ConfigMap/Credentials.antt =====
-- The options that FLB_AWS_CREDENTIAL_BASE_CONFIG_MAP of fluent-bit/flb_aws_credentials.h adds to the
-- map of a plugin, for the prefix that the plugin gives them.
use my_repo.Base.{
  ℕ, zero, suc, ◌-◌, ◌≡◌, Bool, false, Option, none, some, List, [], ◌∷◌, ◌++◌, map, arith, codes,
  get_elem?, length, length-append, ◌==◌, if◌then◌else◌,
}

-- The public fields of `flb_config_map`.
pub record Entry : Type 0 where
  pub type : ℕ
  pub name : List ℕ
  pub def_value : Option (List ℕ)
  pub flags : ℕ
  pub set_property : Bool
  pub offset : ℕ
  pub desc : List ℕ

abbrev pub type_str : ℕ
type_str = 0

abbrev str_entry : (name desc : List ℕ) → Entry
str_entry name desc = record {
  type = type_str;
  name = name;
  def_value = none;
  flags = 0;
  set_property = false;
  offset = 0;
  desc = desc;
}

unfoldable pub credential_base_config_map : (prefix : List ℕ) → List Entry
credential_base_config_map prefix =
    str_entry (prefix ++ codes "region") (codes "AWS region of your service")
    ∷ str_entry (prefix ++ codes "sts_endpoint") (
        codes "Custom endpoint for the AWS STS API, used with the `"
        ++ (prefix ++ codes "role_arn` option"))
    ∷ str_entry (prefix ++ codes "role_arn")
        (codes "ARN of an IAM role to assume (ex. for cross account access)")
    ∷ str_entry (prefix ++ codes "external_id") (
        codes "Specify an external ID for the STS API, can be used with the `"
        ++ (prefix ++ codes "role_arn` parameter if your role requires an external ID."))
    ∷ str_entry (prefix ++ codes "profile") (
        codes "AWS Profile name. AWS Profiles can be configured with AWS CLI and are usually"
        ++ codes "stored in $HOME/.aws/ directory.")
    ∷ []

abbrev name_at : (prefix : List ℕ) → ℕ → Option (List ℕ)
name_at prefix i = get_elem? (map (λ e. e.name) (credential_base_config_map prefix)) i

-- No two of the names without the prefix have the same length.
abbrev place : ℕ → ℕ
place n =
    if n == 6 then 0 else if n == 12 then 1 else if n == 8 then 2 else if n == 11 then 3 else 4

name_place :
    (prefix : List ℕ) (i : ℕ) (name : List ℕ)
    → name_at prefix i ≡ some name
    → place (length name - length prefix) ≡ i
unfolding credential_base_config_map
name_place prefix zero name e = ground (arith, length-append prefix (codes "region"))
name_place prefix (suc zero) name e = ground (arith, length-append prefix (codes "sts_endpoint"))
name_place prefix (suc (suc zero)) name e = ground (arith, length-append prefix (codes "role_arn"))
name_place prefix (suc (suc (suc zero))) name e =
    ground (arith, length-append prefix (codes "external_id"))
name_place prefix (suc (suc (suc (suc zero)))) name e =
    ground (arith, length-append prefix (codes "profile"))
name_place prefix (suc (suc (suc (suc (suc i))))) name e = absurd cc

-- Whatever the prefix, no two of the options have the same name.
pub credential_names :
    (prefix : List ℕ) (i j : ℕ) (name : List ℕ)
    → get_elem? (map (λ e. e.name) (credential_base_config_map prefix)) i ≡ some name
    → get_elem? (map (λ e. e.name) (credential_base_config_map prefix)) j ≡ some name
    → i ≡ j
credential_names prefix i j name e f =
    omega (arith, name_place prefix i name e, name_place prefix j name f)
