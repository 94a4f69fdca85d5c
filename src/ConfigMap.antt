-- ===== src/ConfigMap.antt =====
-- The types of configuration options of fluent-bit/flb_config_map.h, and how the options of a
-- custom plugin, a filter and a processor are set.
pub mod Types
pub mod Walk
pub mod Credentials
mod Tests
use my_repo.Base.{ℕ, Bool, ◌&&◌, Option, none, some, leb, if◌then◌else◌}

abbrev pub type_clist : ℕ
type_clist = 30

abbrev pub type_clist_4 : ℕ
type_clist_4 = 34

abbrev pub type_slist : ℕ
type_slist = 40

abbrev pub type_slist_4 : ℕ
type_slist_4 = 44

-- `none` is -1.
unfoldable pub mult_type : (type : ℕ) → Option ℕ
mult_type type =
    if leb type_clist type && leb type type_clist_4
    then some type_clist
    else if leb type_slist type && leb type type_slist_4
    then some type_slist
    else none

-- The fields of an instance of a custom plugin, a filter or a processor that are read: the addresses
-- of its properties and of its map.
pub record Instance : Type 0 where
  pub properties : ℕ
  pub config_map : ℕ

module _ {S : Type 0} (config_map_set : (properties map context : ℕ) → S → ℕ × S) where
  unfoldable pub filter_config_map_set : Instance → (context : ℕ) → S → ℕ × S
  filter_config_map_set ins context s = config_map_set ins.properties ins.config_map context s

  unfoldable pub custom_config_map_set : Instance → (context : ℕ) → S → ℕ × S
  custom_config_map_set ins context s = config_map_set ins.properties ins.config_map context s

  unfoldable pub processor_instance_config_map_set : Instance → (context : ℕ) → S → ℕ × S
  processor_instance_config_map_set ins context s =
      config_map_set ins.properties ins.config_map context s
