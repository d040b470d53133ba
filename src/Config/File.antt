-- ===== src/Config/File.antt =====
-- The file of the configuration (src/config/mod.rs): its text, or `none` where there is no file.
-- TOML is that of the `toml` crate, a parameter; failures to read or write the file are left out.
use dsearch.Base.{
  ℕ, ◌-◌, Bool, true, false, ◌&&◌, Option, none, some, List, [], ◌∷◌, ◌++◌, Result, ok, err, Text,
  codes, text_eq, lines, starts_with, split_once, decimal, ltb, if◌then◌else◌, u32_mod,
}
use dsearch.Search.Dates.{parse_number}
use dsearch.Api.Request.{trim, trim_end}
use dsearch.Config.{
  DsearchConfig, ConfigError, future_version, unparsed, default_config, current_config_version,
}

pub record Toml : Type 0 where
  pub from_str : Text → Option DsearchConfig
  pub to_string_pretty : DsearchConfig → Text

abbrev pub meta_heading : Text
meta_heading = codes "[meta]"

-- Whether the lines after this one stand in the section of the version.
abbrev pub in_meta_after : Bool → Text → Bool
in_meta_after in_meta trimmed =
    if text_eq trimmed meta_heading
    then true
    else if starts_with (codes "[") trimmed
    then false
    else in_meta

abbrev pub value_after : Option (Text × Text) → Option (Option ℕ)
value_after none = none
value_after (some (name, value)) = some (parse_number (u32_mod - 1) (trim value))

-- What a line of the section returns, if it sets the version.
abbrev pub declared_version : Bool → Text → Option (Option ℕ)
declared_version in_meta trimmed =
    if in_meta && starts_with (codes "config_version") trimmed
    then value_after (split_once 61 trimmed)
    else none

unfoldable pub version_in : Bool → List Text → Option ℕ
version_in in_meta [] = none
version_in in_meta (line ∷ rest) =
    let later = version_in (in_meta_after in_meta (trim line)) rest in
    elim (declared_version in_meta (trim line)) [ none ↦ later | some version ↦ version ]

unfoldable pub extract_config_version : Text → Option ℕ
extract_config_version toml_str = version_in false (lines toml_str)

abbrev pub check_version : Option ℕ → DsearchConfig → Result DsearchConfig ConfigError
check_version none config = ok config
check_version (some version) config =
    if ltb current_config_version version then err (future_version version) else ok config

abbrev pub version_or_current : Option ℕ → ℕ
version_or_current none = current_config_version
version_or_current (some version) = version

-- The lines after those of the settings.
abbrev pub meta_section : ℕ → Text
meta_section version = codes "\n[meta]\nconfig_version = " ++ (decimal version ++ codes "\n")

module _ (T : Toml) where
  unfoldable pub load_config : Option Text → Result DsearchConfig ConfigError
  load_config none = ok default_config
  load_config (some contents) = elim (T.from_str contents) [
    | none ↦ err unparsed
    | some config ↦ check_version (extract_config_version contents) config
  ]

  abbrev pub existing_version : Option Text → Option ℕ
  existing_version none = none
  existing_version (some contents) = extract_config_version contents

  -- The file that is left; that a configuration serialises is taken for granted.
  unfoldable pub save_config : Option Text → DsearchConfig → Text
  save_config file config =
      trim_end (T.to_string_pretty config)
      ++ meta_section (version_or_current (existing_version file))

  unfoldable pub default_config_toml : Text
  default_config_toml =
      T.to_string_pretty default_config
      ++ (codes "\n[meta]\nconfig_version = " ++ (decimal current_config_version ++ codes "\n"))
