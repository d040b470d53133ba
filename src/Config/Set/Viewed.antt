-- ===== src/Config/Set/Viewed.antt =====
-- What the values of the configuration are, by their keys, and what setting one does to them
-- (src/config/mod.rs).
use dsearch.Base.{
  ℕ, ◌-◌, ◌^◌, ◌≡◌, refl, inl, inr, Bool, true, false, Option, none, some, List, [], ◌∷◌, ◌++◌, map,
  Result, ok, err, Text, codes, text_eq, text_eq_iff, lookup, if◌then◌else◌, Option-cases,
  Bool-cases,
}
use dsearch.Search.Dates.{parse_number}
use dsearch.Config.{DsearchConfig, ConfigError, invalid_value, unknown_key}
use dsearch.Config.Set.{
  Setter, set_text, set_number, set_bool, parse_bool, node_setters, gateway_setters,
  storage_setters, log_setters, setters, or_invalid_value, apply_setter, set_config_value,
}

pub data Value : Type 0 where
  text_value : Text → Value
  number_value : ℕ → Value
  flag_value : Bool → Value

-- A number has so many bits.
pub data Kind : Type 0 where
  texts flags : Kind
  numbers : ℕ → Kind

abbrev number_or_none : Option ℕ → Option Value
number_or_none none = none
number_or_none (some n) = some (number_value n)

abbrev flag_or_none : Option Bool → Option Value
flag_or_none none = none
flag_or_none (some b) = some (flag_value b)

abbrev pub read_value : Kind → Text → Option Value
read_value texts value = some (text_value value)
read_value flags value = flag_or_none (parse_bool value)
read_value (numbers bits) value = number_or_none (parse_number (2 ^ bits - 1) value)

abbrev node_kinds : List (Text × Kind)
node_kinds =
    (codes "node.role", texts)
    ∷ (codes "node.max_connections", numbers 32)
    ∷ (codes "node.max_concurrent_queries", numbers 32)
    ∷ (codes "node.min_protocol_version", numbers 8)
    ∷ (codes "node.ipv4", flags)
    ∷ (codes "node.ipv6", flags)
    ∷ []

abbrev gateway_kinds : List (Text × Kind)
gateway_kinds =
    (codes "api.port", numbers 16)
    ∷ (codes "gateway.enabled", flags)
    ∷ (codes "gateway.bind", texts)
    ∷ (codes "gateway.rate_limit_per_min", numbers 32)
    ∷ (codes "gateway.require_api_key", flags)
    ∷ []

abbrev storage_kinds : List (Text × Kind)
storage_kinds =
    (codes "storage.quota_mb", numbers 32)
    ∷ (codes "storage.quota_action", texts)
    ∷ (codes "storage.tier2_max_mb", numbers 32)
    ∷ (codes "relay.bandwidth_limit_mbps", numbers 32)
    ∷ (codes "scraper.default_interval_secs", numbers 64)
    ∷ (codes "scraper.default_replicate", numbers 32)
    ∷ (codes "scraper.default_lifecycle", texts)
    ∷ []

abbrev log_kinds : List (Text × Kind)
log_kinds =
    (codes "log.level", texts)
    ∷ (codes "log.output", texts)
    ∷ (codes "log.file", texts)
    ∷ (codes "log.max_size_mb", numbers 32)
    ∷ (codes "log.rotate_count", numbers 32)
    ∷ (codes "bootstrap.use_defaults", flags)
    ∷ []

-- The keys, each with the kind of its value.
abbrev pub kinds : List (Text × Kind)
kinds = node_kinds ++ gateway_kinds ++ storage_kinds ++ log_kinds

-- The values of a configuration under their keys: all that it holds but the scrape jobs.
abbrev pub view : DsearchConfig → List (Text × Value)
view c =
    (codes "node.role", text_value c.node.role)
    ∷ (codes "node.max_connections", number_value c.node.max_connections)
    ∷ (codes "node.max_concurrent_queries", number_value c.node.max_concurrent_queries)
    ∷ (codes "node.min_protocol_version", number_value c.node.min_protocol_version)
    ∷ (codes "node.ipv4", flag_value c.node.ipv4)
    ∷ (codes "node.ipv6", flag_value c.node.ipv6)
    ∷ (codes "api.port", number_value c.api.port)
    ∷ (codes "gateway.enabled", flag_value c.gateway.enabled)
    ∷ (codes "gateway.bind", text_value c.gateway.bind)
    ∷ (codes "gateway.rate_limit_per_min", number_value c.gateway.rate_limit_per_min)
    ∷ (codes "gateway.require_api_key", flag_value c.gateway.require_api_key)
    ∷ (codes "storage.quota_mb", number_value c.storage.quota_mb)
    ∷ (codes "storage.quota_action", text_value c.storage.quota_action)
    ∷ (codes "storage.tier2_max_mb", number_value c.storage.tier2_max_mb)
    ∷ (codes "relay.bandwidth_limit_mbps", number_value c.relay.bandwidth_limit_mbps)
    ∷ (codes "scraper.default_interval_secs", number_value c.scraper.default_interval_secs)
    ∷ (codes "scraper.default_replicate", number_value c.scraper.default_replicate)
    ∷ (codes "scraper.default_lifecycle", text_value c.scraper.default_lifecycle)
    ∷ (codes "log.level", text_value c.log.level)
    ∷ (codes "log.output", text_value c.log.output)
    ∷ (codes "log.file", text_value c.log.file)
    ∷ (codes "log.max_size_mb", number_value c.log.max_size_mb)
    ∷ (codes "log.rotate_count", number_value c.log.rotate_count)
    ∷ (codes "bootstrap.use_defaults", flag_value c.bootstrap.use_defaults)
    ∷ []

-- The value at a key is another; all others stay.
abbrev pub replace : Text → Value → List (Text × Value) → List (Text × Value)
replace key v l = map (λ entry. (entry.0, if text_eq entry.0 key then v else entry.1)) l

-- The configuration has this value at the key, and is the same otherwise.
abbrev pub IsReplaced : DsearchConfig → Text → Value → DsearchConfig → Type 0
IsReplaced c key v c' = (view c' ≡ replace key v (view c)) × (c'.scraper.jobs ≡ c.scraper.jobs)

-- What setting a key to a text does, from the value that is read from the text.
abbrev pub IsWritten :
    DsearchConfig → Text → Option Value → Result DsearchConfig ConfigError → Type 0
IsWritten c key none r = r ≡ err (invalid_value key)
IsWritten c key (some v) r = (c' : DsearchConfig) × (r ≡ ok c') × IsReplaced c key v c'

-- The same by the kind of the key; a key without one is unknown.
abbrev pub IsAnswered :
    DsearchConfig → Text → Text → Option Kind → Result DsearchConfig ConfigError → Type 0
IsAnswered c key value none r = r ≡ err (unknown_key key)
IsAnswered c key value (some kind) r = IsWritten c key (read_value kind value) r

abbrev Sets : Text → Setter → Kind → Type 0
Sets key set kind =
    (c : DsearchConfig) (value : Text)
    → IsWritten c key (read_value kind value) (or_invalid_value key (set value c))

set_text-Sets :
    (key : Text) (f : Text → DsearchConfig → DsearchConfig)
    → ((v : Text) (c : DsearchConfig) → IsReplaced c key (text_value v) (f v c))
    → Sets key (set_text f) texts
set_text-Sets key f h c value = (f value c, refl, h value c)

set_number-Sets :
    (key : Text) (bits : ℕ) (f : ℕ → DsearchConfig → DsearchConfig)
    → ((n : ℕ) (c : DsearchConfig) → IsReplaced c key (number_value n) (f n c))
    → Sets key (set_number (2 ^ bits - 1) f) (numbers bits)
set_number-Sets key bits f h c value = elim (Option-cases (parse_number (2 ^ bits - 1) value)) [
  | inl e ↦ rw e refl
  | inr (n, e) ↦ rw e (f n c, refl, h n c)
]

set_bool-Sets :
    (key : Text) (f : Bool → DsearchConfig → DsearchConfig)
    → ((b : Bool) (c : DsearchConfig) → IsReplaced c key (flag_value b) (f b c))
    → Sets key (set_bool f) flags
set_bool-Sets key f h c value = elim (Option-cases (parse_bool value)) [
  | inl e ↦ rw e refl
  | inr (b, e) ↦ rw e (f b c, refl, h b c)
]

abbrev Aligned : List (Text × Setter) → List (Text × Kind) → Type 0
Aligned [] [] = Unit
Aligned [] (k ∷ ks) = ⊥
Aligned (s ∷ l) [] = ⊥
Aligned ((key, set) ∷ l) ((name, kind) ∷ ks) = (key ≡ name) × Sets key set kind × Aligned l ks

Aligned-append :
    (l m : List (Text × Setter)) (ks js : List (Text × Kind))
    → Aligned l ks
    → Aligned m js
    → Aligned (l ++ m) (ks ++ js)
Aligned-append [] m [] js h g = g
Aligned-append [] m (k ∷ ks) js h g = absurd h
Aligned-append (s ∷ l) m [] js h g = absurd h
Aligned-append ((key, set) ∷ l) m ((name, kind) ∷ ks) js (e, p, h) g =
    (e, p, Aligned-append l m ks js h g)

node-Aligned : Aligned node_setters node_kinds
unfolding text_eq
node-Aligned = (
  refl,
  set_text-Sets (codes "node.role") _ (λ v c. (refl, refl)),
  (
    refl,
    set_number-Sets (codes "node.max_connections") 32 _ (λ v c. (refl, refl)),
    (
      refl,
      set_number-Sets (codes "node.max_concurrent_queries") 32 _ (λ v c. (refl, refl)),
      (
        refl,
        set_number-Sets (codes "node.min_protocol_version") 8 _ (λ v c. (refl, refl)),
        (
          refl,
          set_bool-Sets (codes "node.ipv4") _ (λ v c. (refl, refl)),
          (refl, set_bool-Sets (codes "node.ipv6") _ (λ v c. (refl, refl)), tt),
        ),
      ),
    ),
  ),
)

gateway-Aligned : Aligned gateway_setters gateway_kinds
unfolding text_eq
gateway-Aligned = (
  refl,
  set_number-Sets (codes "api.port") 16 _ (λ v c. (refl, refl)),
  (
    refl,
    set_bool-Sets (codes "gateway.enabled") _ (λ v c. (refl, refl)),
    (
      refl,
      set_text-Sets (codes "gateway.bind") _ (λ v c. (refl, refl)),
      (
        refl,
        set_number-Sets (codes "gateway.rate_limit_per_min") 32 _ (λ v c. (refl, refl)),
        (refl, set_bool-Sets (codes "gateway.require_api_key") _ (λ v c. (refl, refl)), tt),
      ),
    ),
  ),
)

storage-Aligned : Aligned storage_setters storage_kinds
unfolding text_eq
storage-Aligned = (
  refl,
  set_number-Sets (codes "storage.quota_mb") 32 _ (λ v c. (refl, refl)),
  (
    refl,
    set_text-Sets (codes "storage.quota_action") _ (λ v c. (refl, refl)),
    (
      refl,
      set_number-Sets (codes "storage.tier2_max_mb") 32 _ (λ v c. (refl, refl)),
      (
        refl,
        set_number-Sets (codes "relay.bandwidth_limit_mbps") 32 _ (λ v c. (refl, refl)),
        (
          refl,
          set_number-Sets (codes "scraper.default_interval_secs") 64 _ (λ v c. (refl, refl)),
          (
            refl,
            set_number-Sets (codes "scraper.default_replicate") 32 _ (λ v c. (refl, refl)),
            (refl, set_text-Sets (codes "scraper.default_lifecycle") _ (λ v c. (refl, refl)), tt),
          ),
        ),
      ),
    ),
  ),
)

log-Aligned : Aligned log_setters log_kinds
unfolding text_eq
log-Aligned = (
  refl,
  set_text-Sets (codes "log.level") _ (λ v c. (refl, refl)),
  (
    refl,
    set_text-Sets (codes "log.output") _ (λ v c. (refl, refl)),
    (
      refl,
      set_text-Sets (codes "log.file") _ (λ v c. (refl, refl)),
      (
        refl,
        set_number-Sets (codes "log.max_size_mb") 32 _ (λ v c. (refl, refl)),
        (
          refl,
          set_number-Sets (codes "log.rotate_count") 32 _ (λ v c. (refl, refl)),
          (refl, set_bool-Sets (codes "bootstrap.use_defaults") _ (λ v c. (refl, refl)), tt),
        ),
      ),
    ),
  ),
)

answered :
    (l : List (Text × Setter)) (ks : List (Text × Kind)) (c : DsearchConfig) (key value : Text)
    → Aligned l ks
    → IsAnswered c key value (lookup key ks) (apply_setter (lookup key l) c key value)
unfolding lookup
answered [] [] c key value h = refl
answered [] (k ∷ ks) c key value h = absurd h
answered (s ∷ l) [] c key value h = absurd h
answered ((name, set) ∷ l) ((name', kind) ∷ ks) c key value (same, sets, h) =
    elim (Bool-cases (text_eq name key)) [
      | inl e ↦
          let here : name ≡ key = (text_eq_iff name key).0 e in
          let there : text_eq name' key ≡ true = rw same at e in
          rw (e, there) (rw here at (sets c value))
      | inr e ↦
          let there : text_eq name' key ≡ false = rw same at e in
          rw (e, there) (answered l ks c key value h)
    ]

-- Setting a value of the configuration, for any key and text: a key that names no value is unknown;
-- a text that does not read as the kind of value of the key is invalid; any other is the value at
-- the key from then on, with all other values and the scrape jobs as they were.
pub set_config_value-IsAnswered :
    (c : DsearchConfig) (key value : Text)
    → IsAnswered c key value (lookup key kinds) (set_config_value c key value)
unfolding set_config_value
set_config_value-IsAnswered c key value = answered setters kinds c key value (
    Aligned-append node_setters (gateway_setters ++ (storage_setters ++ log_setters)) node_kinds
      (gateway_kinds ++ (storage_kinds ++ log_kinds)) node-Aligned
      (Aligned-append gateway_setters (storage_setters ++ log_setters) gateway_kinds
        (storage_kinds ++ log_kinds) gateway-Aligned
        (Aligned-append storage_setters log_setters storage_kinds log_kinds storage-Aligned
          log-Aligned)))
