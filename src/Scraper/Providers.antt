-- ===== src/Scraper/Providers.antt =====
-- Search providers (src/scraper/discovery/providers.rs). TOML is that of the `toml` crate, a
-- parameter; the file search_providers.toml is its text, or `none` where there is none. Errors of
-- files are left out.
use dsearch.Base.{
  ◌≡◌, refl, ℕ, Bool, true, false, not, Option, none, some, List, [], ◌∷◌, ◌++◌, any, retain,
  length, map, ◌==◌, Result, ok, err, Text, codes, text_eq, contains, if◌then◌else◌, Bool-cases,
  arith, inl, inr,
}

pub record SearchProvider : Type 0 where
  pub name : Text
  pub enabled : Bool
  pub endpoint : Text

-- What the file holds is its list of providers.
pub record ProvidersCodec : Type 0 where
  pub from_str : Text → Option (List SearchProvider)
  pub to_string_pretty : List SearchProvider → Text

pub data ProviderError : Type 0 where
  already_exists : Text → ProviderError
  unreadable : ProviderError

-- Spaces (32) become plus signs (43); all else of the keyword stays as it is.
abbrev pub plus_for_space : ℕ → ℕ
plus_for_space c = if c == 32 then 43 else c

abbrev pub query_url : SearchProvider → Text → Text
query_url provider keyword =
    let separator = if contains provider.endpoint (codes "?") then codes "&" else codes "?" in
    provider.endpoint ++ (separator ++ (codes "q=" ++ map plus_for_space keyword))

unfoldable pub resolve_keyword_to_urls : List SearchProvider → Text → List (Text × Text)
resolve_keyword_to_urls [] keyword = []
resolve_keyword_to_urls (provider ∷ providers) keyword =
    let rest = resolve_keyword_to_urls providers keyword in
    if provider.enabled then (provider.name, query_url provider keyword) ∷ rest else rest

abbrev pub is_named : Text → SearchProvider → Bool
is_named name p = text_eq p.name name

abbrev pub providers_or_none : Option (List SearchProvider) → List SearchProvider
providers_or_none none = []
providers_or_none (some providers) = providers

module _ (T : ProvidersCodec) where
  -- The providers of the file; a file that does not parse counts as one without any.
  abbrev pub read_providers : Option Text → List SearchProvider
  read_providers none = []
  read_providers (some contents) = providers_or_none (T.from_str contents)

  unfoldable pub load_providers : Option Text → List SearchProvider
  load_providers file = retain (λ p. p.enabled) (read_providers file)

  unfoldable pub add_provider : Option Text → Text → Text → Option ProviderError × Option Text
  add_provider file name endpoint =
      let providers = read_providers file in
      if any (is_named name) providers then (some (already_exists name), file) else (
        none,
        some (
            T.to_string_pretty
              (providers ++ record { name = name; enabled = true; endpoint = endpoint } ∷ [])),
      )

  abbrev pub remove_parsed :
      Text → Text → Option (List SearchProvider) → Result Bool ProviderError × Option Text
  remove_parsed contents name none = (err unreadable, some contents)
  remove_parsed contents name (some providers) =
      let kept = retain (λ p. not (is_named name p)) providers in
      if length kept == length providers
      then (ok false, some contents)
      else (ok true, some (T.to_string_pretty kept))

  unfoldable pub remove_provider : Option Text → Text → Result Bool ProviderError × Option Text
  remove_provider none name = (ok false, none)
  remove_provider (some contents) name = remove_parsed contents name (T.from_str contents)

  retain_enabled :
      (providers : List SearchProvider) (p : SearchProvider)
      → p.enabled ≡ true
      → retain (λ p. p.enabled) (providers ++ p ∷ []) ≡ retain (λ p. p.enabled) providers ++ p ∷ []
  unfolding retain
  retain_enabled [] p h = rw h refl
  retain_enabled (q ∷ providers) p h = ground (arith, retain_enabled providers p h)

  -- A provider that is added to a file is loaded after those that the file already gave, if TOML
  -- reads back what it prints.
  load_providers-add_provider :
      ((providers : List SearchProvider)
        → T.from_str (T.to_string_pretty providers) ≡ some providers)
      → (file : Option Text) (name endpoint : Text) → (add_provider file name endpoint).0 ≡ none
      → load_providers (add_provider file name endpoint).1
        ≡ load_providers file ++ record { name = name; enabled = true; endpoint = endpoint } ∷ []
  unfolding load_providers add_provider
  load_providers-add_provider reads file name endpoint h =
      elim (Bool-cases (any (is_named name) (read_providers file))) [
        | inl e ↦ absurd (cc (rw e at h))
        | inr e ↦ rw (e, reads _) (retain_enabled (read_providers file) _ refl)
      ]
