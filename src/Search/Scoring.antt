-- ===== src/Search/Scoring.antt =====
-- The score of a record for a query (src/search/query.rs). The floating-point type `f64` with its
-- operations is a parameter.
use dsearch.Base.{
  ℕ, ◌-◌, Bool, Option, none, some, List, [], ◌∷◌, if◌then◌else◌, Text, codes, join, contains,
}
use dsearch.Model.{ContentRecord}
use dsearch.Search.Query.{ParsedQuery, or_mark}
use dsearch.Search.Matching.{strip_prefix}

-- `less` is the test that `partial_cmp` gives `Less`.
pub record Floats : Type 1 where
  pub Float : Type 0
  pub of_nat : ℕ → Float
  pub add : Float → Float → Float
  pub mul : Float → Float → Float
  pub div : Float → Float → Float
  pub ln : Float → Float
  pub max : Float → Float → Float
  pub less : Float → Float → Bool

abbrev pub stripped_or : Option Text → Text → Text
stripped_or none term = term
stripped_or (some t) term = t

-- The term without its mark.
abbrev pub unmarked : Text → Text
unmarked term = stripped_or (strip_prefix or_mark term) term

module _ (F : Floats) (to_lowercase : Text → Text) where
  abbrev one_half : F.Float
  one_half = F.div (F.of_nat 1) (F.of_nat 2)

  -- A bonus where the text holds the term.
  unfoldable pub bonus : Text → Text → F.Float → F.Float → F.Float
  bonus text t amount score = if contains text t then F.add score amount else score

  unfoldable pub score_terms : ContentRecord → List Text → F.Float → F.Float
  score_terms r [] score = score
  score_terms r (term ∷ terms) score =
      let t = unmarked term in
      let by_id = bonus (to_lowercase r.id) t (F.of_nat 3) score in
      let by_tags = bonus (to_lowercase (join (codes " ") r.tags)) t (F.of_nat 2) by_id in
      let by_body = bonus (to_lowercase r.body) t (F.of_nat 1) by_tags in
      score_terms r terms
        (bonus (to_lowercase r.schema) t (F.div (F.of_nat 3) (F.of_nat 2)) by_body)

  unfoldable pub score_phrases : ContentRecord → List Text → F.Float → F.Float
  score_phrases r [] score = score
  score_phrases r (phrase ∷ phrases) score = score_phrases r phrases (
      bonus (to_lowercase r.id) phrase (F.of_nat 7)
        (bonus (to_lowercase r.body) phrase (F.of_nat 5) score))

  -- Recency, which halves after 30 days; `now` is the clock.
  unfoldable pub freshness : ContentRecord → ℕ → F.Float
  freshness r now =
      let age_days = F.div (F.of_nat (now - r.created_at)) (F.of_nat 86400) in
      F.div (F.of_nat 1) (F.add (F.of_nat 1) (F.div age_days (F.of_nat 30)))

  unfoldable pub score_record : ContentRecord → ParsedQuery → ℕ → ℕ → F.Float
  score_record r query holder_count now =
      let matched = score_phrases r query.phrases (score_terms r query.terms (F.of_nat 0)) in
      let fresh = F.add matched (F.mul (freshness r now) (F.of_nat 2)) in
      F.add fresh (F.mul (F.max (F.ln (F.of_nat holder_count)) (F.of_nat 0)) one_half)
