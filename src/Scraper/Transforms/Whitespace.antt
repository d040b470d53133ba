-- ===== src/Scraper/Transforms/Whitespace.antt =====
-- The two transforms of white space (src/scraper/sandbox.rs).
use dsearch.Base.{ℕ, ◌≡◌, refl, ◌∙◌, inl, inr, Bool, true, false, [], ◌∷◌, Text, retain, Bool-cases}
use dsearch.Api.Request.{trim, trim_start, trim_end, push_kept}
use dsearch.Search.Tokens.{is_whitespace}
use dsearch.Scraper.Transforms.{normalize_from, normalize_whitespace, strip_whitespace}

strip_whitespace-trim_start : (s : Text) → strip_whitespace (trim_start s) ≡ strip_whitespace s
unfolding strip_whitespace retain trim_start
strip_whitespace-trim_start [] = refl
strip_whitespace-trim_start (c ∷ s) = elim (Bool-cases (is_whitespace c)) [
  | inl b ↦ rw b (strip_whitespace-trim_start s)
  | inr b ↦ rw (b, b) refl
]

strip_whitespace-push_kept :
    (c : ℕ) (s : Text) → strip_whitespace (push_kept c s) ≡ strip_whitespace (c ∷ s)
unfolding strip_whitespace retain
strip_whitespace-push_kept c [] = elim (Bool-cases (is_whitespace c)) [
  | inl b ↦ rw b refl
  | inr b ↦ rw (b, b) refl
]
strip_whitespace-push_kept c (d ∷ s) = refl

strip_whitespace_cons :
    (c : ℕ) (s t : Text)
    → strip_whitespace s ≡ strip_whitespace t
    → strip_whitespace (c ∷ s) ≡ strip_whitespace (c ∷ t)
unfolding strip_whitespace retain
strip_whitespace_cons c s t h = rw h refl

strip_whitespace-trim_end : (s : Text) → strip_whitespace (trim_end s) ≡ strip_whitespace s
unfolding trim_end
strip_whitespace-trim_end [] = refl
strip_whitespace-trim_end (c ∷ s) =
    strip_whitespace-push_kept c (trim_end s)
    ∙ strip_whitespace_cons c (trim_end s) s (strip_whitespace-trim_end s)

space_is_whitespace : is_whitespace 32 ≡ true
unfolding is_whitespace
space_is_whitespace = refl

strip_whitespace-normalize_from :
    (last_was_space : Bool) (s : Text)
    → strip_whitespace (normalize_from last_was_space s) ≡ strip_whitespace s
unfolding strip_whitespace retain normalize_from
strip_whitespace-normalize_from last_was_space [] = refl
strip_whitespace-normalize_from true (c ∷ s) = elim (Bool-cases (is_whitespace c)) [
  | inl b ↦ rw b (strip_whitespace-normalize_from true s)
  | inr b ↦ rw (b, b, strip_whitespace-normalize_from false s) refl
]
strip_whitespace-normalize_from false (c ∷ s) = elim (Bool-cases (is_whitespace c)) [
  | inl b ↦ rw (b, space_is_whitespace) (strip_whitespace-normalize_from true s)
  | inr b ↦ rw (b, b, strip_whitespace-normalize_from false s) refl
]

-- Normalizing the white space of a text keeps its other characters, in their order.
pub strip_whitespace-normalize_whitespace :
    (s : Text) → strip_whitespace (normalize_whitespace s) ≡ strip_whitespace s
unfolding normalize_whitespace trim
strip_whitespace-normalize_whitespace s =
    strip_whitespace-trim_end (trim_start (normalize_from false s))
    ∙ strip_whitespace-trim_start (normalize_from false s)
    ∙ strip_whitespace-normalize_from false s
