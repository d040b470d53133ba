-- ===== src/Sanitize/Clean.antt =====
-- The characters of sanitized texts (src/sanitize.rs).
use dsearch.Base.{
  ℕ, ◌≡◌, refl, ◌∙◌, inl, inr, Bool, true, not, ◌&&◌, ◌||◌, [], ◌∷◌, ◌==◌, if◌then◌else◌, Text, All,
  retain, arith, Bool-cases,
}
use dsearch.Sanitize.{is_control, is_format_char, sanitize_chars}

-- Newlines, and the characters that are neither control nor format characters.
unfoldable pub is_allowed : ℕ → Bool
is_allowed ch = ch == 10 || not (is_control ch) && not (is_format_char ch)

abbrev pub IsClean : Text → Type 0
IsClean s = All (λ ch. is_allowed ch ≡ true) s

sanitize_chars_cons :
    (ch : ℕ) (s : Text)
    → sanitize_chars (ch ∷ s) ≡ (if is_allowed ch then ch ∷ sanitize_chars s else sanitize_chars s)
unfolding sanitize_chars is_allowed
sanitize_chars_cons ch s = elim (Bool-cases (is_control ch)) [
  | inl c ↦ rw c (ground arith)
  | inr c ↦ elim (Bool-cases (is_format_char ch)) [
    | inl f ↦ rw (c, f) (ground arith)
    | inr f ↦ rw (c, f) (ground arith)
  ]
]

sanitize_nothing : sanitize_chars [] ≡ []
unfolding sanitize_chars
sanitize_nothing = refl

-- Sanitizing a text keeps the allowed characters in their order and drops the others.
pub sanitize_chars-retain : (s : Text) → sanitize_chars s ≡ retain is_allowed s
unfolding retain
sanitize_chars-retain [] = sanitize_nothing
sanitize_chars-retain (ch ∷ s) = sanitize_chars_cons ch s ∙ rw (sanitize_chars-retain s) refl

pub sanitize_chars-IsClean : (s : Text) → IsClean (sanitize_chars s)
sanitize_chars-IsClean [] = rw sanitize_nothing tt
sanitize_chars-IsClean (ch ∷ s) = elim (Bool-cases (is_allowed ch)) [
  | inl a ↦ rw (sanitize_chars_cons ch s, a) (a, sanitize_chars-IsClean s)
  | inr a ↦ rw (sanitize_chars_cons ch s, a) (sanitize_chars-IsClean s)
]

pub sanitize_chars_clean : (s : Text) → IsClean s → sanitize_chars s ≡ s
sanitize_chars_clean [] h = sanitize_nothing
sanitize_chars_clean (ch ∷ s) (a, h) =
    sanitize_chars_cons ch s ∙ rw (a, sanitize_chars_clean s h) refl
