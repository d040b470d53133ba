-- ===== src/Search/Tokens/Kept.antt =====
-- What the tokenizer keeps (src/search/query.rs).
use mathlib.Core.List.{append_assoc, append-nil}
use dsearch.Base.{
  ℕ, ◌≡◌, refl, sym, ◌∙◌, ap, inl, inr, Bool, true, false, not, ◌&&◌, List, [], ◌∷◌, ◌++◌, ◌==◌,
  if◌then◌else◌, Text, arith, Bool-cases, All,
}
use dsearch.Search.Tokens.{is_whitespace, quote, flush, token_step, tokenize_from, tokenize}

-- The text without the white space that stands outside of quotes.
unfoldable pub visible : Bool → Text → Text
visible in_quotes [] = []
visible in_quotes (ch ∷ s) =
    let inside = if ch == quote then not in_quotes else in_quotes in
    let rest = visible inside s in
    if not (ch == quote) && (is_whitespace ch && not in_quotes) then rest else ch ∷ rest

unfoldable pub concat : List Text → Text
concat [] = []
concat (t ∷ ts) = t ++ concat ts

concat-append : (xs ys : List Text) → concat (xs ++ ys) ≡ concat xs ++ concat ys
unfolding concat
concat-append [] ys = refl
concat-append (x ∷ xs) ys = simp (concat-append xs ys, append_assoc)

concat-flush : (s : Text) → concat (flush s) ≡ s
unfolding concat
concat-flush [] = refl
concat-flush (c ∷ s) = append-nil (c ∷ s)

nothing_kept : (s : Text) → concat [] ++ s ≡ s
unfolding concat
nothing_kept s = refl

-- One round passes on the current token and the character, unless it drops white space.
step_kept :
    (current : Text) (q : Bool) (ch : ℕ)
    → concat (token_step current q ch).0 ++ (token_step current q ch).1
      ≡ (if not (ch == quote) && (is_whitespace ch && not q) then current else current ++ ch ∷ [])
unfolding token_step
step_kept current true ch = ground (arith, nothing_kept (current ++ ch ∷ []))
step_kept current false ch = ground (
  arith,
  concat-flush current,
  nothing_kept (current ++ ch ∷ []),
  append-nil (concat (flush current)),
  append-nil current,
)

put_back :
    (dropped : Bool) (current : Text) (ch : ℕ) (s : Text)
    → (if dropped then current else current ++ ch ∷ []) ++ s
      ≡ current ++ (if dropped then s else ch ∷ s)
put_back true current ch s = refl
put_back false current ch s = append_assoc current (ch ∷ []) s

step_quotes :
    (current : Text) (q : Bool) (ch : ℕ)
    → (token_step current q ch).2 ≡ (if ch == quote then not q else q)
unfolding token_step
step_quotes current true ch = ground arith
step_quotes current false ch = ground arith

concat-tokenize_from :
    (current : Text) (in_quotes : Bool) (s : Text)
    → concat (tokenize_from current in_quotes s) ≡ current ++ visible in_quotes s
unfolding tokenize_from visible
concat-tokenize_from current q [] = concat-flush current ∙ sym (append-nil current)
concat-tokenize_from current q (ch ∷ s) =
    let (out, next, q') = token_step current q ch in
    let dropped = not (ch == quote) && (is_whitespace ch && not q) in
    concat-append out (tokenize_from next q' s)
    ∙ ap (◌++◌ (concat out)) (concat-tokenize_from next q' s)
    ∙ sym (append_assoc (concat out) next (visible q' s))
    ∙ ap (λ t. t ++ visible q' s) (step_kept current q ch)
    ∙ put_back dropped current ch (visible q' s)
    ∙ ap (λ i. current ++ (if dropped then visible i s else ch ∷ visible i s))
        (step_quotes current q ch)

abbrev pub IsFilled : Text → Type 0
IsFilled [] = ⊥
IsFilled (c ∷ s) = Unit

flush-IsFilled : (s : Text) → All IsFilled (flush s)
flush-IsFilled [] = tt
flush-IsFilled (c ∷ s) = (tt, tt)

step-IsFilled : (current : Text) (q : Bool) (ch : ℕ) → All IsFilled (token_step current q ch).0
unfolding token_step
step-IsFilled current true ch = elim (Bool-cases (ch == quote)) [
  | inl quoted ↦ rw quoted tt
  | inr other ↦ elim (Bool-cases (is_whitespace ch)) [
    | inl w ↦ rw (other, w) tt
    | inr w ↦ rw (other, w) tt
  ]
]
step-IsFilled current false ch = elim (Bool-cases (ch == quote)) [
  | inl quoted ↦ rw quoted (flush-IsFilled current)
  | inr other ↦ elim (Bool-cases (is_whitespace ch)) [
    | inl w ↦ rw (other, w) (flush-IsFilled current)
    | inr w ↦ rw (other, w) tt
  ]
]

All-append : (P : Text → Type 0) (xs ys : List Text) → All P xs → All P ys → All P (xs ++ ys)
All-append P [] ys h g = g
All-append P (x ∷ xs) ys (p, h) g = (p, All-append P xs ys h g)

tokenize_from-IsFilled :
    (current : Text) (q : Bool) (s : Text) → All IsFilled (tokenize_from current q s)
unfolding tokenize_from
tokenize_from-IsFilled current q [] = flush-IsFilled current
tokenize_from-IsFilled current q (ch ∷ s) =
    let (out, next, q') = token_step current q ch in
    All-append IsFilled out (tokenize_from next q' s) (step-IsFilled current q ch)
      (tokenize_from-IsFilled next q' s)

-- The tokens hold, one after the other, the characters of the input without the white space that
-- stands outside of quotes; and no token is empty.
pub tokenize_lem :
    (input : Text) → (concat (tokenize input) ≡ visible false input) × All IsFilled (tokenize input)
unfolding tokenize
tokenize_lem input = (concat-tokenize_from [] false input, tokenize_from-IsFilled [] false input)
