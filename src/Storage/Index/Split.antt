-- ===== src/Storage/Index/Split.antt =====
-- Ids joined by commas (src/storage/index.rs).
use dsearch.Base.{
  ℕ, ◌≡◌, refl, ◌∙◌, ap, inl, inr, Bool, true, false, List, [], ◌∷◌, ◌++◌, ◌==◌, Text, any, retain,
  join, All, arith, Bool-cases,
}
use dsearch.Storage.Index.{split_comma, prepend, comma}

-- No comma stands in it.
abbrev pub IsPlain : Text → Type 0
IsPlain s = All (λ c. (c == comma) ≡ false) s

prepend-append :
    (c : ℕ) (w : Text) (xs ys : List Text) → prepend c ((w ∷ xs) ++ ys) ≡ prepend c (w ∷ xs) ++ ys
prepend-append c w xs ys = refl

pub split_comma_plain : (s : Text) → IsPlain s → split_comma s ≡ s ∷ []
unfolding split_comma
split_comma_plain [] p = refl
split_comma_plain (c ∷ s) (q, p) = rw (q, split_comma_plain s p) refl

-- A plain text in front of a comma is the first part.
pub split_comma_front : (w s : Text) → IsPlain w → split_comma (w ++ comma ∷ s) ≡ w ∷ split_comma s
unfolding split_comma
split_comma_front [] s p = refl
split_comma_front (c ∷ w) s (q, p) = rw (q, split_comma_front w s p) refl

prepend-cons :
    (c : ℕ) (l r : List Text) → any (λ x. true) l ≡ true → prepend c (l ++ r) ≡ prepend c l ++ r
unfolding any
prepend-cons c [] r h = absurd (ground arith)
prepend-cons c (w ∷ ws) r h = refl

split_comma_some : (s : Text) → any (λ x. true) (split_comma s) ≡ true
unfolding split_comma any
split_comma_some [] = refl
split_comma_some (c ∷ s) = elim (Bool-cases (c == comma)) [
  | inl h ↦ rw h refl
  | inr h ↦ rw h (prepend_some c (split_comma s))
]
  where
    prepend_some : (c : ℕ) (l : List Text) → any (λ x. true) (prepend c l) ≡ true
    prepend_some c [] = refl
    prepend_some c (w ∷ ws) = refl

-- What is appended behind a comma is split after the parts of what stood there.
pub split_comma-append :
    (s t : Text) → split_comma (s ++ comma ∷ t) ≡ split_comma s ++ split_comma t
unfolding split_comma
split_comma-append [] t = refl
split_comma-append (c ∷ s) t = elim (Bool-cases (c == comma)) [
  | inl h ↦ rw (h, split_comma-append s t) refl
  | inr h ↦
      rw (h, split_comma-append s t)
        (prepend-cons c (split_comma s) (split_comma t) (split_comma_some s))
]

pub split_comma-IsPlain : (s : Text) → All IsPlain (split_comma s)
unfolding split_comma
split_comma-IsPlain [] = (tt, tt)
split_comma-IsPlain (c ∷ s) = elim (Bool-cases (c == comma)) [
  | inl h ↦ rw h (tt, split_comma-IsPlain s)
  | inr h ↦ rw h (prepend_plain c (split_comma s) h (split_comma-IsPlain s))
]
  where
    prepend_plain :
        (c : ℕ) (l : List Text) → (c == comma) ≡ false → All IsPlain l → All IsPlain (prepend c l)
    prepend_plain c [] h p = ((h, tt), tt)
    prepend_plain c (w ∷ ws) h (q, p) = ((h, q), p)

-- Joining plain texts and splitting gives them back, when there is at least one.
pub split_comma-join :
    (x : Text) (xs : List Text)
    → All IsPlain (x ∷ xs)
    → split_comma (join (comma ∷ []) (x ∷ xs)) ≡ x ∷ xs
unfolding join
split_comma-join x [] (p, ps) = split_comma_plain x p
split_comma-join x (y ∷ xs) (p, ps) =
    split_comma_front x (join (comma ∷ []) (y ∷ xs)) p ∙ ap (◌∷◌ x) (split_comma-join y xs ps)

pub All-retain {ℓ κ} :
    {A : Type ℓ} (P : A → Type κ) (p : A → Bool) (l : List A) → All P l → All P (retain p l)
unfolding retain
All-retain P p [] h = tt
All-retain P p (x ∷ l) (q, h) = elim (Bool-cases (p x)) [
  | inl b ↦ rw b (q, All-retain P p l h)
  | inr b ↦ rw b (All-retain P p l h)
]
