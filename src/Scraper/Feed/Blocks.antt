-- ===== src/Scraper/Feed/Blocks.antt =====
-- The blocks of a feed that is printed (src/scraper/discovery/html_scrape.rs).
use mathlib.Core.List.{append_assoc, append-nil}
use dsearch.Base.{
  ℕ, ◌+◌, ◌≡◌, refl, ◌∙◌, ap, true, false, ◌==◌, List, [], ◌∷◌, ◌++◌, length, Text, starts_with,
  All, arith, length-append,
}
use dsearch.Scraper.Feed.{
  Place, outside, in_tag, in_block, open_of, close_of, blocks_from, extract_xml_blocks,
}

-- A text without a character.
abbrev pub Lacks : ℕ → Text → Type 0
Lacks c = All (λ d. (d == c) ≡ false)

-- The blocks between their tags.
abbrev pub print_blocks : Text → List Text → Text
print_blocks tag [] = []
print_blocks tag (block ∷ blocks) =
    open_of tag ++ (62 ∷ (block ++ (close_of tag ++ print_blocks tag blocks)))

starts_with-append : (p s : Text) → starts_with p (p ++ s) ≡ true
unfolding starts_with
starts_with-append [] s = refl
starts_with-append (c ∷ p) s = ground (arith, starts_with-append p s)

starts_with_other : (c d : ℕ) (p s : Text) → (d == c) ≡ false → starts_with (c ∷ p) (d ∷ s) ≡ false
unfolding starts_with
starts_with_other c d p s h = let apart : (c == d) ≡ false = ground arith in rw apart refl

module _ (tag : Text) where
  skip_all :
      (place : Place) (passed rest : Text)
      → blocks_from tag place (length passed) (passed ++ rest) ≡ blocks_from tag place 0 rest
  unfolding blocks_from
  skip_all place [] rest = refl
  skip_all outside (c ∷ passed) rest = skip_all outside passed rest
  skip_all in_tag (c ∷ passed) rest = skip_all in_tag passed rest
  skip_all (in_block read) (c ∷ passed) rest = skip_all (in_block read) passed rest

  tag_read :
      (name rest : Text)
      → Lacks 62 name
      → blocks_from tag in_tag 0 (name ++ 62 ∷ rest) ≡ blocks_from tag (in_block []) 0 rest
  unfolding blocks_from
  tag_read [] rest h = refl
  tag_read (c ∷ name) rest (h, hs) = rw (h, blocks_from) (tag_read name rest hs)

  extract_nothing : blocks_from tag outside 0 [] ≡ []
  unfolding blocks_from
  extract_nothing = refl

  open_step :
      (c : ℕ) (s : Text)
      → starts_with (open_of tag) (c ∷ s) ≡ true
      → blocks_from tag outside 0 (c ∷ s) ≡ blocks_from tag in_tag 0 s
  unfolding blocks_from
  open_step c s h = rw (h, blocks_from) refl

  close_step :
      (read : Text) (c : ℕ) (s : Text)
      → starts_with (close_of tag) (c ∷ s) ≡ true
      → blocks_from tag (in_block read) 0 (c ∷ s)
        ≡ read ∷ blocks_from tag outside (length tag + 2) s
  unfolding blocks_from
  close_step read c s h = rw (h, blocks_from) refl

  stay_step :
      (read : Text) (c : ℕ) (s : Text)
      → starts_with (close_of tag) (c ∷ s) ≡ false
      → blocks_from tag (in_block read) 0 (c ∷ s) ≡ blocks_from tag (in_block (read ++ c ∷ [])) 0 s
  unfolding blocks_from
  stay_step read c s h = rw (h, blocks_from) refl

  closed :
      (read rest : Text)
      → blocks_from tag (in_block read) 0 (close_of tag ++ rest)
        ≡ read ∷ blocks_from tag outside 0 rest
  closed read rest =
      let passed = 47 ∷ (tag ++ 62 ∷ []) in
      let size : length tag + 2 ≡ length passed = omega (arith, length-append tag (62 ∷ [])) in
      close_step read 60 (passed ++ rest) (starts_with-append (close_of tag) rest)
      ∙ ap (◌∷◌ read)
          (ap (λ n. blocks_from tag outside n (passed ++ rest)) size ∙ skip_all outside passed rest)

  block_read :
      (read block rest : Text)
      → Lacks 60 block
      → blocks_from tag (in_block read) 0 (block ++ (close_of tag ++ rest))
        ≡ (read ++ block) ∷ blocks_from tag outside 0 rest
  block_read read [] rest h = rw (append-nil read) (closed read rest)
  block_read read (c ∷ block) rest (h, hs) =
      stay_step read c (block ++ (close_of tag ++ rest))
        (starts_with_other 60 c (47 ∷ (tag ++ 62 ∷ [])) (block ++ (close_of tag ++ rest)) h)
      ∙ (block_read (read ++ c ∷ []) block rest hs
          ∙ ap (λ b. b ∷ blocks_from tag outside 0 rest) (append_assoc read (c ∷ []) block))

  -- Blocks without a `<` in them, printed one after the other between tags of a name without a
  -- `>`, are read back in their order.
  pub extract_xml_blocks-print_blocks :
      (blocks : List Text)
      → Lacks 62 tag
      → All (Lacks 60) blocks
      → extract_xml_blocks (print_blocks tag blocks) tag ≡ blocks
  unfolding extract_xml_blocks
  extract_xml_blocks-print_blocks [] name plain = extract_nothing
  extract_xml_blocks-print_blocks (block ∷ blocks) name (p, ps) =
      let rest = close_of tag ++ print_blocks tag blocks in
      let later = 62 ∷ (block ++ rest) in
      open_step 60 (tag ++ later) (starts_with-append (open_of tag) later)
      ∙ (tag_read tag (block ++ rest) name
          ∙ (block_read [] block (print_blocks tag blocks) p
              ∙ ap (◌∷◌ block) (extract_xml_blocks-print_blocks blocks name ps)))
