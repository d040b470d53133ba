-- ===== src/Node/Dht/Distance.antt =====
-- The closest peers (src/node/dht.rs).
use dsearch.Base.{
  ℕ, zero, suc, ◌≡◌, refl, sym, ◌∙◌, ap, inl, inr, Bool, true, false, List, [], ◌∷◌, if◌then◌else◌,
  Text, All, retain, length, take, drop, All-take, All-drop, length-take, arith, Bool-cases, min,
  ◌+◌,
}
use dsearch.Node.Dht.{
  RoutingEntry, RoutingTable, bytes_lt, xor_distance, not_farther, insert_by_distance,
  sort_by_distance, find_closest, list,
}

bytes_lt_irrefl : (xs : List ℕ) → bytes_lt xs xs ≡ false
unfolding bytes_lt
bytes_lt_irrefl [] = refl
bytes_lt_irrefl (x ∷ xs) = ground (arith, bytes_lt_irrefl xs)

bytes_lt_asym : (xs ys : List ℕ) → bytes_lt xs ys ≡ true → bytes_lt ys xs ≡ false
unfolding bytes_lt
bytes_lt_asym [] [] h = refl
bytes_lt_asym [] (y ∷ ys) h = refl
bytes_lt_asym (x ∷ xs) [] h = absurd (ground arith)
bytes_lt_asym (x ∷ xs) (y ∷ ys) h = ground (arith, bytes_lt_asym xs ys)

-- At most as far is transitive.
bytes_not_lt_trans :
    (xs ys zs : List ℕ) → bytes_lt ys xs ≡ false → bytes_lt zs ys ≡ false → bytes_lt zs xs ≡ false
unfolding bytes_lt
bytes_not_lt_trans [] ys [] h g = refl
bytes_not_lt_trans [] ys (z ∷ zs) h g = refl
bytes_not_lt_trans (x ∷ xs) [] zs h g = absurd (ground arith)
bytes_not_lt_trans (x ∷ xs) (y ∷ ys) [] h g = absurd (ground arith)
bytes_not_lt_trans (x ∷ xs) (y ∷ ys) (z ∷ zs) h g = ground (arith, bytes_not_lt_trans xs ys zs)

abbrev Nearer : Text → RoutingEntry → RoutingEntry → Type 0
Nearer target a b = not_farther target a b ≡ true

not_farther_trans : (t : Text) (a b c : RoutingEntry) → Nearer t a b → Nearer t b c → Nearer t a c
unfolding not_farther
not_farther_trans t a b c h g = ground (
  arith,
  bytes_not_lt_trans (xor_distance a.node_id t) (xor_distance b.node_id t)
      (xor_distance c.node_id t),
)

not_farther_total : (t : Text) (a b : RoutingEntry) → not_farther t a b ≡ false → Nearer t b a
unfolding not_farther
not_farther_total t a b h =
    ground (arith, bytes_lt_asym (xor_distance b.node_id t) (xor_distance a.node_id t))

-- Each entry is at most as far as all that follow.
abbrev pub IsSorted : Text → List RoutingEntry → Type 0
IsSorted target [] = Unit
IsSorted target (e ∷ l) = All (λ f. not_farther target e f ≡ true) l × IsSorted target l

All-insert :
    (P : RoutingEntry → Type 0) (t : Text) (e : RoutingEntry) (l : List RoutingEntry)
    → P e
    → All P l
    → All P (insert_by_distance t e l)
unfolding insert_by_distance
All-insert P t e [] p h = (p, tt)
All-insert P t e (f ∷ l) p (q, h) = elim (Bool-cases (not_farther t e f)) [
  | inl b ↦ rw b (p, (q, h))
  | inr b ↦ rw b (q, All-insert P t e l p h)
]

All-trans :
    (t : Text) (e f : RoutingEntry) (l : List RoutingEntry)
    → Nearer t e f
    → All (λ g. not_farther t f g ≡ true) l
    → All (λ g. not_farther t e g ≡ true) l
All-trans t e f [] h a = tt
All-trans t e f (g ∷ l) h (b, a) = (not_farther_trans t e f g h b, All-trans t e f l h a)

insert_by_distance-IsSorted :
    (t : Text) (e : RoutingEntry) (l : List RoutingEntry)
    → IsSorted t l
    → IsSorted t (insert_by_distance t e l)
unfolding insert_by_distance
insert_by_distance-IsSorted t e [] s = (tt, tt)
insert_by_distance-IsSorted t e (f ∷ l) (a, s) = elim (Bool-cases (not_farther t e f)) [
  | inl b ↦ rw b ((b, All-trans t e f l b a), (a, s))
  | inr b ↦ rw b (
    All-insert (λ g. not_farther t f g ≡ true) t e l (not_farther_total t e f b) a,
    insert_by_distance-IsSorted t e l s,
  )
]

pub sort_by_distance-IsSorted :
    (t : Text) (l : List RoutingEntry) → IsSorted t (sort_by_distance t l)
unfolding sort_by_distance
sort_by_distance-IsSorted t [] = tt
sort_by_distance-IsSorted t (e ∷ l) =
    insert_by_distance-IsSorted t e (sort_by_distance t l) (sort_by_distance-IsSorted t l)

-- How many entries pass a test: two lists that agree on it for every test are rearrangements.
unfoldable pub count : (RoutingEntry → Bool) → List RoutingEntry → ℕ
count p l = length (retain p l)

count-insert :
    (p : RoutingEntry → Bool) (t : Text) (e : RoutingEntry) (l : List RoutingEntry)
    → count p (insert_by_distance t e l) ≡ count p (e ∷ l)
unfolding count retain insert_by_distance
count-insert p t e [] = refl
count-insert p t e (f ∷ l) = ground (arith, count-insert p t e l)

count-cons :
    (p : RoutingEntry → Bool) (e : RoutingEntry) (l : List RoutingEntry)
    → count p (e ∷ l) ≡ (if p e then 1 else 0) + count p l
unfolding count retain
count-cons p e l = ground arith

count-sort :
    (p : RoutingEntry → Bool) (t : Text) (l : List RoutingEntry)
    → count p (sort_by_distance t l) ≡ count p l
unfolding sort_by_distance
count-sort p t [] = refl
count-sort p t (e ∷ l) =
    count-insert p t e (sort_by_distance t l)
    ∙ count-cons p e (sort_by_distance t l)
    ∙ ap (λ n. (if p e then 1 else 0) + n) (count-sort p t l)
    ∙ sym (count-cons p e l)

-- All of the first `k` are related to all of the others.
split-IsSorted :
    (t : Text) (k : ℕ) (l : List RoutingEntry)
    → IsSorted t l
    → IsSorted t (take k l)
      × All (λ near. All (λ far. not_farther t near far ≡ true) (drop k l)) (take k l)
split-IsSorted t zero l s = (tt, tt)
split-IsSorted t (suc k) [] s = (tt, tt)
split-IsSorted t (suc k) (e ∷ l) (a, s) =
    let (front, apart) = split-IsSorted t k l s in
    ((All-take _ k l a, front), (All-drop _ k l a, apart))

count-split :
    (p : RoutingEntry → Bool) (k : ℕ) (l : List RoutingEntry)
    → count p (take k l) + count p (drop k l) ≡ count p l
unfolding count retain
count-split p zero l = omega arith
count-split p (suc k) [] = omega arith
count-split p (suc k) (e ∷ l) = ground (arith, count-split p k l)

-- The peers beyond the closest `k`.
abbrev pub others : RoutingTable → Text → ℕ → List RoutingEntry
others t target k = drop k (sort_by_distance target (list t))

length-insert :
    (t : Text) (e : RoutingEntry) (l : List RoutingEntry)
    → length (insert_by_distance t e l) ≡ 1 + length l
unfolding insert_by_distance
length-insert t e [] = refl
length-insert t e (f ∷ l) = ground (arith, length-insert t e l)

length-sort : (t : Text) (l : List RoutingEntry) → length (sort_by_distance t l) ≡ length l
unfolding sort_by_distance
length-sort t [] = refl
length-sort t (e ∷ l) = omega (arith, length-insert t e (sort_by_distance t l), length-sort t l)

-- The closest peers are `k`, or all where there are fewer. They come in the order of their distances,
-- each at most as far as every peer that is left out; and with those they are the peers of the
-- table: of each kind, as many.
pub find_closest_lem :
    (t : RoutingTable) (target : Text) (k : ℕ) (p : RoutingEntry → Bool)
    → (length (find_closest t target k) ≡ min k (length (list t)))
      × IsSorted target (find_closest t target k)
      × All
          (λ near. All (λ far. not_farther target near far ≡ true) (others t target k))
          (find_closest t target k)
      × (count p (find_closest t target k) + count p (others t target k) ≡ count p (list t))
unfolding find_closest
find_closest_lem t target k p =
    let sorted = sort_by_distance target (list t) in
    let (front, apart) =
      split-IsSorted target k sorted (sort_by_distance-IsSorted target (list t)) in
    let n = length-sort target (list t) in
    (
      length-take k sorted ∙ ap (min k) n,
      front,
      apart,
      count-split p k sorted ∙ count-sort p target (list t),
    )
