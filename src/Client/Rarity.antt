-- ===== src/Client/Rarity.antt =====
-- The order of the downloads in client/download.go: the rarest chunk first.
use p2p_file_sharing.Base.{
  ℕ, zero, suc, ◌+◌, ◌≤◌, ◌<◌, Bool, true, false, List, [], ◌∷◌, In, NoRepeat, length, get_elem?,
  Option, none, some, if◌then◌else◌, ltb, ◌==◌, ◌≡◌, ◌≢◌, refl, sym, ◌∙◌, arith, ◌⊎◌, inl, inr, ◌↔◌,
  Bool-cases,
}
use mathlib.Core.Path.{subst}
use p2p_file_sharing.Base.Map.{Map}
use p2p_file_sharing.Client.Peer.{may_have}

-- What each peer is known to have; none is a peer that did not say.
abbrev pub Bitfields : Type 0
Bitfields = Map (Option (List Bool))

abbrev pub no_counts : ℕ → List ℕ
no_counts zero = []
no_counts (suc n) = 0 ∷ no_counts n

-- The loop that adds a peer to the counts, from chunk `i` on.
unfoldable pub count_peer : Option (List Bool) → ℕ → List ℕ → List ℕ
count_peer bf i [] = []
count_peer bf i (c ∷ count) = (if may_have bf i then c + 1 else c) ∷ count_peer bf (suc i) count

unfoldable pub count_peers : Bitfields → List ℕ → List ℕ
unfolding count_peer
count_peers [] count = count
count_peers ((peer, bf) ∷ rest) count = count_peers rest (count_peer bf 0 count)

abbrev pub or_zero : Option ℕ → ℕ
or_zero none = 0
or_zero (some c) = c

-- `count[i]`
abbrev pub count_at : List ℕ → ℕ → ℕ
count_at count i = or_zero (get_elem? count i)

-- The comparison that the sort is given.
abbrev pub rarer : List ℕ → ℕ → ℕ → Bool
rarer count a b =
    if count_at count a == count_at count b
    then ltb a b
    else ltb (count_at count a) (count_at count b)

-- `sort.SliceStable`: an element goes before the first that it is not after.
unfoldable pub insert_stable : List ℕ → ℕ → List ℕ → List ℕ
insert_stable count a [] = a ∷ []
insert_stable count a (b ∷ bs) =
    let rest = insert_stable count a bs in if rarer count b a then b ∷ rest else a ∷ b ∷ bs

unfoldable pub sort_stable : List ℕ → List ℕ → List ℕ
unfolding insert_stable
sort_stable count [] = []
sort_stable count (a ∷ l) = insert_stable count a (sort_stable count l)

-- `indices`, from `i` on.
abbrev pub upto : ℕ → ℕ → List ℕ
upto i zero = []
upto i (suc n) = i ∷ upto (suc i) n

-- `buildRarityOrder`
unfoldable pub build_rarity_order : Bitfields → ℕ → List ℕ
unfolding sort_stable count_peers
build_rarity_order bitfields total =
    sort_stable (count_peers bitfields (no_counts total)) (upto 0 total)

-- How many peers may have a chunk.
abbrev pub owners : Bitfields → ℕ → ℕ
owners [] i = 0
owners ((peer, bf) ∷ rest) i = (if may_have bf i then 1 else 0) + owners rest i

count_peer-get :
    (bf : Option (List Bool)) (i k : ℕ) (count : List ℕ)
    → k < length count
    → count_at (count_peer bf i count) k ≡ (if may_have bf (i + k) then 1 else 0) + count_at count k
unfolding count_peer
count_peer-get bf i k [] h = absurd (omega arith)
count_peer-get bf i zero (c ∷ count) h = let e : i + 0 ≡ i = omega arith in rw e (ground arith)
count_peer-get bf i (suc k) (c ∷ count) h =
    let e : i + suc k ≡ suc i + k = omega arith in
    rw e (count_peer-get bf (suc i) k count (omega arith))

length-count_peer :
    (bf : Option (List Bool)) (i : ℕ) (count : List ℕ)
    → length (count_peer bf i count) ≡ length count
unfolding count_peer
length-count_peer bf i [] = refl
length-count_peer bf i (c ∷ count) = omega (arith, length-count_peer bf (suc i) count)

count_peers-get :
    (bitfields : Bitfields) (k : ℕ) (count : List ℕ)
    → k < length count
    → count_at (count_peers bitfields count) k ≡ owners bitfields k + count_at count k
unfolding count_peers
count_peers-get [] k count h = omega arith
count_peers-get ((peer, bf) ∷ rest) k count h =
    let ih =
      count_peers-get rest k (count_peer bf 0 count)
        (omega (arith, length-count_peer bf 0 count)) in
    ground (arith, count_peer-get bf 0 k count h)

length-no_counts : (n : ℕ) → length (no_counts n) ≡ n
length-no_counts zero = refl
length-no_counts (suc n) = omega (arith, length-no_counts n)

no_counts-get : (n k : ℕ) → count_at (no_counts n) k ≡ 0
no_counts-get zero k = refl
no_counts-get (suc n) zero = refl
no_counts-get (suc n) (suc k) = no_counts-get n k

count_peers-owners :
    (bitfields : Bitfields) (total k : ℕ)
    → k < total
    → count_at (count_peers bitfields (no_counts total)) k ≡ owners bitfields k
count_peers-owners bitfields total k h =
    let e = count_peers-get bitfields k (no_counts total) (omega (arith, length-no_counts total)) in
    omega (arith, no_counts-get total k)

-- The order of the result: fewer owners first, and then the smaller index.
abbrev pub Before : (ℕ → ℕ) → ℕ → ℕ → Type 0
Before f a b = (f a < f b) ⊎ ((f a ≡ f b) × (a < b))

abbrev pub Ascending : (ℕ → ℕ) → List ℕ → Type 0
Ascending f [] = Unit
Ascending f (a ∷ l) = ((b : ℕ) → In b l → Before f a b) × Ascending f l

insert_stable-In :
    (count : List ℕ) (a j : ℕ) (bs : List ℕ) → In j (insert_stable count a bs) ↔ ((a ≡ j) ⊎ In j bs)
unfolding insert_stable
insert_stable-In count a j [] = (λ m. m, λ m. m)
insert_stable-In count a j (b ∷ bs) =
    let (there, back) = insert_stable-In count a j bs in
    elim (Bool-cases (rarer count b a)) [
      | inl e ↦
          rw (insert_stable, e)
            (
              elim [
                | inl p ↦ inr (inl p)
                | inr m ↦ elim (there m) [ inl p ↦ inl p | inr q ↦ inr (inr q) ]
              ],
              elim [
                | inl p ↦ inr (back (inl p))
                | inr m ↦ elim m [ inl p ↦ inl p | inr q ↦ inr (back (inr q)) ]
              ],
            )
      | inr e ↦ rw (insert_stable, e) (λ m. m, λ m. m)
    ]

rarer-Before : (count : List ℕ) (a b : ℕ) → rarer count a b ≡ true → Before (count_at count) a b
rarer-Before count a b h = elim (Bool-cases (count_at count a == count_at count b)) [
  | inl e ↦ inr (ground arith, ground arith)
  | inr e ↦ inl (ground arith)
]

not-rarer-Before :
    (count : List ℕ) (a b : ℕ) → rarer count b a ≡ false → a ≢ b → Before (count_at count) a b
not-rarer-Before count a b h n = elim (Bool-cases (count_at count b == count_at count a)) [
  | inl e ↦ inr (ground arith, ground arith)
  | inr e ↦ inl (ground arith)
]

Before-trans : (f : ℕ → ℕ) (a b c : ℕ) → Before f a b → Before f b c → Before f a c
Before-trans f a b c p q = elim p [
  | inl x ↦ elim q [ inl y ↦ inl (omega arith) | inr y ↦ inl (omega (arith, y.0)) ]
  | inr x ↦ elim q [
    | inl y ↦ inl (omega (arith, x.0))
    | inr y ↦ inr (x.0 ∙ y.0, omega (arith, x.1, y.1))
  ]
]

insert_stable-Ascending :
    (count : List ℕ) (a : ℕ) (bs : List ℕ)
    → ¬ In a bs
    → Ascending (count_at count) bs
    → Ascending (count_at count) (insert_stable count a bs)
unfolding insert_stable
insert_stable-Ascending count a [] n s = (λ b m. absurd m, tt)
insert_stable-Ascending count a (b ∷ bs) n s = elim (Bool-cases (rarer count b a)) [
  | inl e ↦
      rw (insert_stable, e)
        (
          λ j m. elim ((insert_stable-In count a j bs).0 m) [
            | inl p ↦ subst (Before (count_at count) b) p (rarer-Before count b a e)
            | inr q ↦ s.0 j q
          ],
          insert_stable-Ascending count a bs (λ m. n (inr m)) s.1,
        )
  | inr e ↦
      let first = not-rarer-Before count a b e (λ p. n (inl (sym p))) in
      rw (insert_stable, e)
        (
          λ j m. elim m [
            | inl p ↦ subst (Before (count_at count) a) p first
            | inr q ↦ Before-trans (count_at count) a b j first (s.0 j q)
          ],
          s,
        )
]

sort_stable-In : (count : List ℕ) (j : ℕ) (l : List ℕ) → In j (sort_stable count l) ↔ In j l
unfolding sort_stable
sort_stable-In count j [] = (λ m. m, λ m. m)
sort_stable-In count j (a ∷ l) =
    let (there, back) = sort_stable-In count j l in
    let (into, out) = insert_stable-In count a j (sort_stable count l) in
    (
      λ m. elim (into m) [ inl p ↦ inl p | inr q ↦ inr (there q) ],
      elim [ inl p ↦ out (inl p) | inr q ↦ out (inr (back q)) ],
    )

sort_stable-Ascending :
    (count : List ℕ) (l : List ℕ) → NoRepeat l → Ascending (count_at count) (sort_stable count l)
unfolding sort_stable
sort_stable-Ascending count [] r = tt
sort_stable-Ascending count (a ∷ l) r =
    insert_stable-Ascending count a (sort_stable count l)
      (λ m. r.0 ((sort_stable-In count a l).0 m)) (sort_stable-Ascending count l r.1)

pub upto-In : (j i n : ℕ) → In j (upto i n) ↔ ((i ≤ j) × (j < i + n))
upto-In j i zero = (λ m. absurd m, λ h. omega (arith, h.0, h.1))
upto-In j i (suc n) =
    let (there, back) = upto-In j (suc i) n in
    (
      elim [
        | inl p ↦ (omega arith, omega arith)
        | inr m ↦ let (x, y) = there m in (omega arith, omega arith)
      ],
      λ h. elim (Bool-cases (i == j)) [
        | inl e ↦ inl (ground arith)
        | inr e ↦ inr (back (ground (arith, h.0), omega (arith, h.1)))
      ],
    )

upto-NoRepeat : (i n : ℕ) → NoRepeat (upto i n)
upto-NoRepeat i zero = tt
upto-NoRepeat i (suc n) =
    (λ m. omega (arith, ((upto-In i (suc i) n).0 m).0), upto-NoRepeat (suc i) n)

Ascending-cong :
    (f g : ℕ → ℕ) (l : List ℕ) → ((i : ℕ) → In i l → f i ≡ g i) → Ascending f l → Ascending g l
Ascending-cong f g [] same s = tt
Ascending-cong f g (a ∷ l) same s = (
  λ b m. elim (s.0 b m) [
    | inl x ↦ inl (omega (arith, same a (inl refl), same b (inr m)))
    | inr x ↦ inr (omega (arith, x.0, same a (inl refl), same b (inr m)), x.1)
  ],
  Ascending-cong f g l (λ i m. same i (inr m)) s.1,
)

-- The order has exactly the chunks below the total, with those that fewer peers may have before
-- those that more may have, and of two that equally many may have the one with the smaller index
-- first; so none stands twice.
pub build_rarity_order-Ascending :
    (bitfields : Bitfields) (total : ℕ)
    → ((i : ℕ) → In i (build_rarity_order bitfields total) ↔ (i < total))
      × Ascending (owners bitfields) (build_rarity_order bitfields total)
unfolding build_rarity_order
build_rarity_order-Ascending bitfields total =
    let count = count_peers bitfields (no_counts total) in
    let inside : (i : ℕ) → In i (sort_stable count (upto 0 total)) ↔ (i < total) = λ i. (
      λ m. omega (arith, ((upto-In i 0 total).0 ((sort_stable-In count i (upto 0 total)).0 m)).1),
      λ h.
          (sort_stable-In count i (upto 0 total)).1
            ((upto-In i 0 total).1 (omega arith, omega arith)),
    ) in
    (
      inside,
      Ascending-cong (count_at count) (owners bitfields) (sort_stable count (upto 0 total))
          (λ i m. count_peers-owners bitfields total i ((inside i).0 m))
          (sort_stable-Ascending count (upto 0 total) (upto-NoRepeat 0 total)),
    )
