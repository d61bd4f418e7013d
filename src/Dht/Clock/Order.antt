-- ===== src/Dht/Clock/Order.antt =====
-- Causality as an order of clocks, and what the two comparisons say of it.
use p2p_file_sharing.Base.{
  ℕ, ◌≤◌, String, false, [], ◌∷◌, Option, none, some, ◌≡◌, refl, ◌↔◌, inl, inr, arith, Option-cases,
}
use p2p_file_sharing.Base.Map.{lookup, Every, Rows, Rows-Every, Every-Rows, Distinct}
use p2p_file_sharing.Dht.Clock.{
  Clock, Dominance, weigh, weigh_all, note_missing, find_missing, dominance, Sign, compare, newer,
  older, concurrent, compare_vector_clocks,
}

-- A counter that is missing lies below every counter.
abbrev pub Below : Option ℕ → Option ℕ → Type 0
Below none o = Unit {0}
Below (some n) none = ⊥
Below (some n) (some m) = n ≤ m

-- Everything that the first clock has seen, the second has seen too.
abbrev pub Leq : Clock → Clock → Type 0
Leq a b = (node : String) → Below (lookup node a) (lookup node b)

-- A flag that is off was off before and saw no entry that raises it.
weigh_all-mine :
    (other clock : Clock) (f : Dominance)
    → ((weigh_all other clock f).mine ≡ false)
      ↔ ((f.mine ≡ false) × Rows (λ node n. Below (some n) (lookup node other)) clock)
unfolding weigh_all
weigh_all-mine other [] f = ground arith
weigh_all-mine other ((node, n) ∷ clock) f =
    ground (arith, weigh_all-mine other clock (weigh n (lookup node other) f))

-- The other count of an entry, where there is one, does not exceed the own one.
abbrev Holds : ℕ → Option ℕ → Type 0
Holds n none = Unit {0}
Holds n (some m) = m ≤ n

weigh_all-other :
    (other clock : Clock) (f : Dominance)
    → ((weigh_all other clock f).other ≡ false)
      ↔ ((f.other ≡ false) × Rows (λ node n. Holds n (lookup node other)) clock)
unfolding weigh_all
weigh_all-other other [] f = ground arith
weigh_all-other other ((node, n) ∷ clock) f =
    ground (arith, weigh_all-other other clock (weigh n (lookup node other) f))

find_missing-mine :
    (clock other : Clock) (f : Dominance) → (find_missing clock other f).mine ≡ f.mine
unfolding find_missing
find_missing-mine clock [] f = refl
find_missing-mine clock ((node, n) ∷ other) f =
    ground (arith, find_missing-mine clock other (note_missing (lookup node clock) f))

abbrev Present : Option ℕ → Type 0
Present none = ⊥
Present (some m) = Unit {0}

find_missing-other :
    (clock other : Clock) (f : Dominance)
    → ((find_missing clock other f).other ≡ false)
      ↔ ((f.other ≡ false) × Rows (λ node n. Present (lookup node clock)) other)
unfolding find_missing
find_missing-other clock [] f = ground arith
find_missing-other clock ((node, n) ∷ other) f =
    ground (arith, find_missing-other clock other (note_missing (lookup node clock) f))

Leq-of_Every : (a b : Clock) → Every (λ node n. Below (some n) (lookup node b)) a → Leq a b
Leq-of_Every a b all node = elim (Option-cases (lookup node a)) [
  | inl e ↦ rw e tt
  | inr (n, e) ↦ rw e (all node n e)
]

Every-of_Leq : (a b : Clock) → Leq a b → Every (λ node n. Below (some n) (lookup node b)) a
Every-of_Leq a b below node n e = rw e at (below node)

module _ (a b : Clock) (da : Distinct a) (db : Distinct b) where
  -- The own flag stays off exactly when the own clock lies below the other.
  pub dominance-mine_iff : ((dominance a b).mine ≡ false) ↔ Leq a b
  unfolding dominance
  dominance-mine_iff = (
    λ h. Leq-of_Every a b (
        Rows-Every _ a
          ((weigh_all-mine b a (record { mine = false; other = false })).0 (
            ground (
              arith,
              find_missing-mine a b (weigh_all b a (record { mine = false; other = false })),
            ))).1),
    λ h.
        let off =
          (weigh_all-mine b a (record { mine = false; other = false })).1
            (refl, Every-Rows _ a da (Every-of_Leq a b h)) in
        ground
          (arith, find_missing-mine a b (weigh_all b a (record { mine = false; other = false }))),
  )

  other_seen :
      Rows (λ node n. Holds n (lookup node b)) a
      → Rows (λ node n. Present (lookup node a)) b
      → Leq b a
  other_seen held present node = elim (Option-cases (lookup node b)) [
    | inl e ↦ rw e tt
    | inr (m, e) ↦ elim (Option-cases (lookup node a)) [
      | inl n ↦ absurd (rw n at (Rows-Every _ b present node m e))
      | inr (n, p) ↦ rw (e, p) (rw e at (Rows-Every _ a held node n p))
    ]
  ]

  seen-Holds : Leq b a → Every (λ node n. Holds n (lookup node b)) a
  seen-Holds h node n e = elim (Option-cases (lookup node b)) [
    | inl p ↦ rw p tt
    | inr (m, p) ↦ rw p (rw (p, e) at (h node))
  ]

  seen-Present : Leq b a → Every (λ node n. Present (lookup node a)) b
  seen-Present h node m e = elim (Option-cases (lookup node a)) [
    | inl p ↦ absurd (rw (e, p) at (h node))
    | inr (n, p) ↦ rw p tt
  ]

  -- The other flag stays off exactly when the other clock lies below the own.
  pub dominance-other_iff : ((dominance a b).other ≡ false) ↔ Leq b a
  unfolding dominance
  dominance-other_iff = (
    λ h.
        let (weighed, present) =
          (find_missing-other a b (weigh_all b a (record { mine = false; other = false }))).0 h in
        other_seen ((weigh_all-other b a (record { mine = false; other = false })).0 weighed).1
          present,
    λ h. (find_missing-other a b (weigh_all b a (record { mine = false; other = false }))).1 (
      (weigh_all-other b a (record { mine = false; other = false })).1
          (refl, Every-Rows _ a da (seen-Holds h)),
      Every-Rows _ b db (seen-Present h),
    ),
  )

  -- `compareVectorClocks` decides causality between two clocks in which no node stands twice:
  -- "newer" exactly when the second has seen all that the first has and more, "older" exactly when
  -- the first has seen all that the second has (equal clocks included), and "concurrent" exactly
  -- when neither has seen the other.
  pub compare_vector_clocks_iff :
      ((compare_vector_clocks (some a) (some b) ≡ newer) ↔ (Leq a b × ¬ Leq b a))
      × ((compare_vector_clocks (some a) (some b) ≡ older) ↔ Leq b a)
      × ((compare_vector_clocks (some a) (some b) ≡ concurrent) ↔ (¬ Leq a b × ¬ Leq b a))
  unfolding compare_vector_clocks
  compare_vector_clocks_iff = ground (arith, dominance-mine_iff, dominance-other_iff)

  -- For two clocks in which no node stands twice `Compare` is 1 exactly when the own clock is
  -- strictly above the other, -1 exactly when it is strictly below, and so 0 both for equal and for
  -- concurrent clocks.
  pub compare_iff :
      ((compare (some a) (some b) ≡ Sign.plus) ↔ (Leq b a × ¬ Leq a b))
      × ((compare (some a) (some b) ≡ Sign.minus) ↔ (Leq a b × ¬ Leq b a))
  unfolding compare
  compare_iff = ground (arith, dominance-mine_iff, dominance-other_iff)
