-- ===== src/Dht/Clock/Merge.antt =====
-- `Merge` is the least upper bound, and `Increment` a strict step up.
use p2p_file_sharing.Base.{
  ℕ, ◌+◌, String, [], ◌∷◌, Option, none, some, ltb, if◌then◌else◌, ◌≡◌, refl, inl, inr, arith,
  Bool-cases, eq_iff, str_eq, eq_refl,
}
use p2p_file_sharing.Base.Map.{lookup, insert, lookup-insert, Distinct, insert-Distinct}
use p2p_file_sharing.Dht.Clock.{
  Clock, count_of, tick, overtakes, merge_clock, copy_into, compare_vector_clocks, newer,
}
use p2p_file_sharing.Dht.Clock.Order.{Below, Leq, compare_vector_clocks_iff}

-- The greater of two counters, where a missing one is below every other.
abbrev pub join : Option ℕ → Option ℕ → Option ℕ
join none o = o
join (some n) none = some n
join (some n) (some m) = if ltb n m then some m else some n

merge_entry :
    (clock : Clock) (node : String) (n : ℕ) (j : String)
    → lookup j (if overtakes (lookup node clock) n then insert node n clock else clock)
      ≡ (if str_eq node j then join (lookup node clock) (some n) else lookup j clock)
merge_entry clock node n j = ground (arith, lookup-insert node j n clock, eq_iff node j)

-- After `Merge` with a clock in which no node stands twice every counter is the greater of the two.
pub lookup-merge_clock :
    (j : String) (clock other : Clock)
    → Distinct other
    → lookup j (merge_clock clock other) ≡ join (lookup j clock) (lookup j other)
unfolding merge_clock lookup
lookup-merge_clock j clock [] d = ground arith
lookup-merge_clock j clock ((node, n) ∷ other) d =
    let clock' = if overtakes (lookup node clock) n then insert node n clock else clock in
    ground (arith, merge_entry clock node n j, lookup-merge_clock j clock' other d.1, eq_iff node j)

pub merge_clock-Distinct :
    (clock other : Clock) → Distinct clock → Distinct (merge_clock clock other)
unfolding merge_clock
merge_clock-Distinct clock [] d = d
merge_clock-Distinct clock ((node, n) ∷ other) d =
    elim (Bool-cases (overtakes (lookup node clock) n)) [
      | inl e ↦
          rw (e, merge_clock)
            (merge_clock-Distinct (insert node n clock) other (insert-Distinct node n clock d))
      | inr e ↦ rw (e, merge_clock) (merge_clock-Distinct clock other d)
    ]

Below-join_left : (o p : Option ℕ) → Below o (join o p)
Below-join_left none p = tt
Below-join_left (some n) none = omega arith
Below-join_left (some n) (some m) = ground arith

Below-join_right : (o p : Option ℕ) → Below p (join o p)
Below-join_right o none = tt
Below-join_right none (some m) = omega arith
Below-join_right (some n) (some m) = ground arith

Below-join_least : (o p q : Option ℕ) → Below o q → Below p q → Below (join o p) q
Below-join_least none p q h k = k
Below-join_least (some n) none q h k = h
Below-join_least (some n) (some m) q h k = ground arith

-- The merged clock is the least that has seen all that either clock has seen.
pub merge_clock-least :
    (a b : Clock)
    → Distinct b
    → Leq a (merge_clock a b)
      × Leq b (merge_clock a b)
      × ((c : Clock) → Leq a c → Leq b c → Leq (merge_clock a b) c)
merge_clock-least a b d = (
  λ j. rw (lookup-merge_clock j a b d) (Below-join_left (lookup j a) (lookup j b)),
  λ j. rw (lookup-merge_clock j a b d) (Below-join_right (lookup j a) (lookup j b)),
  λ c h k j.
      rw (lookup-merge_clock j a b d)
        (Below-join_least (lookup j a) (lookup j b) (lookup j c) (h j) (k j)),
)

-- `Clone` gives a clock that reads the same.
lookup-copy_into :
    (j : String) (copy clock : Clock)
    → Distinct clock
    → lookup j (copy_into copy clock)
      ≡ (elim (lookup j clock) [ none ↦ lookup j copy | some n ↦ some n ])
unfolding copy_into lookup
lookup-copy_into j copy [] d = refl
lookup-copy_into j copy ((node, n) ∷ clock) d = ground (
  arith,
  lookup-copy_into j (insert node n copy) clock d.1,
  lookup-insert node j n copy,
  eq_iff node j,
)

pub lookup-clone :
    (j : String) (clock : Clock) → Distinct clock → lookup j (copy_into [] clock) ≡ lookup j clock
unfolding lookup
lookup-clone j clock d = ground (arith, lookup-copy_into j [] clock d)

pub copy_into-Distinct : (copy clock : Clock) → Distinct copy → Distinct (copy_into copy clock)
unfolding copy_into
copy_into-Distinct copy [] d = d
copy_into-Distinct copy ((node, n) ∷ clock) d =
    copy_into-Distinct (insert node n copy) clock (insert-Distinct node n copy d)

-- The clock of a node's next write.
pub lookup-tick :
    (node j : String) (clock : Clock)
    → lookup j (tick node clock)
      ≡ (if str_eq node j then some (count_of (lookup node clock) + 1) else lookup j clock)
unfolding tick
lookup-tick node j clock = lookup-insert node j _ clock

pub tick-Distinct : (node : String) (clock : Clock) → Distinct clock → Distinct (tick node clock)
unfolding tick
tick-Distinct node clock d = insert-Distinct node _ clock d

tick-Leq : (node : String) (clock : Clock) → Leq clock (tick node clock)
tick-Leq node clock j = rw lookup-tick (go (lookup j clock) refl)
  where
    go :
        (o : Option ℕ)
        → lookup j clock ≡ o
        → Below o (if str_eq node j then some (count_of (lookup node clock) + 1) else o)
    go none e = tt
    go (some n) e = ground (arith, eq_iff node j)

pub Below-refl : (o : Option ℕ) → Below o o
Below-refl none = tt
Below-refl (some n) = omega arith

pub Below-trans : (o p q : Option ℕ) → Below o p → Below p q → Below o q
Below-trans none p q h k = tt
Below-trans (some n) none q h k = absurd h
Below-trans (some n) (some m) none h k = absurd k
Below-trans (some n) (some m) (some l) h k = omega arith

beyond : (o p : Option ℕ) → Below o p → ¬ Below (some (count_of p + 1)) o
beyond none p h k = k
beyond (some n) none h k = h
beyond (some n) (some m) h k = omega arith

-- A node's next write is newer than every version whose history the node has seen: the clock after
-- `Increment` is strictly above every clock below the one before, where no node stands twice in
-- either.
pub tick-newer :
    (node : String) (a b : Clock)
    → Distinct a
    → Distinct b
    → Leq b a
    → compare_vector_clocks (some b) (some (tick node a)) ≡ newer
tick-newer node a b da db h =
    (compare_vector_clocks_iff b (tick node a) db (tick-Distinct node a da)).0.1 (
      λ j. Below-trans (lookup j b) (lookup j a) (lookup j (tick node a)) (h j) (tick-Leq node a j),
      λ k. beyond (lookup node b) (lookup node a) (h node) (rw (lookup-tick, eq_refl) at (k node)),
    )
