-- ===== src/Dht/Clock.antt =====
-- dht/vector_clock.go, and `compareVectorClocks` of dht/node.go. A counter starts at zero and only
-- grows, so it is a natural number; that it stays below 2 ^ 63 is not modelled.
pub mod Merge
pub mod Order
use p2p_file_sharing.Base.{
  ℕ, ◌+◌, String, Bool, true, false, not, ◌&&◌, ◌||◌, List, [], ◌∷◌, length, Option, none, some,
  ltb, ◌==◌, if◌then◌else◌,
}
use p2p_file_sharing.Base.Map.{Map, lookup, insert}

-- The map in the field `Clock`. A nil map reads as the empty one.
abbrev pub Clock : Type 0
Clock = Map ℕ

-- A pointer to a vector clock; `none` is nil.
abbrev pub VectorClock : Type 0
VectorClock = Option Clock

unfoldable pub new_vector_clock : VectorClock
new_vector_clock = some []

-- `vc.Clock[nodeID]`, zero if it is missing.
abbrev pub count_of : Option ℕ → ℕ
count_of none = 0
count_of (some n) = n

unfoldable pub tick : String → Clock → Clock
tick node clock = insert node (count_of (lookup node clock) + 1) clock

unfoldable pub increment : VectorClock → String → VectorClock
unfolding tick
increment none node = none
increment (some clock) node = some (tick node clock)

-- Whether the loop of `Merge` writes: the entry is missing, or the other count is greater.
abbrev pub overtakes : Option ℕ → ℕ → Bool
overtakes none count = true
overtakes (some current) count = ltb current count

unfoldable pub merge_clock : Clock → Clock → Clock
merge_clock clock [] = clock
merge_clock clock ((node, count) ∷ other) =
    merge_clock (if overtakes (lookup node clock) count then insert node count clock else clock)
      other

unfoldable pub merge : VectorClock → VectorClock → VectorClock
unfolding merge_clock
merge none other = none
merge (some clock) none = some clock
merge (some clock) (some other) = some (merge_clock clock other)

-- The copying loop of `Clone`, into the map that `copy` stands for.
unfoldable pub copy_into : Clock → Clock → Clock
copy_into copy [] = copy
copy_into copy ((node, count) ∷ clock) = copy_into (insert node count copy) clock

unfoldable pub clone : VectorClock → VectorClock
unfolding copy_into new_vector_clock
clone none = new_vector_clock
clone (some clock) = some (copy_into [] clock)

-- The two flags of `Compare`.
pub record Dominance : Type 0 where
  pub mine : Bool
  pub other : Bool

abbrev pub weigh : ℕ → Option ℕ → Dominance → Dominance
weigh count none f = record f { mine = true }
weigh count (some other_count) f =
    if ltb count other_count
    then record f { other = true }
    else if ltb other_count count
    then record f { mine = true }
    else f

-- Its first loop, over the own clock.
unfoldable pub weigh_all : Clock → Clock → Dominance → Dominance
weigh_all other [] f = f
weigh_all other ((node, count) ∷ clock) f =
    weigh_all other clock (weigh count (lookup node other) f)

abbrev pub note_missing : Option ℕ → Dominance → Dominance
note_missing none f = record f { other = true }
note_missing (some _) f = f

-- Its second loop, over the other clock.
unfoldable pub find_missing : Clock → Clock → Dominance → Dominance
find_missing clock [] f = f
find_missing clock ((node, _) ∷ other) f =
    find_missing clock other (note_missing (lookup node clock) f)

unfoldable pub dominance : Clock → Clock → Dominance
unfolding weigh_all find_missing
dominance clock other =
    find_missing clock other (weigh_all other clock (record { mine = false; other = false }))

-- The result of `Compare`: 1, -1 or 0.
pub data Sign : Type 0 where
  plus minus zero : Sign

abbrev pub sign_of : Dominance → Sign
sign_of f =
    if f.mine && not f.other
    then Sign.plus
    else if not f.mine && f.other
    then Sign.minus
    else Sign.zero

unfoldable pub compare : VectorClock → VectorClock → Sign
unfolding dominance
compare none none = Sign.zero
compare none (some _) = Sign.minus
compare (some _) none = Sign.plus
compare (some clock) (some other) = sign_of (dominance clock other)

unfoldable pub is_empty : VectorClock → Bool
is_empty none = true
is_empty (some clock) = length clock == 0

abbrev pub same_count : ℕ → Option ℕ → Bool
same_count count none = false
same_count count (some other_count) = other_count == count

unfoldable pub same_counts : Clock → Clock → Bool
same_counts other [] = true
same_counts other ((node, count) ∷ clock) =
    same_count count (lookup node other) && same_counts other clock

unfoldable pub equals : VectorClock → VectorClock → Bool
unfolding same_counts
equals none none = true
equals none (some _) = false
equals (some _) none = false
equals (some clock) (some other) = length clock == length other && same_counts other clock

-- A nil receiver is replaced in the method only, so its caller keeps nil.
unfoldable pub merge_and_increment : VectorClock → VectorClock → String → VectorClock
unfolding merge increment
merge_and_increment none other node = none
merge_and_increment vc other node = increment (merge vc other) node

-- The texts that `compareVectorClocks` returns.
pub data Causality : Type 0 where
  newer older concurrent : Causality

-- Its two loops weigh like those of `Compare`: `a` is the own clock and `b` the other one.
abbrev pub causality_of : Dominance → Causality
causality_of f = if f.mine && f.other then concurrent else if f.other then newer else older

unfoldable pub compare_vector_clocks : VectorClock → VectorClock → Causality
unfolding dominance
compare_vector_clocks (some a) (some b) = causality_of (dominance a b)
compare_vector_clocks _ _ = concurrent
