-- ===== src/Dht/Store/Laws.antt =====
-- What a local write does to the versions of a key.
use p2p_file_sharing.Base.{
  ℕ, String, Bool, true, [], Option, some, if◌then◌else◌, str_eq, ◌≡◌, refl, ap, inl, inr, arith,
  Option-cases, eq_refl,
}
use p2p_file_sharing.Base.Map.{Distinct, lookup}
use p2p_file_sharing.Dht.Clock.{
  Clock, merge_clock, merge, copy_into, clone, Causality, newer, older, concurrent,
  compare_vector_clocks,
}
use p2p_file_sharing.Dht.Clock.Order.{Leq, compare_vector_clocks_iff}
use p2p_file_sharing.Dht.Clock.Merge.{
  merge_clock-least, merge_clock-Distinct, Below-trans, Below-refl, lookup-clone,
  copy_into-Distinct,
}
use p2p_file_sharing.Dht.Value.{
  StoredValue, stored, nil, clock_of, conflicts_of, append_conflict, Storage, Node,
}
use p2p_file_sharing.Dht.Store.{save, put_over, local_put, count_conflict}

-- The version has a clock, which is a map.
abbrev pub HasClock : {V : Type 0} → StoredValue V → Clock → Type 0
HasClock sv clock = (clock_of sv ≡ some clock) × Distinct clock

module _ {V : Type 0} (st : Storage V) where
  pub save-get :
      (c d : Node st) (key j : String) (sv : StoredValue V)
      → save st c key sv ≡ (d, true)
      → st.get j d.db ≡ (if str_eq key j then some sv else st.get j c.db)
  unfolding save
  save-get c d key j sv e = elim (Option-cases (st.put key sv c.db)) [
    | inl n ↦ cc (rw (n, save) at e)
    | inr (db, p) ↦ ground (arith, st.get-put key j sv c.db db p)
  ]

  pub save-read :
      (c d : Node st) (key : String) (sv : StoredValue V)
      → save st c key sv ≡ (d, true)
      → st.get key d.db ≡ some sv
  save-read c d key sv e = rw eq_refl at (save-get c d key key sv e)

-- What is stored under a key after a write: a version whose clock has seen what two clocks have.
pub record Covers {V : Type 0} (st : Storage V) (d : Node st) (key : String) (new old : Clock)
    : Type 0 where
  pub version : StoredValue V
  pub clock : Clock
  pub read : st.get key d.db ≡ some version
  pub has_clock : HasClock version clock
  pub seen_new : Leq new clock
  pub seen_old : Leq old clock

unfoldable pub copy : Clock → Clock
unfolding copy_into
copy clock = copy_into [] clock

pub Leq-trans : (a b c : Clock) → Leq a b → Leq b c → Leq a c
Leq-trans a b c h k j = Below-trans (lookup j a) (lookup j b) (lookup j c) (h j) (k j)

pub Leq-refl : (a : Clock) → Leq a a
Leq-refl a j = Below-refl (lookup j a)

pub Leq-copy : (clock : Clock) → Distinct clock → Leq clock (copy clock)
unfolding copy
Leq-copy clock d j = rw (lookup-clone j clock d) (Below-refl (lookup j clock))

pub copy-Distinct : (clock : Clock) → Distinct (copy clock)
unfolding copy
copy-Distinct clock = copy_into-Distinct [] clock tt

module _ {V : Type 0} (st : Storage V) (c d : Node st) (key : String) (value : Option V)
    (clock : Clock) (now : ℕ) (dc : Distinct clock) (existing : StoredValue V) (old : Clock)
    (has : HasClock existing old) (there : st.get key c.db ≡ some existing) where
  put_over-Covers :
      (r : Causality)
      → compare_vector_clocks (some old) (some clock) ≡ r
      → put_over st c key value (some clock) now existing r ≡ (d, true)
      → Covers st d key clock old
  unfolding put_over clone merge copy
  put_over-Covers newer e p = record {
    version = stored value (some (copy clock)) nil now;
    clock = copy clock;
    read = save-read st c d key (stored value (some (copy clock)) nil now) p;
    has_clock = (refl, copy-Distinct clock);
    seen_new = Leq-copy clock dc;
    seen_old =
        Leq-trans old clock (copy clock) (((compare_vector_clocks_iff old clock has.1 dc).0.0 e).0)
          (Leq-copy clock dc);
  }
  put_over-Covers older e p =
      let same : c ≡ d = ap (λ (x : Node st × Bool). x.0) p in
      record {
        version = existing;
        clock = old;
        read = rw (← same) there;
        has_clock = has;
        seen_new = (compare_vector_clocks_iff old clock has.1 dc).1.0 e;
        seen_old = Leq-refl old;
      }
  put_over-Covers concurrent e p =
      let (left, right, _) = merge_clock-least (copy clock) old has.1 in
      record {
        version =
            stored value (some (merge_clock (copy clock) old))
              (append_conflict (conflicts_of existing) existing) now;
        clock = merge_clock (copy clock) old;
        read = save-read st (count_conflict st c) d key _ (rw has.0 at p);
        has_clock = (refl, merge_clock-Distinct (copy clock) old (copy-Distinct clock));
        seen_new =
            Leq-trans clock (copy clock) (merge_clock (copy clock) old) (Leq-copy clock dc) left;
        seen_old = right;
      }

  -- A local write never loses history: when `localPut` returns true over an existing version that
  -- has a clock, and no node stands twice in that clock or the written one, what is stored under
  -- the key afterwards has a clock that has seen all that the written clock and the clock before
  -- have seen, whether the write was newer, ignored as older, or merged.
  pub local_put-Covers :
      local_put st c key value (some clock) now ≡ some (d, true) → Covers st d key clock old
  unfolding local_put
  local_put-Covers p =
      put_over-Covers (compare_vector_clocks (some old) (some clock)) refl (ground (arith, has.0))
