-- ===== src/Dht/Resolve/Covers.antt =====
-- A resolved read has seen all that the responses have.
use p2p_file_sharing.Base.{ℕ, List, [], ◌∷◌, none, some, ◌≡◌, arith, map, All}
use p2p_file_sharing.Dht.Clock.{
  Clock, clone, merge, merge_clock, Causality, newer, older, concurrent, compare_vector_clocks,
}
use p2p_file_sharing.Dht.Clock.Order.{Leq, compare_vector_clocks_iff}
use p2p_file_sharing.Dht.Clock.Merge.{merge_clock-least, merge_clock-Distinct}
use p2p_file_sharing.Dht.Store.Laws.{HasClock, copy, Leq-copy, copy-Distinct, Leq-trans, Leq-refl}
use p2p_file_sharing.Dht.Value.{StoredValue, stored, value_of, clock_of}
use p2p_file_sharing.Dht.Resolve.{
  merge_conflicts, settle, resolve_round, resolve_from, resolve_conflicts,
}

module _ {V : Type 0} where
  -- A response as the gathering loop keeps it: a value that is not nil, and a clock.
  pub record IsResponse (sv : StoredValue V) (clock : Clock) : Type 0 where
    pub valued : (v : V) × (value_of sv ≡ some v)
    pub has_clock : HasClock sv clock

  -- The version has seen all that two clocks have.
  pub record Covers (sv : StoredValue V) (a b : Clock) : Type 0 where
    pub clock : Clock
    pub response : IsResponse sv clock
    pub left : Leq a clock
    pub right : Leq b clock

module _ {V : Type 0} (now : ℕ) where
  settle-Covers :
      (r : Causality) (current sv : StoredValue V) (n : ℕ) (a b : Clock)
      → IsResponse current a
      → IsResponse sv b
      → compare_vector_clocks (some a) (some b) ≡ r
      → Covers (settle now r current sv n).0 a b
  unfolding merge_conflicts merge clone copy
  settle-Covers newer current sv n a b p q e = record {
    clock = b;
    response = q;
    left = ((compare_vector_clocks_iff a b p.has_clock.1 q.has_clock.1).0.0 e).0;
    right = Leq-refl b;
  }
  settle-Covers older current sv n a b p q e = record {
    clock = a;
    response = p;
    left = Leq-refl a;
    right = (compare_vector_clocks_iff a b p.has_clock.1 q.has_clock.1).1.0 e;
  }
  settle-Covers concurrent (stored v vc cs t) sv n a b p q e =
      let (left, right, _) = merge_clock-least (copy a) b q.has_clock.1 in
      record {
        clock = merge_clock (copy a) b;
        response = record {
          valued = p.valued;
          has_clock = (
            rw (p.has_clock.0, q.has_clock.0),
            merge_clock-Distinct (copy a) b (copy-Distinct a),
          );
        };
        left = Leq-trans a (copy a) (merge_clock (copy a) b) (Leq-copy a p.has_clock.1) left;
        right = right;
      }

  round-Covers :
      (current sv : StoredValue V) (n : ℕ) (a b : Clock)
      → IsResponse current a
      → IsResponse sv b
      → Covers (resolve_round now current sv n).0 a b
  unfolding resolve_round
  round-Covers (stored none vc cs t) sv n a b p q = absurd (ground (arith, p.valued.1))
  round-Covers (stored (some v) vc cs t) sv n a b p q =
      settle-Covers (compare_vector_clocks vc (clock_of sv)) (stored (some v) vc cs t) sv n a b p q
        (rw (p.has_clock.0, q.has_clock.0))

  -- What the result of a loop has seen: its start and every response.
  pub record CoversAll (sv : StoredValue V) (a : Clock) (responses : List (StoredValue V × Clock))
      : Type 0 where
    pub clock : Clock
    pub response : IsResponse sv clock
    pub start : Leq a clock
    pub each : All (λ r. Leq r.1 clock) responses

  from-CoversAll :
      (current : StoredValue V) (n : ℕ) (responses : List (StoredValue V × Clock)) (a : Clock)
      → IsResponse current a
      → All (λ r. IsResponse r.0 r.1) responses
      → CoversAll (resolve_from now current n (map (λ r. r.0) responses)).0 a responses
  unfolding resolve_from
  from-CoversAll current n [] a p all = record {
    clock = a;
    response = p;
    start = Leq-refl a;
    each = tt;
  }
  from-CoversAll current n ((sv, b) ∷ responses) a p all =
      let one = round-Covers current sv n a b p all.0 in
      let rest =
        from-CoversAll (resolve_round now current sv n).0 (resolve_round now current sv n).1
          responses one.clock one.response all.1 in
      record {
        clock = rest.clock;
        response = rest.response;
        start = Leq-trans a one.clock rest.clock one.left rest.start;
        each = (Leq-trans b one.clock rest.clock one.right rest.start, rest.each);
      }

  -- However many replicas answer, and in whatever order their answers are met: the version that a
  -- read returns has a value, and its clock has seen all that the clock of each answer has.
  pub resolve_conflicts-CoversAll :
      (sv : StoredValue V) (a : Clock) (responses : List (StoredValue V × Clock))
      → IsResponse sv a
      → All (λ r. IsResponse r.0 r.1) responses
      → CoversAll (resolve_conflicts now (sv ∷ map (λ r. r.0) responses)).0 a responses
  unfolding resolve_conflicts resolve_from resolve_round
  resolve_conflicts-CoversAll sv a responses p all = from-CoversAll sv 0 responses a p all
