-- ===== src/Dht/Server/Repairs.antt =====
-- What a read repair does to the node that it goes to.
use p2p_file_sharing.Base.{
  ℕ, String, List, [], ◌∷◌, Option, none, some, ◌≡◌, ◌≢◌, refl, ◌∙◌, inl, inr, ◌⊎◌, eq_refl, eq_iff,
  arith,
}
use p2p_file_sharing.Dht.Clock.{Clock, VectorClock}
use p2p_file_sharing.Dht.Value.{StoredValue, stored, Conflicts, nil, cons, Storage, Node}
use p2p_file_sharing.Dht.Store.{local_get}
use p2p_file_sharing.Dht.Server.{
  ok, internal_error, ClockField, readable, RepairBody, reply_conflicts, reply_of,
  internal_get_handler, repair_handler, repair_conflicts,
}
use p2p_file_sharing.Dht.Server.Writes.{store_or_fail-cases}
use p2p_file_sharing.Dht.Server.Reads.{Clocked, reply_conflicts-some}
use p2p_file_sharing.Dht.Requests.{repair_node_body, send_conflicts}

module _ {V : Type 0} (st : Storage V) (format_time : ℕ → String) where
  -- The conflicts that a repair writes are answered as those of the version it came from.
  send-reply_conflicts :
      (cs : Conflicts V) (now : ℕ)
      → Clocked cs
      → (l : List (Option V × ClockField)) × (send_conflicts cs ≡ some l)
        × (reply_conflicts st (repair_conflicts st l now) ≡ reply_conflicts st cs)
  unfolding send_conflicts reply_conflicts repair_conflicts
  send-reply_conflicts nil now h = ([], refl, refl)
  send-reply_conflicts (cons (stored v none cs t) rest) now h = absurd (h.0 refl)
  send-reply_conflicts (cons (stored v (some clock) cs t) rest) now h =
      let (l, sent, e) = send-reply_conflicts rest now h.1 in
      (
        (v, readable clock) ∷ l,
        rw (send_conflicts, sent) refl,
        rw (reply_conflicts, repair_conflicts, e) refl,
      )

  reply_of-stored :
      (v : V) (clock : Clock) (cs : Conflicts V) (t : ℕ) (l : List (Option V × Clock))
      → reply_conflicts st cs ≡ some l
      → reply_of st format_time (stored (some v) (some clock) cs t)
        ≡ some (record {
          value = some v;
          vector_clock = clock;
          timestamp = format_time t;
          conflicts = l;
        })
  reply_of-stored v clock cs t l e = rw e refl

  local_get-stored :
      (d : Node st) (key : String) (v : V) (vc : VectorClock) (cs : Conflicts V) (t : ℕ)
      → st.get key d.db ≡ some (stored (some v) vc cs t)
      → local_get st d key ≡ stored (some v) vc cs t
  unfolding local_get
  local_get-stored d key v vc cs t e = rw (local_get, e) refl

  -- A repair with a version that has a value and a clock, and whose conflicts have clocks, is
  -- refused by the store, which leaves the node as it was; or afterwards the node answers a read of
  -- the key with the version's value, clock and conflicts, and holds for other keys what it held.
  pub repair_handler-answers :
      (r : Node st) (key : String) (v : V) (clock : Clock) (cs : Conflicts V) (t now : ℕ)
      → Clocked cs
      → (body : RepairBody V) × (repair_node_body (stored (some v) (some clock) cs t) ≡ some body)
        × ((repair_handler st r key (some body) now ≡ (r, internal_error))
            ⊎ ((d : Node st) × (l : List (Option V × Clock)) × (repair_handler st r key
                    (some body)
                    now
                  ≡ (d, ok))
                × (reply_conflicts st cs ≡ some l)
                × (internal_get_handler st format_time d key
                    ≡ some (record {
                      value = some v;
                      vector_clock = clock;
                      timestamp = format_time now;
                      conflicts = l;
                    }))
                × ((j : String) → key ≢ j → st.get j d.db ≡ st.get j r.db)))
  unfolding repair_node_body repair_handler internal_get_handler
  repair_handler-answers r key v clock cs t now h =
      let (l, sent, same) = send-reply_conflicts cs now h in
      let (answer, e) = reply_conflicts-some st cs h in
      let body : RepairBody V = record {
        value = some (some v);
        vector_clock = readable clock;
        conflicts = l;
      } in
      let sv : StoredValue V = stored (some v) (some clock) (repair_conflicts st l now) now in
      (
        body,
        rw (repair_node_body, sent) refl,
        elim (store_or_fail-cases st r key sv) [
          | inl f ↦ inl (rw (repair_handler, f) refl)
          | inr (d, f, read) ↦ inr (
            d,
            answer,
            rw (repair_handler, f) refl,
            e,
            rw
                (
                  internal_get_handler,
                  local_get-stored d key v (some clock) (repair_conflicts st l now) now
                      (rw eq_refl at (read key)),
                )
                (reply_of-stored v clock (repair_conflicts st l now) now answer (same ∙ e)),
            λ j ne. ground (arith, read j, eq_iff key j),
          )
        ],
      )
