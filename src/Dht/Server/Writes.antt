-- ===== src/Dht/Server/Writes.antt =====
-- What a write from another node does.
use p2p_file_sharing.Base.{
  ℕ, String, Bool, true, ◌||◌, Option, none, some, if◌then◌else◌, str_eq, ◌≡◌, refl, inl, inr, ◌⊎◌,
  Option-cases,
}
use p2p_file_sharing.Dht.Clock.{
  Clock, VectorClock, new_vector_clock, increment, clone, compare_vector_clocks,
}
use p2p_file_sharing.Dht.Value.{StoredValue, stored, nil, clock_of, Storage, Node}
use p2p_file_sharing.Dht.Store.{local_put, put_over, save}
use p2p_file_sharing.Dht.Server.{
  ok, internal_error, PutBody, internal_put_handler, store_or_fail, clock_or,
}
use p2p_file_sharing.Dht.Requests.{remote_put_body, or_first_step, clock_of_nil}

-- A local write with a clock comes to an end.
pub local_put-some :
    {V : Type 0} (st : Storage V) (r : Node st) (key : String) (value : Option V) (clock : Clock)
    (now : ℕ)
    → (d : Node st) × (b : Bool) × (local_put st r key value (some clock) now ≡ some (d, b))
unfolding local_put
local_put-some st r key value clock now = elim (Option-cases (st.get key r.db)) [
  | inl e ↦
      let p = save st r key (stored value (clone (some clock)) nil now) in
      (p.0, p.1, rw (local_put, e) refl)
  | inr (x, e) ↦
      let p =
        put_over st r key value (some clock) now x
          (compare_vector_clocks (clock_of x) (some clock)) in
      (p.0, p.1, rw (local_put, e) refl)
]

or_first_step-some :
    (self : String) (vc : VectorClock)
    → or_first_step self vc ≡ some (clock_of_nil (or_first_step self vc))
unfolding increment new_vector_clock
or_first_step-some self none = refl
or_first_step-some self (some clock) = refl

-- A write that `remotePut` sends is, at the node that gets it, `localPut` with the sender's clock,
-- or with a clock of the sender's first step if that is nil; it never panics, and the answer is OK
-- whether or not `localPut` stored the value.
pub internal_put_handler-local_put :
    {V : Type 0} (st : Storage V) (r : Node st) (self key : String) (value : Option V)
    (vc : VectorClock) (now : ℕ)
    → (d : Node st) × (b : Bool) × (local_put st r key value (or_first_step self vc) now
        ≡ some (d, b))
      × (internal_put_handler st r key (some (remote_put_body self value vc)) now ≡ some (d, ok))
unfolding internal_put_handler remote_put_body
internal_put_handler-local_put st r self key value vc now =
    let clock = clock_of_nil (or_first_step self vc) in
    let (d, b, e) = local_put-some st r key value clock now in
    (d, b, rw (or_first_step-some self vc) e, rw (internal_put_handler, remote_put_body, e) refl)

module _ {V : Type 0} (st : Storage V) where
  pub store_or_fail-cases :
      (r : Node st) (key : String) (sv : StoredValue V)
      → (store_or_fail st r key sv ≡ (r, internal_error))
        ⊎ ((d : Node st) × (store_or_fail st r key sv ≡ (d, ok))
            × ((j : String) → st.get j d.db ≡ (if str_eq key j then some sv else st.get j r.db)))
  unfolding store_or_fail
  store_or_fail-cases r key sv = elim (Option-cases (st.put key sv r.db)) [
    | inl e ↦ inl (rw (store_or_fail, e) refl)
    | inr (db, e) ↦
        inr (record r { db = db }, rw (store_or_fail, e) refl, λ j. st.get-put key j sv r.db db e)
  ]

  -- A write with one of the three flags is refused by the store, which leaves the node as it was,
  -- or replaces the version of its key, whatever that was and however new, conflicts included, and
  -- changes no other key.
  pub internal_put_handler-forced :
      (r : Node st) (key : String) (value : Option V) (body : PutBody V) (now : ℕ)
      → body.value ≡ some value
      → (body.force_sync || body.is_hint || body.force_key) ≡ true
      → (internal_put_handler st r key (some body) now ≡ some (r, internal_error))
        ⊎ ((d : Node st) × (internal_put_handler st r key (some body) now ≡ some (d, ok))
            × ((j : String)
                → st.get j d.db ≡ (
                    if str_eq key j
                    then some (
                        stored value
                          (clock_or (increment new_vector_clock r.node_id) body.vector_clock)
                          nil
                          now)
                    else st.get j r.db)))
  unfolding internal_put_handler
  internal_put_handler-forced r key value body now given flagged =
      let sv =
        stored value (clock_or (increment new_vector_clock r.node_id) body.vector_clock) nil now in
      elim (store_or_fail-cases r key sv) [
        | inl e ↦ inl (rw (internal_put_handler, given, flagged, e) refl)
        | inr (d, e, read) ↦ inr (d, rw (internal_put_handler, given, flagged, e) refl, read)
      ]
