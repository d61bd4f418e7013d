-- ===== src/Dht/Reconnect/Delivered.antt =====
-- A hint that is reported as delivered is at the node that it is for.
use p2p_file_sharing.Base.{
  ℕ, zero, suc, String, true, ◌||◌, Option, some, ◌==◌, ◌≡◌, refl, inl, inr, Bool-cases, eq_refl,
}
use p2p_file_sharing.Dht.Clock.{Clock}
use p2p_file_sharing.Dht.Value.{stored, nil, HintedWrite, Storage, Node}
use p2p_file_sharing.Dht.Server.{ok, PutBody, readable, internal_put_handler}
use p2p_file_sharing.Dht.Server.Writes.{internal_put_handler-forced}
use p2p_file_sharing.Dht.Requests.{
  Delivery, lost, unanswered, answered, exchange, after_put, Route, reaches, routed_put,
  deliver_hint_body, clock_of_nil,
}
use p2p_file_sharing.Dht.Reconnect.{put_attempts, deliver_hint}

module _ {V : Type 0} (st : Storage V) (route : String → Route) (sent key : String)
    (routed : route sent ≡ reaches key) (value : Option V) (clock : Clock) (body : PutBody V)
    (given : body.value ≡ some value) (dated : body.vector_clock ≡ readable clock)
    (flagged : (body.force_sync || body.is_hint || body.force_key) ≡ true) where
  -- The node has the version that the body carries.
  abbrev Holds : Node st → Type 0
  Holds r = (now : ℕ) × (st.get key r.db ≡ some (stored value (some clock) nil now))

  handled-Holds :
      (r : Node st) (now : ℕ)
      → ((after_put st r (internal_put_handler st r key (some body) now)).1 == ok) ≡ true
      → Holds (after_put st r (internal_put_handler st r key (some body) now)).0
  handled-Holds r now h = elim (internal_put_handler-forced st r key value body now given flagged) [
    | inl e ↦ let f = rw e at h in cc
    | inr (d, e, read) ↦ rw e (now, rw (eq_refl, dated) at (read key))
  ]

  exchange-Holds :
      (delivery : Delivery) (r : Node st)
      → (exchange st delivery (routed_put st (route sent) r body) r).1 ≡ true
      → Holds (exchange st delivery (routed_put st (route sent) r body) r).0
  exchange-Holds lost r h = cc
  exchange-Holds (unanswered now) r h = cc
  exchange-Holds (answered now) r h = rw routed (handled-Holds r now (rw routed at h))

  put_attempts-Holds :
      (deliveries : ℕ → Delivery) (more i : ℕ) (r : Node st)
      → (put_attempts st route body sent deliveries more i r).1 ≡ true
      → Holds (put_attempts st route body sent deliveries more i r).0
  unfolding put_attempts
  put_attempts-Holds deliveries zero i r h = cc
  put_attempts-Holds deliveries (suc more) i r h =
      let step = exchange st (deliveries i) (routed_put st (route sent) r body) r in
      elim (Bool-cases step.1) [
        | inl e ↦ rw (put_attempts, e) (exchange-Holds (deliveries i) r e)
        | inr e ↦
            rw (put_attempts, e)
              (put_attempts-Holds deliveries more (suc i) step.0 (rw (put_attempts, e) at h))
      ]

-- If a hint is reported as delivered, and the router of the node that it is for calls the handler of
-- writes with some key for the URL of the hint's key, then the node has the hint's value and clock
-- under that key, whatever it had before: under the hint's key if this is what the router makes of
-- the URL, and under another one if it is not.
pub deliver_hint-stored :
    {V : Type 0} (st : Storage V) (route : String → Route) (hint : HintedWrite V) (key : String)
    (deliveries : ℕ → Delivery) (r : Node st)
    → route hint.key ≡ reaches key
    → (deliver_hint st route hint deliveries r).1 ≡ true
    → (now : ℕ) × (st.get key (deliver_hint st route hint deliveries r).0.db
        ≡ some (stored hint.value (some (clock_of_nil hint.vector_clock)) nil now))
unfolding deliver_hint deliver_hint_body
deliver_hint-stored st route hint key deliveries r routed h =
    put_attempts-Holds st route hint.key key routed hint.value (clock_of_nil hint.vector_clock)
      (deliver_hint_body hint) refl refl refl deliveries 5 0 r h
