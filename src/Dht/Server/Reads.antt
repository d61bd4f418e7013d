-- ===== src/Dht/Server/Reads.antt =====
-- What a node reads of another.
use p2p_file_sharing.Base.{
  ℕ, ◌*◌, ◌/◌, String, List, [], ◌∷◌, Option, none, some, ◌≡◌, ◌≢◌, refl, inl, inr, Option-cases,
}
use p2p_file_sharing.Dht.Clock.{Clock}
use p2p_file_sharing.Dht.Value.{
  StoredValue, stored, Conflicts, nil, cons, clock_of, no_value, Storage, Node,
}
use p2p_file_sharing.Dht.Store.{local_get}
use p2p_file_sharing.Dht.Server.{reply_conflicts, reply_of, internal_get_handler}
use p2p_file_sharing.Dht.Requests.{remote_get, parse_stored_value}

-- A time in nanoseconds without the fraction of a second.
abbrev pub whole_seconds : ℕ → ℕ
whole_seconds t = t / 1000000000 * 1000000000

-- What is formatted with RFC 3339 is read to the second.
abbrev pub ReadsSeconds : (ℕ → String) → (String → Option ℕ) → Type 0
ReadsSeconds format_time parse_time = (t : ℕ) → parse_time (format_time t) ≡ some (whole_seconds t)

module _ {V : Type 0} where
  -- Each version among the conflicts has a clock.
  abbrev pub Clocked : Conflicts V → Type 0
  Clocked nil = Unit
  Clocked (cons c rest) = (clock_of c ≢ none) × Clocked rest

  -- A version without a value, or one with a clock whose conflicts have clocks too.
  abbrev pub Answerable : StoredValue V → Type 0
  Answerable (stored none vc cs t) = Unit
  Answerable (stored (some v) vc cs t) = (vc ≢ none) × Clocked cs

  -- The version with its time to the second, without its conflicts.
  abbrev pub without_conflicts : StoredValue V → StoredValue V
  without_conflicts (stored none vc cs t) = no_value
  without_conflicts (stored (some v) vc cs t) = stored (some v) vc nil (whole_seconds t)

  pub reply_conflicts-some :
      (st : Storage V) (cs : Conflicts V)
      → Clocked cs
      → (l : List (Option V × Clock)) × (reply_conflicts st cs ≡ some l)
  unfolding reply_conflicts
  reply_conflicts-some st nil h = ([], refl)
  reply_conflicts-some st (cons (stored v none cs t) rest) h = absurd (h.0 refl)
  reply_conflicts-some st (cons (stored v (some clock) cs t) rest) h =
      let (l, e) = reply_conflicts-some st rest h.1 in
      ((v, clock) ∷ l, rw (reply_conflicts, e) refl)

  remote_get-reply_of :
      (st : Storage V) (format_time : ℕ → String) (parse_time : String → Option ℕ) (now : ℕ)
      (sv : StoredValue V)
      → ReadsSeconds format_time parse_time
      → Answerable sv
      → remote_get parse_time now (reply_of st format_time sv) ≡ without_conflicts sv
  unfolding remote_get parse_stored_value
  remote_get-reply_of st format_time parse_time now (stored none none cs t) to_second h = refl
  remote_get-reply_of st format_time parse_time now (stored none (some clock) cs t) to_second h =
      elim (Option-cases (reply_conflicts st cs)) [
        | inl e ↦ rw (remote_get, e) refl
        | inr (l, e) ↦ rw (remote_get, e) refl
      ]
  remote_get-reply_of st format_time parse_time now (stored (some v) none cs t) to_second h =
      absurd (h.0 refl)
  remote_get-reply_of st format_time parse_time now (stored (some v) (some clock) cs t) to_second
        h =
      let (l, e) = reply_conflicts-some st cs h.1 in
      rw (remote_get, e, parse_stored_value, to_second t) refl

-- If package time reads what it formats to the second, and what a node reads locally for a key is a
-- version with a clock, whose conflicts have clocks, or has no value, then another node that gets
-- its answer to a read of this key takes from it the same version with its time to the second and
-- without its conflicts; of a key without a value it takes none, although the handler may panic
-- then.
pub remote_get-local_get :
    {V : Type 0} (st : Storage V) (format_time : ℕ → String) (parse_time : String → Option ℕ)
    (now : ℕ) (r : Node st) (key : String)
    → ReadsSeconds format_time parse_time
    → Answerable (local_get st r key)
    → remote_get parse_time now (internal_get_handler st format_time r key)
      ≡ without_conflicts (local_get st r key)
unfolding internal_get_handler
remote_get-local_get st format_time parse_time now r key to_second h =
    remote_get-reply_of st format_time parse_time now (local_get st r key) to_second h
