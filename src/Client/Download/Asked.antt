-- ===== src/Client/Download/Asked.antt =====
-- The peer that a download asks is one that the tracker gave.
use mathlib.Core.Path.{subst}
use p2p_file_sharing.Base.{
  ℕ, zero, suc, ◌%◌, ◌<◌, String, Bool, true, false, List, [], ◌∷◌, In, length, get_elem?, Option,
  none, some, str_eq, ◌≡◌, refl, arith, inl, inr, Bool-cases, Option-cases,
}
use p2p_file_sharing.Base.Map.{insert}
use p2p_file_sharing.Client.Chunk.{Bytes}
use p2p_file_sharing.Client.Peer.{
  Network, get_bitfields, query_all, query_bitfield, may_have, or_unknown, all_unknown,
}
use p2p_file_sharing.Client.Rarity.{Bitfields}
use p2p_file_sharing.Client.Download.{
  FileInfo, Ranged, choose_peer, bitfields_of, qualified, pick_peer, or_any,
}

get_elem?-In :
    (xs : List String) (k : ℕ) → k < length xs → (x : String) × (get_elem? xs k ≡ some x) × In x xs
get_elem?-In [] k h = absurd (omega arith)
get_elem?-In (x ∷ xs) zero h = (x, refl, inl refl)
get_elem?-In (x ∷ xs) (suc k) h = let (y, e, m) = get_elem?-In xs k (omega arith) in (y, e, inr m)

pick_peer-In :
    (xs : List String) (i : ℕ) → 0 < length xs → (x : String) × (pick_peer xs i ≡ some x) × In x xs
pick_peer-In [] i h = absurd (omega arith)
pick_peer-In (x ∷ xs) i h = get_elem?-In (x ∷ xs) (i % length (x ∷ xs)) (omega arith)

-- Each entry is of one of the peers.
abbrev pub Of : List String → Bitfields → Type 0
Of peers m = (e : String × Option (List Bool)) → In e m → In e.0 peers

insert-Of :
    (peers : List String) (p : String) (bf : Option (List Bool)) (m : Bitfields)
    → In p peers
    → Of peers m
    → Of peers (insert p bf m)
unfolding insert
insert-Of peers p bf [] here all e at = elim at [
  | inl same ↦ subst (λ x. In x.0 peers) same here
  | inr none_left ↦ absurd none_left
]
insert-Of peers p bf ((q, w) ∷ m) here all e at = elim (Bool-cases (str_eq q p)) [
  | inl t ↦ elim (rw (insert, t) at at) [
    | inl same ↦ subst (λ x. In x.0 peers) same here
    | inr later ↦ all e (inr later)
  ]
  | inr t ↦ elim (rw (insert, t) at at) [
    | inl same ↦ all e (inl same)
    | inr later ↦ insert-Of peers p bf m here (λ x h. all x (inr h)) e later
  ]
]

weaken : (p : String) (peers : List String) (m : Bitfields) → Of peers m → Of (p ∷ peers) m
weaken p peers m all e at = inr (all e at)

query_all-Of :
    (net : Network) (peers : List String) (hash : String) → Of peers (query_all net peers hash)
unfolding query_all
query_all-Of net [] hash = λ e at. absurd at
query_all-Of net (p ∷ peers) hash =
    let ih = weaken p peers (query_all net peers hash) (query_all-Of net peers hash) in
    elim (Option-cases (query_bitfield net p hash)) [
      | inl e ↦ rw (query_all, e) ih
      | inr (bits, e) ↦
          rw (query_all, e)
            (insert-Of (p ∷ peers) p (some bits) (query_all net peers hash) (inl refl) ih)
    ]

all_unknown-Of : (peers : List String) → Of peers (all_unknown peers)
all_unknown-Of [] = λ e at. absurd at
all_unknown-Of (p ∷ peers) =
    insert-Of (p ∷ peers) p none (all_unknown peers) (inl refl)
      (weaken p peers (all_unknown peers) (all_unknown-Of peers))

or_unknown-Of : (peers : List String) (m : Bitfields) → Of peers m → Of peers (or_unknown peers m)
or_unknown-Of peers [] all = all_unknown-Of peers
or_unknown-Of peers (e ∷ m) all = all

get_bitfields-Of :
    (net : Network) (peers : List String) (hash : String) → Of peers (get_bitfields net peers hash)
unfolding get_bitfields
get_bitfields-Of net peers hash =
    or_unknown-Of peers (query_all net peers hash) (query_all-Of net peers hash)

qualified-In :
    (peers : List String) (i : ℕ) (m : Bitfields) (p : String)
    → Of peers m
    → In p (qualified i m)
    → In p peers
unfolding qualified
qualified-In peers i [] p all at = absurd at
qualified-In peers i ((q, bf) ∷ m) p all at = elim (Bool-cases (may_have bf i)) [
  | inl t ↦ elim (rw (qualified, t) at at) [
    | inl same ↦ subst (λ x. In x peers) same (all (q, bf) (inl refl))
    | inr later ↦ qualified-In peers i m p (λ e h. all e (inr h)) later
  ]
  | inr t ↦ qualified-In peers i m p (λ e h. all e (inr h)) (rw (qualified, t) at at)
]

or_any-In :
    (peers qs : List String) (i : ℕ)
    → 0 < length peers
    → ((p : String) → In p qs → In p peers)
    → (p : String) × (or_any peers qs i ≡ some p) × In p peers
or_any-In peers [] i some_peer inside = pick_peer-In peers i some_peer
or_any-In peers (q ∷ qs) i some_peer inside =
    let (p, e, m) = pick_peer-In (q ∷ qs) i (omega arith) in (p, e, inside p m)

-- A `range` loop meets no entry that is not in the map.
abbrev pub Meets : Ranged → Type 0
Meets ranged =
    (i : ℕ) (m : Bitfields) (e : String × Option (List Bool)) → In e (ranged i m) → In e m

module _ (sha : Bytes → String) (net : Network) (ranged : Ranged) (meets : Meets ranged) where
  -- The peer that is asked is one of those that the tracker gave.
  pub choose_peer-In :
      (rarest : Bool) (info : FileInfo) (i : ℕ)
      → 0 < length info.peers
      → (p : String) × (choose_peer ranged info.peers (bitfields_of sha net ranged rarest info) i
          ≡ some p)
        × In p info.peers
  unfolding choose_peer
  choose_peer-In false info i some_peer = pick_peer-In info.peers i some_peer
  choose_peer-In true info i some_peer =
      let m = get_bitfields net info.peers info.file_hash in
      or_any-In info.peers (qualified i (ranged i m)) i some_peer (λ p at.
        qualified-In info.peers i (ranged i m) p
          (λ e h. get_bitfields-Of net info.peers info.file_hash e (meets i m e h)) at)
