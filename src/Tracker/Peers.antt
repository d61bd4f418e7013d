-- ===== src/Tracker/Peers.antt =====
-- `getPeerAddresses`: whom a client may ask for chunks.
use p2p_file_sharing.Base.{
  String, ◌≡◌, refl, ◌⊎◌, inl, inr, ◌↔◌, [], ◌∷◌, In, some, arith, Bool, true, Option-cases,
  Bool-cases,
}
use p2p_file_sharing.Base.Map.{Map, lookup}
use p2p_file_sharing.Tracker.State.{User}
use p2p_file_sharing.Tracker.Files.{get_peer_addresses}

-- An owner of the file who is logged in at the address.
pub record OnlineOwner (users : Map User) (owners : Map Bool) (a : String) : Type 0 where
  pub id : String
  pub flag : Bool
  pub user : User
  pub owns : In (id, flag) owners
  pub known : lookup id users ≡ some user
  pub online : user.logged_in ≡ true
  pub at : user.addr ≡ a

module _ (users : Map User) (a : String) where
  further : (e : String × Bool) (m : Map Bool) → OnlineOwner users m a → OnlineOwner users (e ∷ m) a
  further e m o = record {
    id = o.id;
    flag = o.flag;
    user = o.user;
    owns = inr o.owns;
    known = o.known;
    online = o.online;
    at = o.at;
  }

  here :
      (id : String) (b : Bool) (m : Map Bool) (u : User)
      → lookup id users ≡ some u
      → u.logged_in ≡ true
      → (In a (get_peer_addresses users m) → OnlineOwner users m a)
      → (u.addr ≡ a) ⊎ In a (get_peer_addresses users m)
      → OnlineOwner users ((id, b) ∷ m) a
  here id b m u e t ih (inl p) = record {
    id = id;
    flag = b;
    user = u;
    owns = inl refl;
    known = e;
    online = t;
    at = p;
  }
  here id b m u e t ih (inr h) = further (id, b) m (ih h)

  listed_online : (m : Map Bool) → In a (get_peer_addresses users m) → OnlineOwner users m a
  unfolding get_peer_addresses
  listed_online [] h = absurd h
  listed_online ((id, b) ∷ m) h = elim (Option-cases (lookup id users)) [
    | inl e ↦ further (id, b) m (listed_online m (rw (e, get_peer_addresses) at h))
    | inr (u, e) ↦ elim (Bool-cases u.logged_in) [
      | inl t ↦ here id b m u e t (λ r. listed_online m r) (rw (e, get_peer_addresses, t) at h)
      | inr t ↦ further (id, b) m (listed_online m (rw (e, get_peer_addresses, t) at h))
    ]
  ]

  online_listed : (m : Map Bool) → OnlineOwner users m a → In a (get_peer_addresses users m)
  unfolding get_peer_addresses
  online_listed [] o = absurd o.owns
  online_listed ((id, b) ∷ m) o = elim o.owns [
    | inl p ↦ ground arith
    | inr p ↦
        let rest = online_listed m (record {
          id = o.id;
          flag = o.flag;
          user = o.user;
          owns = p;
          known = o.known;
          online = o.online;
          at = o.at;
        }) in
        ground arith
  ]

  -- The peers that a tracker names for a file are exactly the addresses of those owners of the file
  -- that are known and logged in.
  pub get_peer_addresses_iff :
      (owners : Map Bool) → In a (get_peer_addresses users owners) ↔ OnlineOwner users owners a
  get_peer_addresses_iff owners = (listed_online owners, online_listed owners)
