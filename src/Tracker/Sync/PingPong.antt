-- ===== src/Tracker/Sync/PingPong.antt =====
-- The replies of two trackers to each other's messages.
use p2p_file_sharing.Base.{
  ℕ, zero, suc, String, ◌≡◌, refl, ◌≢◌, List, [], ◌∷◌, none, some, Option, arith,
}
use p2p_file_sharing.Base.Map.{
  Map, lookup, delete, delete_absent, lookup-delete_self, lookup-insert_self,
}
use p2p_file_sharing.Tracker.State.{State, Message, File, after, Codec}
use p2p_file_sharing.Tracker.Files.{file_key, without_owner, stop_sharing}
use p2p_file_sharing.Tracker.Sync.{sync_stop_sharing, apply_sync}
use p2p_file_sharing.Tracker.Sync.Replica.{sent}

-- The message in flight between two trackers after `n` deliveries: `m` goes to `a`, and what that
-- makes `a` send goes to `b`, and so on. Only the two trackers are peers of each other.
unfoldable pub in_flight : Codec → ℕ → State → State → Message → Option Message
in_flight c zero a b m = some m
in_flight c (suc n) a b m =
    let o = apply_sync c m.cmd a m.args in
    elim (sent o) [ [] ↦ none | m' ∷ _ ↦ in_flight c n b (after a o) m' ]

-- The file is there, and it has an owner besides the user.
pub record Held (k user : String) (s : State) : Type 0 where
  pub file : File
  pub stored : lookup k s.files ≡ some file
  pub shared : delete user file.owners ≢ []

delete_again : {V : Type 0} (k : String) (m : Map V) → delete k (delete k m) ≡ delete k m
delete_again k m = delete_absent k (delete k m) (lookup-delete_self k m)

module _ (c : Codec) (g name user : String) (rest : List String) where
  abbrev pub stop_message : Message
  stop_message = record { cmd = "sync_stop_sharing"; args = g ∷ name ∷ user ∷ rest }

  stop_sent :
      (s : State)
      → Held (file_key g name) user s
      → sent (apply_sync c "sync_stop_sharing" s stop_message.args) ≡ stop_message ∷ []
  unfolding apply_sync sync_stop_sharing stop_sharing lookup
  stop_sent s h = ground arith

  stop_kept :
      (s : State)
      → Held (file_key g name) user s
      → Held (file_key g name) user (after s (apply_sync c "sync_stop_sharing" s stop_message.args))
  unfolding apply_sync sync_stop_sharing stop_sharing lookup
  stop_kept s h = record {
    file = without_owner h.file user;
    stored =
        ground (arith, lookup-insert_self (file_key g name) (without_owner h.file user) s.files);
    shared = rw (delete_again user h.file.owners) h.shared;
  }

  -- When a user stops sharing a file that another user still shares, and both trackers hold the
  -- file, the two trackers answer each other's message for ever: after any number of deliveries
  -- there is still one in flight, and it is the same message.
  pub stop_sharing_endless :
      (n : ℕ) (a b : State)
      → Held (file_key g name) user a
      → Held (file_key g name) user b
      → in_flight c n a b stop_message ≡ some stop_message
  unfolding in_flight
  stop_sharing_endless zero a b p q = refl
  stop_sharing_endless (suc n) a b p q =
      rw (stop_sent a p, in_flight)
        (stop_sharing_endless n b (after a (apply_sync c "sync_stop_sharing" a stop_message.args)) q
          (stop_kept a p))
