-- ===== src/Tracker/Rejoin/Kept.antt =====
-- What a tracker has after its start: its own entries, and those of the first snapshot that is read.
use p2p_file_sharing.Base.{
  String, ◌≡◌, refl, List, [], ◌∷◌, Option, none, some, Option-cases, inl, inr,
}
use p2p_file_sharing.Base.Map.{lookup}
use p2p_file_sharing.Tracker.State.{State}
use p2p_file_sharing.Tracker.Sync.{merge_map, merge_state}
use p2p_file_sharing.Tracker.Sync.Merge.{first_of, lookup-merge_map}
use p2p_file_sharing.Tracker.Valid.{IsValid}
use p2p_file_sharing.Tracker.Valid.Server.{merge_state-IsValid}
use p2p_file_sharing.Tracker.Rejoin.{
  save_state, load_state, pull_state_from_peers, empty_state, rejoin,
}

-- The snapshot that is read first; without one, nothing is known of elsewhere.
unfoldable pub first_snapshot : (State → Option State) → List (Option State) → State
first_snapshot decoded [] = empty_state
first_snapshot decoded (none ∷ answers) = first_snapshot decoded answers
first_snapshot decoded (some answer ∷ answers) =
    let rest = first_snapshot decoded answers in
    elim (decoded answer) [ none ↦ rest | some snap ↦ snap ]

-- A state with the entries of two others, those of the first before those of the second.
pub record IsUnion (s snap r : State) : Type 0 where
  pub users_of : (k : String) → lookup k r.users ≡ first_of (lookup k s.users) (lookup k snap.users)
  pub groups_of :
      (k : String) → lookup k r.groups ≡ first_of (lookup k s.groups) (lookup k snap.groups)
  pub files_of : (k : String) → lookup k r.files ≡ first_of (lookup k s.files) (lookup k snap.files)

load_state-save_state : (s own : State) → load_state (save_state s) own ≡ s
unfolding load_state save_state
load_state-save_state s own = refl

pull_state_from_peers-merge_state :
    (decoded : State → Option State) (answers : List (Option State)) (s : State)
    → pull_state_from_peers decoded answers s ≡ merge_state s (first_snapshot decoded answers)
unfolding pull_state_from_peers merge_state merge_map first_snapshot
pull_state_from_peers-merge_state decoded [] s = refl
pull_state_from_peers-merge_state decoded (none ∷ answers) s =
    pull_state_from_peers-merge_state decoded answers s
pull_state_from_peers-merge_state decoded (some answer ∷ answers) s =
    elim (Option-cases (decoded answer)) [
      | inl e ↦
          rw (pull_state_from_peers, first_snapshot, e)
            (pull_state_from_peers-merge_state decoded answers s)
      | inr (snap, e) ↦ rw (pull_state_from_peers, first_snapshot, e) refl
    ]

merge_state-IsUnion : (s snap : State) → IsUnion s snap (merge_state s snap)
unfolding merge_state
merge_state-IsUnion s snap = record {
  users_of = λ k. lookup-merge_map k s.users snap.users;
  groups_of = λ k. lookup-merge_map k s.groups snap.groups;
  files_of = λ k. lookup-merge_map k s.files snap.files;
}

rejoin-merge_state :
    (s : State) (decoded : State → Option State) (answers : List (Option State))
    → rejoin (save_state s) decoded answers ≡ merge_state s (first_snapshot decoded answers)
unfolding rejoin
rejoin-merge_state s decoded answers =
    rw load_state-save_state (pull_state_from_peers-merge_state decoded answers s)

-- If a tracker with a valid state has saved it and starts again, no message is handled before the
-- snapshot is merged, and the snapshot that is read first is valid, then the tracker has a valid
-- state again. It has every entry that it had, as it was, and of those that it did not have exactly
-- those of the snapshot, as it was read: what the peer has changed of an entry in the meantime is
-- not taken over, and an entry that it has deleted stays.
pub rejoin-IsUnion :
    (s : State) (decoded : State → Option State) (answers : List (Option State))
    → IsValid s
    → IsValid (first_snapshot decoded answers)
    → IsValid (rejoin (save_state s) decoded answers)
      × IsUnion s (first_snapshot decoded answers) (rejoin (save_state s) decoded answers)
rejoin-IsUnion s decoded answers v w =
    let snap = first_snapshot decoded answers in
    rw rejoin-merge_state (merge_state-IsValid s snap v w, merge_state-IsUnion s snap)
