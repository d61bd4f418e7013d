-- ===== src/Tracker/Sync.antt =====
-- tracker/sync.go: what a tracker does with the messages of its peers, and the merge at a rejoin.
pub mod Merge
pub mod PingPong
pub mod Replica
use p2p_file_sharing.Base.{String, List, [], ◌∷◌, none, some}
use p2p_file_sharing.Base.Map.{Map, lookup, insert}
use p2p_file_sharing.Tracker.State.{State, Payload, ok, error, Outcome, panic, done, Codec}
use p2p_file_sharing.Tracker.Accounts.{new_user}
use p2p_file_sharing.Tracker.Groups.{
  new_group, put_group, with_pending, with_member, without_member,
}
use p2p_file_sharing.Tracker.Files.{file_key, upload_file, with_owner, stop_sharing}

abbrev pub synced : State → Outcome
synced s = done s (ok (Payload.text "synced")) []

-- The answer of a reused handler is dropped, and what it has started goes on.
abbrev pub acknowledged : Outcome → Outcome
acknowledged panic = panic
acknowledged (done s r es) = done s (ok (Payload.text "synced")) es

unfoldable pub sync_create_user : State → List String → Outcome
sync_create_user s (user ∷ pass ∷ _) = elim (lookup user s.users) [
  | some _ ↦ synced s
  | none ↦ synced (record s { users = insert user (new_user user pass) s.users })
]
sync_create_user s _ = done s (error "sync_create_user: need user, pass") []

unfoldable pub sync_create_group : State → List String → Outcome
sync_create_group s (g ∷ owner ∷ _) = elim (lookup g s.groups) [
  | some _ ↦ synced s
  | none ↦ synced (put_group s g (new_group g owner))
]
sync_create_group s _ = done s (error "sync_create_group: need groupID, owner") []

unfoldable pub sync_join_group : State → List String → Outcome
sync_join_group s (g ∷ user ∷ _) = elim (lookup g s.groups) [
  | none ↦ synced s
  | some grp ↦ synced (put_group s g (with_pending grp user))
]
sync_join_group s _ = done s (error "sync_join_group: need groupID, userID") []

unfoldable pub sync_accept_request : State → List String → Outcome
sync_accept_request s (g ∷ user ∷ _) = elim (lookup g s.groups) [
  | none ↦ synced s
  | some grp ↦ synced (put_group s g (with_member grp user))
]
sync_accept_request s _ = done s (error "sync_accept_request: need groupID, userID") []

unfoldable pub sync_upload_file : Codec → State → List String → Outcome
sync_upload_file c s (name ∷ g ∷ user ∷ size ∷ hash ∷ json ∷ rest) =
    acknowledged (upload_file c s (name ∷ g ∷ user ∷ size ∷ hash ∷ json ∷ rest))
sync_upload_file c s _ = done s (error "sync_upload_file: insufficient args") []

unfoldable pub sync_stop_sharing : State → List String → Outcome
sync_stop_sharing s (g ∷ name ∷ user ∷ rest) =
    acknowledged (stop_sharing s (g ∷ name ∷ user ∷ rest))
sync_stop_sharing s _ = done s (error "sync_stop_sharing: need groupID, fileName, userID") []

unfoldable pub sync_leave_group : State → List String → Outcome
sync_leave_group s (g ∷ user ∷ _) = elim (lookup g s.groups) [
  | none ↦ synced s
  | some grp ↦ synced (put_group s g (without_member grp user))
]
sync_leave_group s _ = done s (error "sync_leave_group: need groupID, userID") []

unfoldable pub sync_add_seeder : State → List String → Outcome
sync_add_seeder s (g ∷ name ∷ user ∷ _) =
    let k = file_key g name in
    elim (lookup k s.files) [
      | none ↦ synced s
      | some f ↦ synced (record s { files = insert k (with_owner f user) s.files })
    ]
sync_add_seeder s _ = done s (error "sync_add_seeder: need groupID, fileName, userID") []

-- The switch of `applySync`.
abbrev pub sync_routes : Codec → Map (State → List String → Outcome)
sync_routes c =
    ("sync_create_user", sync_create_user)
    ∷ ("sync_create_group", sync_create_group)
    ∷ ("sync_join_group", sync_join_group)
    ∷ ("sync_accept_request", sync_accept_request)
    ∷ ("sync_upload_file", sync_upload_file c)
    ∷ ("sync_stop_sharing", sync_stop_sharing)
    ∷ ("sync_leave_group", sync_leave_group)
    ∷ ("sync_add_seeder", sync_add_seeder)
    ∷ []

unfoldable pub apply_sync : Codec → String → State → List String → Outcome
apply_sync c cmd s args = elim (lookup cmd (sync_routes c)) [
  | none ↦ done s (error "unknown sync command") []
  | some handler ↦ handler s args
]

-- One of the three loops of `mergeState`: an entry is taken only where the key is free.
unfoldable pub merge_map {ℓ} : {V : Type ℓ} → Map V → Map V → Map V
merge_map own [] = own
merge_map own ((k, v) ∷ snap) = elim (lookup k own) [
  | some _ ↦ merge_map own snap
  | none ↦ merge_map (insert k v own) snap
]

unfoldable pub merge_state : State → State → State
unfolding merge_map
merge_state s snap = record {
  users = merge_map s.users snap.users;
  groups = merge_map s.groups snap.groups;
  files = merge_map s.files snap.files;
}
