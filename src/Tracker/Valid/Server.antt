-- ===== src/Tracker/Valid/Server.antt =====
-- Every message keeps the invariant: those of clients, those of peer trackers, and the merge.
use p2p_file_sharing.Base.{String, ◌≡◌, refl, ◌≢◌, inl, inr, List, ◌∷◌, none, arith, Option-cases}
use p2p_file_sharing.Base.Map.{Map, ◌&◌, lookup, Rows, Rows-Every}
use p2p_file_sharing.Tracker.State.{State, Message, Group, Outcome, panic, done, after, Codec}
use p2p_file_sharing.Tracker.Accounts.{new_user}
use p2p_file_sharing.Tracker.Groups.{
  list_requests, list_groups, new_group, with_pending, with_member, without_member,
}
use p2p_file_sharing.Tracker.Files.{list_files, get_file_info, file_key}
use p2p_file_sharing.Tracker.Sync.{
  acknowledged, sync_create_user, sync_create_group, sync_join_group, sync_accept_request,
  sync_upload_file, sync_stop_sharing, sync_leave_group, sync_add_seeder, sync_routes, apply_sync,
  merge_map, merge_state,
}
use p2p_file_sharing.Tracker.Sync.Merge.{lookup-merge_map, Every-merge_map}
use p2p_file_sharing.Tracker.Server.{sync_pull, client_routes, peer_routes, handle_conn}
use p2p_file_sharing.Tracker.Valid.{
  IsValid, KeepsValid, FileIsValid-mono, put_user-IsValid, put_group-IsValid,
}
use p2p_file_sharing.Tracker.Valid.Handlers.{
  create_user-IsValid, login-IsValid, update_address-IsValid, create_group-IsValid,
  join_group-IsValid, accept_request-IsValid, leave_group-IsValid, upload_file-IsValid,
  stop_sharing-IsValid, put_owner-IsValid, add_seeder-IsValid, Reads, list_requests-Reads,
  list_groups-Reads, list_files-Reads, get_file_info-Reads,
}

acknowledged-after : (s : State) (o : Outcome) → after s (acknowledged o) ≡ after s o
acknowledged-after s panic = refl
acknowledged-after s (done t r es) = refl

sync_create_user-IsValid : KeepsValid sync_create_user
unfolding sync_create_user
sync_create_user-IsValid s (user ∷ pass ∷ rest) v = elim (Option-cases (lookup user s.users)) [
  | inl e ↦ rw (e, sync_create_user) (put_user-IsValid s v user (new_user user pass) refl)
  | inr (_, e) ↦ rw (e, sync_create_user) v
]
sync_create_user-IsValid s _ v = v

sync_create_group-IsValid : KeepsValid sync_create_group
unfolding sync_create_group
sync_create_group-IsValid s (g ∷ owner ∷ rest) v = elim (Option-cases (lookup g s.groups)) [
  | inl e ↦ rw (e, sync_create_group) (put_group-IsValid s v g (new_group g owner) refl)
  | inr (_, e) ↦ rw (e, sync_create_group) v
]
sync_create_group-IsValid s _ v = v

sync_join_group-IsValid : KeepsValid sync_join_group
unfolding sync_join_group
sync_join_group-IsValid s (g ∷ user ∷ rest) v = elim (Option-cases (lookup g s.groups)) [
  | inl e ↦ rw (e, sync_join_group) v
  | inr (x, e) ↦
      rw (e, sync_join_group) (put_group-IsValid s v g (with_pending x user) (v.groups_keyed g x e))
]
sync_join_group-IsValid s _ v = v

sync_accept_request-IsValid : KeepsValid sync_accept_request
unfolding sync_accept_request
sync_accept_request-IsValid s (g ∷ user ∷ rest) v = elim (Option-cases (lookup g s.groups)) [
  | inl e ↦ rw (e, sync_accept_request) v
  | inr (x, e) ↦
      rw (e, sync_accept_request)
        (put_group-IsValid s v g (with_member x user) (v.groups_keyed g x e))
]
sync_accept_request-IsValid s _ v = v

sync_upload_file-IsValid : (c : Codec) → KeepsValid (sync_upload_file c)
unfolding sync_upload_file
sync_upload_file-IsValid c s (name ∷ g ∷ user ∷ size ∷ hash ∷ json ∷ rest) v =
    rw acknowledged-after (upload_file-IsValid c s (name ∷ g ∷ user ∷ size ∷ hash ∷ json ∷ rest) v)
sync_upload_file-IsValid c s _ v = v

sync_stop_sharing-IsValid : KeepsValid sync_stop_sharing
unfolding sync_stop_sharing
sync_stop_sharing-IsValid s (g ∷ name ∷ user ∷ rest) v =
    rw acknowledged-after (stop_sharing-IsValid s (g ∷ name ∷ user ∷ rest) v)
sync_stop_sharing-IsValid s _ v = v

sync_leave_group-IsValid : KeepsValid sync_leave_group
unfolding sync_leave_group
sync_leave_group-IsValid s (g ∷ user ∷ rest) v = elim (Option-cases (lookup g s.groups)) [
  | inl e ↦ rw (e, sync_leave_group) v
  | inr (x, e) ↦
      rw (e, sync_leave_group)
        (put_group-IsValid s v g (without_member x user) (v.groups_keyed g x e))
]
sync_leave_group-IsValid s _ v = v

sync_add_seeder-IsValid : KeepsValid sync_add_seeder
unfolding sync_add_seeder
sync_add_seeder-IsValid s (g ∷ name ∷ user ∷ rest) v =
    elim (Option-cases (lookup (file_key g name) s.files)) [
      | inl e ↦ rw (e, sync_add_seeder) v
      | inr (f, e) ↦ rw (e, sync_add_seeder) (put_owner-IsValid s (file_key g name) f user v e)
    ]
sync_add_seeder-IsValid s _ v = v

pub apply_sync-IsValid : (c : Codec) (cmd : String) → KeepsValid (apply_sync c cmd)
unfolding apply_sync
apply_sync-IsValid c cmd s args v = elim (Option-cases (lookup cmd (sync_routes c))) [
  | inl e ↦ rw (e, apply_sync) v
  | inr (h, e) ↦
      rw (e, apply_sync) (Rows-Every (λ k h. KeepsValid h) (sync_routes c) rows cmd h e s args v)
]
  where
    rows : Rows (λ k h. KeepsValid h) (sync_routes c)
    rows =
        sync_create_user-IsValid
        & sync_create_group-IsValid
        & sync_join_group-IsValid
        & sync_accept_request-IsValid
        & sync_upload_file-IsValid c
        & sync_stop_sharing-IsValid
        & sync_leave_group-IsValid
        & sync_add_seeder-IsValid
        & tt

Reads-IsValid : (h : State → List String → Outcome) → Reads h → KeepsValid h
Reads-IsValid h r s args v = rw (r s args) v

sync_pull-Reads : Reads sync_pull
unfolding sync_pull
sync_pull-Reads s args = refl

client-Rows : (c : Codec) → Rows (λ k h. KeepsValid h) (client_routes c)
client-Rows c =
    create_user-IsValid
    & login-IsValid
    & update_address-IsValid
    & create_group-IsValid
    & Reads-IsValid list_requests list_requests-Reads
    & accept_request-IsValid
    & join_group-IsValid
    & upload_file-IsValid c
    & Reads-IsValid list_files list_files-Reads
    & Reads-IsValid get_file_info get_file_info-Reads
    & Reads-IsValid list_groups list_groups-Reads
    & stop_sharing-IsValid
    & leave_group-IsValid
    & add_seeder-IsValid
    & tt

peer-Rows : (c : Codec) → Rows (λ k h. KeepsValid h) (peer_routes c)
peer-Rows c =
    apply_sync-IsValid c _
    & apply_sync-IsValid c _
    & apply_sync-IsValid c _
    & apply_sync-IsValid c _
    & apply_sync-IsValid c _
    & apply_sync-IsValid c _
    & apply_sync-IsValid c _
    & apply_sync-IsValid c _
    & Reads-IsValid sync_pull sync_pull-Reads
    & tt

-- Every message, of a client or of a peer tracker and with whatever arguments, takes a valid state
-- to a valid state: keys agree with the records stored under them, every file has an owner, counts
-- its chunks and belongs to a group that exists.
pub handle_conn-IsValid :
    (c : Codec) (s : State) (msg : Message) → IsValid s → IsValid (after s (handle_conn c s msg))
unfolding handle_conn
handle_conn-IsValid c s msg v = elim (Option-cases (lookup msg.cmd (client_routes c))) [
  | inr (h, e) ↦
      rw (e, handle_conn)
        (Rows-Every (λ k h. KeepsValid h) (client_routes c) (client-Rows c) msg.cmd h e s msg.args
          v)
  | inl e ↦ elim (Option-cases (lookup msg.cmd (peer_routes c))) [
    | inl n ↦ rw (e, handle_conn, n) v
    | inr (h, n) ↦
        rw (e, handle_conn, n)
          (Rows-Every (λ k h. KeepsValid h) (peer_routes c) (peer-Rows c) msg.cmd h n s msg.args v)
  ]
]

merged_groups : (m n : Map Group) (g : String) → lookup g m ≢ none → lookup g (merge_map m n) ≢ none
merged_groups m n g h = ground (arith, lookup-merge_map g m n)

merged_groups_right :
    (m n : Map Group) (g : String) → lookup g n ≢ none → lookup g (merge_map m n) ≢ none
merged_groups_right m n g h = ground (arith, lookup-merge_map g m n)

-- Merging the snapshot of a peer whose state is valid into a valid state leaves it valid, also
-- where the two trackers disagree about a user, a group or a file.
pub merge_state-IsValid : (s snap : State) → IsValid s → IsValid snap → IsValid (merge_state s snap)
unfolding merge_state
merge_state-IsValid s snap v w = record {
  users_keyed = Every-merge_map _ s.users snap.users v.users_keyed w.users_keyed;
  groups_keyed = Every-merge_map _ s.groups snap.groups v.groups_keyed w.groups_keyed;
  files_valid =
      Every-merge_map _ s.files snap.files
        (λ k f h.
          FileIsValid-mono s.groups groups k f (merged_groups s.groups snap.groups)
            (v.files_valid k f h))
        (λ k f h.
          FileIsValid-mono snap.groups groups k f (merged_groups_right s.groups snap.groups)
            (w.files_valid k f h));
}
  where
    groups : Map Group
    groups = merge_map s.groups snap.groups
