-- ===== src/Tracker/Server.antt =====
-- tracker/server.go: `handleConn`, from the message that was read to the response that is sent.
use p2p_file_sharing.Base.{String, List, [], ◌∷◌, none, some}
use p2p_file_sharing.Base.Map.{Map, lookup}
use p2p_file_sharing.Tracker.State.{State, Message, Payload, ok, error, Outcome, done, Codec}
use p2p_file_sharing.Tracker.Accounts.{create_user, login, update_address}
use p2p_file_sharing.Tracker.Groups.{
  create_group, join_group, accept_request, list_requests, list_groups, leave_group,
}
use p2p_file_sharing.Tracker.Files.{
  upload_file, list_files, get_file_info, stop_sharing, add_seeder,
}
use p2p_file_sharing.Tracker.Sync.{apply_sync}

unfoldable pub sync_pull : State → List String → Outcome
sync_pull s _ = done s (ok (Payload.snapshot s)) []

-- The commands of clients.
abbrev pub client_routes : Codec → Map (State → List String → Outcome)
client_routes c =
    ("create_user", create_user)
    ∷ ("login", login)
    ∷ ("update_address", update_address)
    ∷ ("create_group", create_group)
    ∷ ("list_requests", list_requests)
    ∷ ("accept_requests", accept_request)
    ∷ ("join_group", join_group)
    ∷ ("upload_file", upload_file c)
    ∷ ("list_files", list_files)
    ∷ ("get_file_info", get_file_info)
    ∷ ("list_groups", list_groups)
    ∷ ("stop_sharing", stop_sharing)
    ∷ ("leave_group", leave_group)
    ∷ ("add_seeder", add_seeder)
    ∷ []

-- The commands of peer trackers.
abbrev pub peer_routes : Codec → Map (State → List String → Outcome)
peer_routes c =
    ("sync_create_user", apply_sync c "sync_create_user")
    ∷ ("sync_create_group", apply_sync c "sync_create_group")
    ∷ ("sync_join_group", apply_sync c "sync_join_group")
    ∷ ("sync_accept_request", apply_sync c "sync_accept_request")
    ∷ ("sync_upload_file", apply_sync c "sync_upload_file")
    ∷ ("sync_stop_sharing", apply_sync c "sync_stop_sharing")
    ∷ ("sync_leave_group", apply_sync c "sync_leave_group")
    ∷ ("sync_add_seeder", apply_sync c "sync_add_seeder")
    ∷ ("sync_pull", sync_pull)
    ∷ []

unfoldable pub handle_conn : Codec → State → Message → Outcome
handle_conn c s msg = elim (lookup msg.cmd (client_routes c)) [
  | some handler ↦ handler s msg.args
  | none ↦ elim (lookup msg.cmd (peer_routes c)) [
    | some handler ↦ handler s msg.args
    | none ↦ done s (error "unkown command") []
  ]
]
