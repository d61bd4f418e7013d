-- ===== src/Tracker/Sync/Replica.antt =====
-- Two trackers: what one broadcasts, applied by a peer in the same state, gives the same state.
use p2p_file_sharing.Base.{String, ◌≡◌, refl, List, [], ◌∷◌, arith}
use p2p_file_sharing.Base.Map.{lookup}
use p2p_file_sharing.Tracker.State.{
  State, Message, Effect, save, broadcast, Outcome, panic, done, after, Codec,
}
use p2p_file_sharing.Tracker.Accounts.{create_user}
use p2p_file_sharing.Tracker.Groups.{create_group, join_group, accept_request, leave_group}
use p2p_file_sharing.Tracker.Files.{upload_file, stop_sharing, add_seeder}
use p2p_file_sharing.Tracker.Sync.{
  sync_create_user, sync_create_group, sync_join_group, sync_accept_request, sync_upload_file,
  sync_stop_sharing, sync_leave_group, sync_add_seeder, apply_sync,
}

-- The messages among the effects of a call.
abbrev pub broadcasts : List Effect → List Message
broadcasts [] = []
broadcasts (save ∷ es) = broadcasts es
broadcasts (broadcast m ∷ es) = m ∷ broadcasts es

abbrev pub sent : Outcome → List Message
sent panic = []
sent (done s r es) = broadcasts es

-- A peer applies the messages that reach it.
unfoldable pub receive : Codec → State → List Message → State
receive c s [] = s
receive c s (m ∷ ms) = receive c (after s (apply_sync c m.cmd s m.args)) ms

-- A handler is replicated if a peer in the same state that receives what the call broadcasts comes
-- to the state after the call.
abbrev pub IsReplicated : Codec → (State → List String → Outcome) → Type 0
IsReplicated c h =
    (s : State) (args : List String) → receive c s (sent (h s args)) ≡ after s (h s args)

module _ (c : Codec) where
  create_user-IsReplicated : IsReplicated c create_user
  unfolding create_user receive apply_sync sync_create_user lookup
  create_user-IsReplicated s (user ∷ pass ∷ rest) = ground arith
  create_user-IsReplicated s _ = refl

  create_group-IsReplicated : IsReplicated c create_group
  unfolding create_group receive apply_sync sync_create_group lookup
  create_group-IsReplicated s (g ∷ user ∷ rest) = ground arith
  create_group-IsReplicated s _ = refl

  join_group-IsReplicated : IsReplicated c join_group
  unfolding join_group receive apply_sync sync_join_group lookup
  join_group-IsReplicated s (g ∷ user ∷ rest) = ground arith
  join_group-IsReplicated s _ = refl

  accept_request-IsReplicated : IsReplicated c accept_request
  unfolding accept_request receive apply_sync sync_accept_request lookup
  accept_request-IsReplicated s (g ∷ owner ∷ user ∷ rest) = ground arith
  accept_request-IsReplicated s _ = refl

  leave_group-IsReplicated : IsReplicated c leave_group
  unfolding leave_group receive apply_sync sync_leave_group lookup
  leave_group-IsReplicated s (g ∷ user ∷ rest) = ground arith
  leave_group-IsReplicated s _ = refl

  stop_sharing-IsReplicated : IsReplicated c stop_sharing
  unfolding stop_sharing receive apply_sync sync_stop_sharing lookup
  stop_sharing-IsReplicated s (g ∷ name ∷ user ∷ rest) = ground arith
  stop_sharing-IsReplicated s _ = refl

  add_seeder-IsReplicated : IsReplicated c add_seeder
  unfolding add_seeder receive apply_sync sync_add_seeder lookup
  add_seeder-IsReplicated s (g ∷ name ∷ user ∷ rest) = ground arith
  add_seeder-IsReplicated s _ = refl

  -- An upload with six arguments or more reaches the peer: in the same state before, the peer that
  -- receives what the call broadcasts comes to the state after the call.
  pub upload_file-replicated :
      (s : State) (name g user size hash json : String) (rest : List String)
      → let args = name ∷ g ∷ user ∷ size ∷ hash ∷ json ∷ rest in
        receive c s (sent (upload_file c s args)) ≡ after s (upload_file c s args)
  unfolding upload_file receive apply_sync sync_upload_file lookup
  upload_file-replicated s name g user size hash json rest = ground arith

  -- What a tracker broadcasts carries the whole change: for each of these seven commands, with any
  -- arguments and on every branch, a peer in the same state that applies the messages sent comes to
  -- the state after the call.
  pub handlers-IsReplicated :
      IsReplicated c create_user
      × IsReplicated c create_group
      × IsReplicated c join_group
      × IsReplicated c accept_request
      × IsReplicated c leave_group
      × IsReplicated c stop_sharing
      × IsReplicated c add_seeder
  handlers-IsReplicated = (
    create_user-IsReplicated, create_group-IsReplicated, join_group-IsReplicated,
    accept_request-IsReplicated, leave_group-IsReplicated, stop_sharing-IsReplicated,
    add_seeder-IsReplicated,
  )
