-- ===== src/Tracker/Groups.antt =====
-- tracker/handlers.go: the handlers of groups.
use p2p_file_sharing.Base.{String, true, List, [], ◌∷◌, none, some, if◌then◌else◌, str_eq}
use p2p_file_sharing.Base.Map.{lookup, insert, delete, keys, get_flag}
use p2p_file_sharing.Tracker.State.{
  Group, State, Payload, ok, error, save, broadcast, Outcome, panic, done,
}

abbrev pub new_group : String → String → Group
new_group g user = record { group_id = g; owner = user; members = (user, true) ∷ []; pending = [] }

abbrev pub put_group : State → String → Group → State
put_group s k g = record s { groups = insert k g s.groups }

unfoldable pub create_group : State → List String → Outcome
create_group s (g ∷ user ∷ _) = elim (lookup g s.groups) [
  | some _ ↦ done s (error "group exists") []
  | none ↦
      done (put_group s g (new_group g user)) (ok (Payload.group_created g user))
        (save ∷ broadcast (record { cmd = "sync_create_group"; args = g ∷ user ∷ [] }) ∷ [])
]
create_group s _ = panic

abbrev pub with_pending : Group → String → Group
with_pending g user = record g { pending = insert user true g.pending }

unfoldable pub join_group : State → List String → Outcome
join_group s (g ∷ user ∷ _) = elim (lookup g s.groups) [
  | none ↦ done s (error "group not found") []
  | some grp ↦
      done (put_group s g (with_pending grp user)) (ok (Payload.text "request sent to the group"))
        (broadcast (record { cmd = "sync_join_group"; args = g ∷ user ∷ [] }) ∷ [])
]
join_group s _ = panic

abbrev pub with_member : Group → String → Group
with_member g user = record g {
  pending = delete user g.pending;
  members = insert user true g.members;
}

-- `groups[groupID]` is nil for an unknown group, and `g.Owner` of it panics.
unfoldable pub accept_request : State → List String → Outcome
accept_request s (g ∷ owner ∷ user ∷ _) = elim (lookup g s.groups) [
  | none ↦ panic
  | some grp ↦
      if str_eq grp.owner owner
      then done (put_group s g (with_member grp user))
          (ok (Payload.text "request accepted successfully"))
          (broadcast (record { cmd = "sync_accept_request"; args = g ∷ user ∷ [] }) ∷ [])
      else done s (error "not owner") []
]
accept_request s _ = panic

unfoldable pub list_requests : State → List String → Outcome
list_requests s (g ∷ user ∷ _) = elim (lookup g s.groups) [
  | none ↦ panic
  | some grp ↦
      if str_eq grp.owner user
      then done s (ok (Payload.names (keys grp.pending))) []
      else done s (error "not owner") []
]
list_requests s _ = panic

unfoldable pub list_groups : State → List String → Outcome
list_groups s _ = elim s.groups [
  | [] ↦ done s (ok (Payload.text "no groups found")) []
  | _ ∷ _ ↦ done s (ok (Payload.names (keys s.groups))) []
]

abbrev pub without_member : Group → String → Group
without_member g user = record g { members = delete user g.members }

unfoldable pub leave_group : State → List String → Outcome
leave_group s (g ∷ user ∷ rest) = elim (lookup g s.groups) [
  | none ↦ done s (error "group not found") []
  | some grp ↦
      if str_eq grp.owner user
      then done s (error "owner cannot leave the group") []
      else if get_flag user grp.members
      then done (put_group s g (without_member grp user)) (ok (Payload.text "left group"))
          (broadcast (record { cmd = "sync_leave_group"; args = g ∷ user ∷ rest }) ∷ save ∷ [])
      else done s (error "not a member") []
]
leave_group s _ = done s (error "leave_group: need groupID, userID") []
