-- ===== src/Tracker/Membership.antt =====
-- How a user becomes a member of a group.
use p2p_file_sharing.Base.{
  String, ◌≡◌, refl, ◌⊎◌, inl, inr, List, ◌∷◌, none, some, arith, true, Option-cases, str_eq,
  eq_iff, if◌then◌else◌, String-cases,
}
use p2p_file_sharing.Base.Map.{
  ◌&◌, Rows, Rows-Every, lookup, get_flag, get_flag-insert, get_flag-delete, lookup-insert,
}
use p2p_file_sharing.Tracker.State.{State, Group, Outcome, after, Codec}
use p2p_file_sharing.Tracker.Accounts.{create_user, login, update_address}
use p2p_file_sharing.Tracker.Groups.{
  create_group, join_group, accept_request, list_requests, list_groups, leave_group, new_group,
  with_member, with_pending, without_member, put_group,
}
use p2p_file_sharing.Tracker.Files.{
  upload_file, list_files, get_file_info, stop_sharing, add_seeder,
}
use p2p_file_sharing.Tracker.Access.{is_member}
use p2p_file_sharing.Tracker.Server.{client_routes}
use p2p_file_sharing.Tracker.Untouched.{
  KeepsGroups, create_user-KeepsGroups, login-KeepsGroups, update_address-KeepsGroups,
  list_requests-KeepsGroups, list_groups-KeepsGroups, list_files-KeepsGroups,
  get_file_info-KeepsGroups, upload_file-KeepsGroups, stop_sharing-KeepsGroups,
  add_seeder-KeepsGroups,
}

-- The two ways in: to create the group, or to be accepted by its owner.
pub data Admitted (s : State) (cmd : String) (args : List String) (g user : String) : Type 0 where
  founded :
      (rest : List String)
      → cmd ≡ "create_group"
      → args ≡ g ∷ user ∷ rest
      → lookup g s.groups ≡ none
      → Admitted s cmd args g user
  accepted :
      (x : Group) (rest : List String)
      → cmd ≡ "accept_requests"
      → args ≡ g ∷ x.owner ∷ user ∷ rest
      → lookup g s.groups ≡ some x
      → Admitted s cmd args g user

abbrev Admits : String → (State → List String → Outcome) → Type 0
Admits cmd h =
    (s : State) (args : List String) (g user : String)
    → is_member (after s (h s args)) g user ≡ true
    → (is_member s g user ≡ true) ⊎ Admitted s cmd args g user

KeepsGroups-Admits :
    (cmd : String) (h : State → List String → Outcome) → KeepsGroups h → Admits cmd h
KeepsGroups-Admits cmd h k s args g user m = inl (ground (arith, k s args))

is_member-put_group :
    (s : State) (k : String) (x : Group) (j u : String)
    → is_member (put_group s k x) j u
      ≡ (if str_eq k j then get_flag u x.members else is_member s j u)
is_member-put_group s k x j u = ground (arith, lookup-insert k j x s.groups)

create_group-Admits : Admits "create_group" create_group
unfolding create_group get_flag lookup
create_group-Admits s (g ∷ user ∷ rest) j u m = elim (Option-cases (lookup g s.groups)) [
  | inr (x, e) ↦ inl (ground arith)
  | inl e ↦ elim (String-cases g j) [
    | inr (_, t) ↦ inl (ground (arith, is_member-put_group s g (new_group g user) j u))
    | inl (p, t) ↦ elim (String-cases user u) [
      | inl (q, r) ↦ inr (founded rest refl (cc) (rw (← p) e))
      | inr (_, r) ↦ absurd (ground (arith, is_member-put_group s g (new_group g user) j u))
    ]
  ]
]
create_group-Admits s _ g user m = inl m

join_group-Admits : Admits "join_group" join_group
unfolding join_group
join_group-Admits s (g ∷ user ∷ rest) j u m = elim (Option-cases (lookup g s.groups)) [
  | inl e ↦ inl (ground arith)
  | inr (x, e) ↦ inl (ground (arith, is_member-put_group s g (with_pending x user) j u, eq_iff g j))
]
join_group-Admits s _ g user m = inl m

accept_request-Admits : Admits "accept_requests" accept_request
unfolding accept_request
accept_request-Admits s (g ∷ owner ∷ user ∷ rest) j u m = elim (Option-cases (lookup g s.groups)) [
  | inl e ↦ inl (ground arith)
  | inr (x, e) ↦
      let put = is_member-put_group s g (with_member x user) j u in
      let flag = get_flag-insert user u true x.members in
      elim (String-cases x.owner owner) [
        | inr (_, f) ↦ inl (ground arith)
        | inl (o, f) ↦ elim (String-cases g j) [
          | inr (_, t) ↦ inl (ground arith)
          | inl (p, t) ↦ elim (String-cases user u) [
            | inl (q, r) ↦ inr (accepted x rest refl (cc) (rw (← p) e))
            | inr (_, r) ↦ inl (ground arith)
          ]
        ]
      ]
]
accept_request-Admits s _ g user m = inl m

leave_group-Admits : Admits "leave_group" leave_group
unfolding leave_group
leave_group-Admits s (g ∷ user ∷ rest) j u m = elim (Option-cases (lookup g s.groups)) [
  | inl e ↦ inl (ground arith)
  | inr (x, e) ↦ inl (
      ground (
        arith,
        is_member-put_group s g (without_member x user) j u,
        get_flag-delete user u x.members,
        eq_iff g j,
      ))
]
leave_group-Admits s _ g user m = inl m

client-Rows : (c : Codec) → Rows Admits (client_routes c)
client-Rows c =
    KeepsGroups-Admits "create_user" create_user create_user-KeepsGroups
    & KeepsGroups-Admits "login" login login-KeepsGroups
    & KeepsGroups-Admits "update_address" update_address update_address-KeepsGroups
    & create_group-Admits
    & KeepsGroups-Admits "list_requests" list_requests list_requests-KeepsGroups
    & accept_request-Admits
    & join_group-Admits
    & KeepsGroups-Admits "upload_file" (upload_file c) (upload_file-KeepsGroups c)
    & KeepsGroups-Admits "list_files" list_files list_files-KeepsGroups
    & KeepsGroups-Admits "get_file_info" get_file_info get_file_info-KeepsGroups
    & KeepsGroups-Admits "list_groups" list_groups list_groups-KeepsGroups
    & KeepsGroups-Admits "stop_sharing" stop_sharing stop_sharing-KeepsGroups
    & leave_group-Admits
    & KeepsGroups-Admits "add_seeder" add_seeder add_seeder-KeepsGroups
    & tt

-- Whatever client command a tracker executes: a user who is a member of a group afterwards was one
-- before, or has just created the group, or was accepted by a command that names the group's owner.
pub client_routes-Admits :
    (c : Codec) (cmd : String) (h : State → List String → Outcome)
    → lookup cmd (client_routes c) ≡ some h
    → (s : State) (args : List String) (g user : String)
    → is_member (after s (h s args)) g user ≡ true
    → (is_member s g user ≡ true) ⊎ Admitted s cmd args g user
client_routes-Admits c cmd h e = Rows-Every Admits (client_routes c) (client-Rows c) cmd h e
