-- ===== src/Tracker/Valid/Handlers.antt =====
-- Each handler keeps the invariant.
use p2p_file_sharing.Base.{
  String, ◌≡◌, refl, ◌≢◌, inl, inr, List, [], ◌∷◌, some, arith, Bool, true, false, if◌then◌else◌,
  Bool-cases, Option-cases, str_eq,
}
use p2p_file_sharing.Base.Map.{Map, lookup, insert, delete, insert-ne-nil, get_flag}
use p2p_file_sharing.Tracker.State.{File, State, Outcome, after, Codec}
use p2p_file_sharing.Tracker.Accounts.{new_user, create_user, login, update_address}
use p2p_file_sharing.Tracker.Groups.{
  new_group, with_pending, with_member, without_member, create_group, join_group, accept_request,
  list_requests, list_groups, leave_group,
}
use p2p_file_sharing.Tracker.Files.{
  file_key, ChunkArgs, invalid, chunk_args, new_file, store_upload, upload_file, list_files,
  find_file_info, get_file_info, put_or_drop, with_owner, stop_sharing, add_seeder,
  upload_or_refuse,
}
use p2p_file_sharing.Tracker.Valid.{
  IsValid, KeepsValid, FileIsValid, put_user-IsValid, put_group-IsValid, put_file-IsValid,
  drop_file-IsValid,
}

pub create_user-IsValid : KeepsValid create_user
unfolding create_user
create_user-IsValid s (user ∷ pass ∷ rest) v = elim (Option-cases (lookup user s.users)) [
  | inl e ↦ rw (e, create_user) (put_user-IsValid s v user (new_user user pass) refl)
  | inr (u, e) ↦ rw (e, create_user) v
]
create_user-IsValid s _ v = v

pub login-IsValid : KeepsValid login
unfolding login
login-IsValid s (user ∷ pass ∷ addr ∷ rest) v = elim (Option-cases (lookup user s.users)) [
  | inl e ↦ rw (e, login) v
  | inr (u, e) ↦
      let entered =
        put_user-IsValid s v user (record u { logged_in = true; addr = addr })
          (v.users_keyed user u e) in
      elim (Bool-cases (str_eq u.password pass)) [
        | inl t ↦ rw (e, login, t) entered
        | inr t ↦ rw (e, login, t) v
      ]
]
login-IsValid s _ v = v

branch-IsValid :
    (s : State) (b : Bool) (x y : Outcome)
    → IsValid (after s x)
    → IsValid (after s y)
    → IsValid (after s (if b then x else y))
branch-IsValid s true x y p q = p
branch-IsValid s false x y p q = q

pub update_address-IsValid : KeepsValid update_address
unfolding update_address
update_address-IsValid s (user ∷ addr ∷ rest) v = elim (Option-cases (lookup user s.users)) [
  | inl e ↦ rw (e, update_address) v
  | inr (u, e) ↦
      let moved = put_user-IsValid s v user (record u { addr = addr }) (v.users_keyed user u e) in
      rw (e, update_address) (branch-IsValid s u.logged_in _ _ moved v)
]
update_address-IsValid s _ v = v

pub create_group-IsValid : KeepsValid create_group
unfolding create_group
create_group-IsValid s (g ∷ user ∷ rest) v = elim (Option-cases (lookup g s.groups)) [
  | inl e ↦ rw (e, create_group) (put_group-IsValid s v g (new_group g user) refl)
  | inr (_, e) ↦ rw (e, create_group) v
]
create_group-IsValid s _ v = v

pub join_group-IsValid : KeepsValid join_group
unfolding join_group
join_group-IsValid s (g ∷ user ∷ rest) v = elim (Option-cases (lookup g s.groups)) [
  | inl e ↦ rw (e, join_group) v
  | inr (x, e) ↦
      rw (e, join_group) (put_group-IsValid s v g (with_pending x user) (v.groups_keyed g x e))
]
join_group-IsValid s _ v = v

pub accept_request-IsValid : KeepsValid accept_request
unfolding accept_request
accept_request-IsValid s (g ∷ owner ∷ user ∷ rest) v = elim (Option-cases (lookup g s.groups)) [
  | inl e ↦ rw (e, accept_request) v
  | inr (x, e) ↦
      let joined = put_group-IsValid s v g (with_member x user) (v.groups_keyed g x e) in
      elim (Bool-cases (str_eq x.owner owner)) [
        | inl t ↦ rw (e, accept_request, t) joined
        | inr t ↦ rw (e, accept_request, t) v
      ]
]
accept_request-IsValid s _ v = v

pub leave_group-IsValid : KeepsValid leave_group
unfolding leave_group
leave_group-IsValid s (g ∷ user ∷ rest) v = elim (Option-cases (lookup g s.groups)) [
  | inl e ↦ rw (e, leave_group) v
  | inr (x, e) ↦
      let left = put_group-IsValid s v g (without_member x user) (v.groups_keyed g x e) in
      elim (Bool-cases (str_eq x.owner user)) [
        | inl t ↦ rw (e, leave_group, t) v
        | inr t ↦ elim (Bool-cases (get_flag user x.members)) [
          | inl m ↦ rw (e, leave_group, t, m) left
          | inr m ↦ rw (e, leave_group, t, m) v
        ]
      ]
]
leave_group-IsValid s _ v = v

store_upload-IsValid :
    (c : Codec) (s : State) (a : ChunkArgs) (name g user size : String) (args : List String)
    → IsValid s
    → IsValid (after s (store_upload c s a name g user size args))
unfolding store_upload
store_upload-IsValid c s a name g user size args v = elim (Option-cases (lookup g s.groups)) [
  | inl e ↦ rw (e, store_upload) v
  | inr (x, e) ↦ elim (Bool-cases (get_flag user x.members)) [
    | inr m ↦ rw (e, store_upload, m) v
    | inl m ↦ elim (Option-cases (lookup (file_key g name) s.files)) [
      | inr (_, d) ↦ rw (e, store_upload, m, d) v
      | inl d ↦
          rw (e, store_upload, m, d)
            (put_file-IsValid s v (file_key g name) (new_file c a name g user size)
              (record { keyed = refl; counted = refl; owned = λ h. cc; grouped = λ h. cc }))
    ]
  ]
]

upload_or_refuse-IsValid :
    (c : Codec) (s : State) (a : ChunkArgs) (name g user size : String) (args : List String)
    → IsValid s
    → IsValid (after s (upload_or_refuse c s a name g user size args))
upload_or_refuse-IsValid c s invalid name g user size args v = v
upload_or_refuse-IsValid c s a name g user size args v =
    store_upload-IsValid c s a name g user size args v

pub upload_file-IsValid : (c : Codec) → KeepsValid (upload_file c)
unfolding upload_file
upload_file-IsValid c s (name ∷ g ∷ user ∷ size ∷ rest) v =
    upload_or_refuse-IsValid c s (chunk_args c rest) name g user size
      (name ∷ g ∷ user ∷ size ∷ rest) v
upload_file-IsValid c s _ v = v

module _ (s : State) (v : IsValid s) (k : String) (f : File) (e : lookup k s.files ≡ some f) where
  -- The owners of a stored file may change as long as one is left.
  owners_changed : (m : Map Bool) → m ≢ [] → FileIsValid s.groups k (record f { owners = m })
  owners_changed m h =
      let p = v.files_valid k f e in
      record { keyed = p.keyed; counted = p.counted; owned = h; grouped = p.grouped }

  put_or_drop-IsValid : (m : Map Bool) → IsValid (put_or_drop s k (record f { owners = m }) m)
  put_or_drop-IsValid [] = drop_file-IsValid s v k
  put_or_drop-IsValid (x ∷ m) =
      put_file-IsValid s v k (record f { owners = x ∷ m }) (owners_changed (x ∷ m) (λ h. cc))

pub stop_sharing-IsValid : KeepsValid stop_sharing
unfolding stop_sharing
stop_sharing-IsValid s (g ∷ name ∷ user ∷ rest) v =
    elim (Option-cases (lookup (file_key g name) s.files)) [
      | inl e ↦ rw (e, stop_sharing) v
      | inr (f, e) ↦
          rw (e, stop_sharing)
            (put_or_drop-IsValid s v (file_key g name) f e (delete user f.owners))
    ]
stop_sharing-IsValid s _ v = v

pub put_owner-IsValid :
    (s : State) (k : String) (f : File) (user : String)
    → IsValid s
    → lookup k s.files ≡ some f
    → IsValid (record s { files = insert k (with_owner f user) s.files })
put_owner-IsValid s k f user v e =
    put_file-IsValid s v k (with_owner f user)
      (owners_changed s v k f e (insert user true f.owners) (insert-ne-nil user true f.owners))

pub add_seeder-IsValid : KeepsValid add_seeder
unfolding add_seeder
add_seeder-IsValid s (g ∷ name ∷ user ∷ rest) v =
    elim (Option-cases (lookup (file_key g name) s.files)) [
      | inl e ↦ rw (e, add_seeder) v
      | inr (f, e) ↦ elim (Option-cases (lookup g s.groups)) [
        | inl n ↦ rw (e, add_seeder, n) v
        | inr (_, n) ↦ rw (e, add_seeder, n) (put_owner-IsValid s (file_key g name) f user v e)
      ]
    ]
add_seeder-IsValid s _ v = v

-- The handlers that only read: they answer with the state that they were given, or panic.
abbrev pub Reads : (State → List String → Outcome) → Type 0
Reads h = (s : State) (args : List String) → after s (h s args) ≡ s

pub list_requests-Reads : Reads list_requests
unfolding list_requests
list_requests-Reads s (g ∷ user ∷ rest) = ground arith
list_requests-Reads s _ = refl

pub list_groups-Reads : Reads list_groups
unfolding list_groups
list_groups-Reads s args = ground arith

pub list_files-Reads : Reads list_files
unfolding list_files
list_files-Reads s (g ∷ rest) = ground arith
list_files-Reads s _ = refl

find_file_info-Reads : (s : State) (g name : String) → after s (find_file_info s g name) ≡ s
unfolding find_file_info
find_file_info-Reads s g name = ground arith

pub get_file_info-Reads : Reads get_file_info
unfolding get_file_info
get_file_info-Reads s (g ∷ name ∷ rest) = ground (arith, find_file_info-Reads s g name)
get_file_info-Reads s _ = refl
