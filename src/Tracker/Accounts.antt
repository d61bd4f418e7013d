-- ===== src/Tracker/Accounts.antt =====
-- tracker/handlers.go: `createUser`, `login` and `updateAddress`.
use p2p_file_sharing.Base.{String, true, false, List, [], ◌∷◌, none, some, if◌then◌else◌, str_eq}
use p2p_file_sharing.Base.Map.{lookup, insert}
use p2p_file_sharing.Tracker.State.{
  User, State, Payload, ok, error, save, broadcast, Outcome, panic, done,
}

abbrev pub new_user : String → String → User
new_user user pass = record { user_id = user; password = pass; logged_in = false; addr = "" }

unfoldable pub create_user : State → List String → Outcome
create_user s (user ∷ pass ∷ _) = elim (lookup user s.users) [
  | some _ ↦ done s (error "user exists") []
  | none ↦
      done (record s { users = insert user (new_user user pass) s.users })
        (ok (Payload.text "user created"))
        (save ∷ broadcast (record { cmd = "sync_create_user"; args = user ∷ pass ∷ [] }) ∷ [])
]
create_user s _ = panic

unfoldable pub login : State → List String → Outcome
login s (user ∷ pass ∷ addr ∷ _) = elim (lookup user s.users) [
  | none ↦ done s (error "invalid credentials") []
  | some u ↦
      if str_eq u.password pass
      then done
          (record s { users = insert user (record u { logged_in = true; addr = addr }) s.users })
          (ok (Payload.text "logged in")) (save ∷ [])
      else done s (error "invalid credentials") []
]
login s _ = panic

unfoldable pub update_address : State → List String → Outcome
update_address s (user ∷ addr ∷ _) = elim (lookup user s.users) [
  | none ↦ done s (error "user not found") []
  | some u ↦
      if u.logged_in
      then done (record s { users = insert user (record u { addr = addr }) s.users })
          (ok (Payload.text "address updated")) (save ∷ [])
      else done s (error "user not logged in") []
]
update_address s _ = panic
