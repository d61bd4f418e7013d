-- ===== src/Tracker/Untouched.antt =====
-- The handlers that leave the groups alone.
use p2p_file_sharing.Base.{String, ◌≡◌, refl, List, ◌∷◌, arith}
use p2p_file_sharing.Tracker.State.{State, Outcome, after, Codec}
use p2p_file_sharing.Tracker.Accounts.{create_user, login, update_address}
use p2p_file_sharing.Tracker.Groups.{list_requests, list_groups}
use p2p_file_sharing.Tracker.Files.{
  upload_file, list_files, get_file_info, stop_sharing, add_seeder, store_upload, upload_or_refuse,
  ChunkArgs, invalid, chunk_args, find_file_info,
}

-- A handler that leaves the groups alone.
abbrev pub KeepsGroups : (State → List String → Outcome) → Type 0
KeepsGroups h = (s : State) (args : List String) → (after s (h s args)).groups ≡ s.groups

pub create_user-KeepsGroups : KeepsGroups create_user
unfolding create_user
create_user-KeepsGroups s (user ∷ pass ∷ rest) = ground arith
create_user-KeepsGroups s _ = refl

pub login-KeepsGroups : KeepsGroups login
unfolding login
login-KeepsGroups s (user ∷ pass ∷ addr ∷ rest) = ground arith
login-KeepsGroups s _ = refl

pub update_address-KeepsGroups : KeepsGroups update_address
unfolding update_address
update_address-KeepsGroups s (user ∷ addr ∷ rest) = ground arith
update_address-KeepsGroups s _ = refl

pub list_requests-KeepsGroups : KeepsGroups list_requests
unfolding list_requests
list_requests-KeepsGroups s (g ∷ user ∷ rest) = ground arith
list_requests-KeepsGroups s _ = refl

pub list_groups-KeepsGroups : KeepsGroups list_groups
unfolding list_groups
list_groups-KeepsGroups s args = ground arith

pub list_files-KeepsGroups : KeepsGroups list_files
unfolding list_files
list_files-KeepsGroups s (g ∷ rest) = ground arith
list_files-KeepsGroups s _ = refl

pub get_file_info-KeepsGroups : KeepsGroups get_file_info
unfolding get_file_info find_file_info
get_file_info-KeepsGroups s (g ∷ name ∷ rest) = ground arith
get_file_info-KeepsGroups s _ = refl

pub upload_or_refuse-KeepsGroups :
    (c : Codec) (s : State) (a : ChunkArgs) (name g user size : String) (args : List String)
    → (after s (upload_or_refuse c s a name g user size args)).groups ≡ s.groups
unfolding store_upload
upload_or_refuse-KeepsGroups c s invalid name g user size args = refl
upload_or_refuse-KeepsGroups c s a name g user size args = ground arith

pub upload_file-KeepsGroups : (c : Codec) → KeepsGroups (upload_file c)
unfolding upload_file
upload_file-KeepsGroups c s (name ∷ g ∷ user ∷ size ∷ rest) =
    upload_or_refuse-KeepsGroups c s (chunk_args c rest) name g user size
      (name ∷ g ∷ user ∷ size ∷ rest)
upload_file-KeepsGroups c s _ = refl

pub stop_sharing-KeepsGroups : KeepsGroups stop_sharing
unfolding stop_sharing
stop_sharing-KeepsGroups s (g ∷ name ∷ user ∷ rest) = ground arith
stop_sharing-KeepsGroups s _ = refl

pub add_seeder-KeepsGroups : KeepsGroups add_seeder
unfolding add_seeder
add_seeder-KeepsGroups s (g ∷ name ∷ user ∷ rest) = ground arith
add_seeder-KeepsGroups s _ = refl
