-- ===== src/Tracker/Access.antt =====
-- Who may do what: the checks of the handlers, on every branch.
use p2p_file_sharing.Base.{
  String, ◌≡◌, ◌≢◌, List, ◌∷◌, none, some, Option, arith, Bool, true, false, eq_iff,
}
use p2p_file_sharing.Base.Map.{lookup, get_flag}
use p2p_file_sharing.Tracker.State.{State, Payload, ok, Response, Outcome, panic, done, Codec}
use p2p_file_sharing.Tracker.Files.{
  file_key, upload_file, chunk_args, ChunkArgs, invalid, store_upload, upload_or_refuse, list_files,
  get_file_info,
}

-- Whether a user is a member of a group that exists.
abbrev pub is_member : State → String → String → Bool
is_member s g user = elim (lookup g s.groups) [ none ↦ false | some x ↦ get_flag user x.members ]

-- The response of a call, if it returns.
abbrev pub answer : Outcome → Option Response
answer panic = none
answer (done s r es) = some r

-- A file's data is given to a named user only if that user is a member of the group: whatever the
-- handler answers with status "ok", the user was a member.
pub get_file_info-is_member :
    (s : State) (g name user : String) (rest : List String) (p : Payload)
    → user ≢ ""
    → answer (get_file_info s (g ∷ name ∷ user ∷ rest)) ≡ some (ok p)
    → is_member s g user ≡ true
unfolding get_file_info
get_file_info-is_member s g name user rest p h e =
    ground (arith, eq_iff user "", eq_iff "error" "ok")

-- So are the names of a group's files.
pub list_files-is_member :
    (s : State) (g user : String) (rest : List String) (p : Payload)
    → user ≢ ""
    → answer (list_files s (g ∷ user ∷ rest)) ≡ some (ok p)
    → is_member s g user ≡ true
unfolding list_files
list_files-is_member s g user rest p h e = ground (arith, eq_iff user "", eq_iff "error" "ok")

store_upload-is_member :
    (c : Codec) (s : State) (a : ChunkArgs) (name g user size : String) (args : List String)
    (p : Payload)
    → answer (store_upload c s a name g user size args) ≡ some (ok p)
    → (is_member s g user ≡ true) × (lookup (file_key g name) s.files ≡ none)
unfolding store_upload
store_upload-is_member c s a name g user size args p e = ground (arith, eq_iff "error" "ok")

upload_or_refuse-is_member :
    (c : Codec) (s : State) (a : ChunkArgs) (name g user size : String) (args : List String)
    (p : Payload)
    → answer (upload_or_refuse c s a name g user size args) ≡ some (ok p)
    → (is_member s g user ≡ true) × (lookup (file_key g name) s.files ≡ none)
upload_or_refuse-is_member c s invalid name g user size args p e =
    ground (arith, eq_iff "error" "ok")
upload_or_refuse-is_member c s a name g user size args p e =
    store_upload-is_member c s a name g user size args p e

-- An upload is accepted only from a member of the group, and only under a name that is free there.
pub upload_file-is_member :
    (c : Codec) (s : State) (name g user size : String) (rest : List String) (p : Payload)
    → answer (upload_file c s (name ∷ g ∷ user ∷ size ∷ rest)) ≡ some (ok p)
    → (is_member s g user ≡ true) × (lookup (file_key g name) s.files ≡ none)
unfolding upload_file
upload_file-is_member c s name g user size rest p e =
    upload_or_refuse-is_member c s (chunk_args c rest) name g user size
      (name ∷ g ∷ user ∷ size ∷ rest) p e
