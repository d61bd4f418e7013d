-- ===== src/Tracker/Files.antt =====
-- tracker/handlers.go: the handlers of files.
use Prim.Native.String.{◌++◌ as text_append}
use p2p_file_sharing.Base.{
  ◌*◌, String, Bool, true, not, ◌&&◌, List, [], ◌∷◌, length, none, some, if◌then◌else◌, str_eq,
}
use p2p_file_sharing.Base.Map.{Map, lookup, insert, delete, get_flag}
use p2p_file_sharing.Tracker.State.{
  User, Chunk, File, State, FileSummary, FileInfo, Payload, ok, error, Effect, save, broadcast,
  Outcome, panic, done, Codec,
}

-- `groupID + ":" + fileName`
unfoldable pub file_key : String → String → String
file_key g name = text_append g (text_append ":" name)

-- The optional arguments five and six of `uploadFile`: a file hash and the chunks in JSON.
pub data ChunkArgs : Type 0 where
  absent : ChunkArgs
  invalid : ChunkArgs
  given : String → List Chunk → ChunkArgs

unfoldable pub chunk_args : Codec → List String → ChunkArgs
chunk_args c (hash ∷ json ∷ _) = elim (c.parse_chunks json) [
  | none ↦ invalid
  | some cs ↦ given hash cs
]
chunk_args c _ = absent

-- The values of `fileHash` and `chunks`: empty where they were not given.
abbrev pub arg_hash : ChunkArgs → String
arg_hash (given h cs) = h
arg_hash _ = ""

abbrev pub arg_chunks : ChunkArgs → List Chunk
arg_chunks (given h cs) = cs
arg_chunks _ = []

abbrev pub new_file : Codec → ChunkArgs → String → String → String → String → File
new_file c a name g user size = record {
  file_name = name;
  group_id = g;
  uploader = user;
  file_size = c.scan_size size;
  file_hash = arg_hash a;
  chunk_size = 512 * 1024;
  total_chunks = length (arg_chunks a);
  chunks = arg_chunks a;
  owners = (user, true) ∷ [];
}

abbrev pub receipt : File → Payload
receipt f = Payload.file_uploaded (record {
  file_name = f.file_name;
  group_id = f.group_id;
  file_size = f.file_size;
  uploader = f.uploader;
  hashed = if str_eq f.file_hash "" then none else some (f.file_hash, f.total_chunks);
})

-- The broadcast is sent only if all six arguments are there.
abbrev pub upload_effects : ChunkArgs → List String → List Effect
upload_effects absent args = save ∷ []
upload_effects _ args = broadcast (record { cmd = "sync_upload_file"; args = args }) ∷ save ∷ []

unfoldable pub store_upload :
    Codec → State → ChunkArgs → String → String → String → String → List String → Outcome
store_upload c s a name g user size args = elim (lookup g s.groups) [
  | none ↦ done s (error "group not found") []
  | some grp ↦
      if not (get_flag user grp.members)
      then done s (error "not a member") []
      else elim (lookup (file_key g name) s.files) [
        | some _ ↦ done s (error "file already exists in group") []
        | none ↦
            let f = new_file c a name g user size in
            done (record s { files = insert (file_key g name) f s.files }) (ok (receipt f))
              (upload_effects a args)
      ]
]

abbrev pub upload_or_refuse :
    Codec → State → ChunkArgs → String → String → String → String → List String → Outcome
upload_or_refuse c s invalid name g user size args = done s (error "invalid chunk data") []
upload_or_refuse c s a name g user size args = store_upload c s a name g user size args

unfoldable pub upload_file : Codec → State → List String → Outcome
unfolding store_upload chunk_args
upload_file c s (name ∷ g ∷ user ∷ size ∷ rest) =
    upload_or_refuse c s (chunk_args c rest) name g user size (name ∷ g ∷ user ∷ size ∷ rest)
upload_file c s _ = panic

abbrev summary : File → FileSummary
summary f = record { file_name = f.file_name; file_size = f.file_size; uploader = f.uploader }

-- The loop of `listFiles`.
unfoldable pub group_files : String → Map File → List FileSummary
group_files g [] = []
group_files g ((_, f) ∷ m) =
    let rest = group_files g m in if str_eq f.group_id g then summary f ∷ rest else rest

abbrev listing : List FileSummary → Payload
listing [] = Payload.text "no files in group"
listing fs = Payload.file_list fs

-- `requestingUser`: the optional second argument.
abbrev requester : List String → String
requester [] = ""
requester (u ∷ _) = u

unfoldable pub list_files : State → List String → Outcome
unfolding group_files
list_files s (g ∷ rest) = elim (lookup g s.groups) [
  | none ↦ done s (error "group not found") []
  | some grp ↦
      let user = requester rest in
      if not (str_eq user "") && not (get_flag user grp.members)
      then done s (error "not a member of this group") []
      else done s (ok (listing (group_files g s.files))) []
]
list_files s _ = panic

-- The addresses of the owners that are logged in.
unfoldable pub get_peer_addresses : Map User → Map Bool → List String
get_peer_addresses users [] = []
get_peer_addresses users ((id, _) ∷ owners) =
    let rest = get_peer_addresses users owners in
    elim (lookup id users) [ none ↦ rest | some u ↦ if u.logged_in then u.addr ∷ rest else rest ]

abbrev info : File → List String → FileInfo
info f peers = record {
  file_name = f.file_name;
  file_hash = f.file_hash;
  file_size = f.file_size;
  chunk_size = f.chunk_size;
  total_chunks = f.total_chunks;
  chunks = f.chunks;
  peers = peers;
}

-- The part of `getFileInfo` behind the membership check.
unfoldable pub find_file_info : State → String → String → Outcome
unfolding get_peer_addresses
find_file_info s g name = elim (lookup (file_key g name) s.files) [
  | none ↦ done s (error "file not found") []
  | some f ↦ done s (ok (Payload.file_info (info f (get_peer_addresses s.users f.owners)))) []
]

unfoldable pub get_file_info : State → List String → Outcome
unfolding find_file_info
get_file_info s (g ∷ name ∷ rest) =
    let user = requester rest in
    if str_eq user "" then find_file_info s g name else elim (lookup g s.groups) [
      | none ↦ done s (error "group not found") []
      | some grp ↦
          if get_flag user grp.members
          then find_file_info s g name
          else done s (error "not a member of this group") []
    ]
get_file_info s _ = panic

abbrev pub without_owner : File → String → File
without_owner f user = record f { owners = delete user f.owners }

-- The file stays while it has an owner left.
abbrev pub put_or_drop : State → String → File → Map Bool → State
put_or_drop s k f [] = record s { files = delete k s.files }
put_or_drop s k f (_ ∷ _) = record s { files = insert k f s.files }

abbrev pub stop_reply : Map Bool → Payload
stop_reply [] = Payload.text "file removed from tracker (no owners)"
stop_reply (_ ∷ _) = Payload.text "stopped sharing"

unfoldable pub stop_sharing : State → List String → Outcome
stop_sharing s (g ∷ name ∷ user ∷ rest) =
    let k = file_key g name in
    elim (lookup k s.files) [
      | none ↦ done s (error "file not found") []
      | some f ↦
          let f' = without_owner f user in
          done (put_or_drop s k f' f'.owners) (ok (stop_reply f'.owners))
            (broadcast (record { cmd = "sync_stop_sharing"; args = g ∷ name ∷ user ∷ rest }) ∷ [])
    ]
stop_sharing s _ = panic

abbrev pub with_owner : File → String → File
with_owner f user = record f { owners = insert user true f.owners }

unfoldable pub add_seeder : State → List String → Outcome
add_seeder s (g ∷ name ∷ user ∷ rest) =
    let k = file_key g name in
    elim (lookup k s.files) [
      | none ↦ done s (error "file not found") []
      | some f ↦ elim (lookup g s.groups) [
        | none ↦ done s (error "group not found") []
        | some _ ↦
            done (record s { files = insert k (with_owner f user) s.files })
              (ok (Payload.text "registered as seeder"))
              (broadcast (record { cmd = "sync_add_seeder"; args = g ∷ name ∷ user ∷ rest })
                ∷ save
                ∷ [])
      ]
    ]
add_seeder s _ = done s (error "add_seeder: need groupID, fileName, userID") []
