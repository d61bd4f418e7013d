-- ===== src/Client/Commands.antt =====
-- client/main.go and client/session.go: one run of the client, from the command line to what it
-- leaves in its session file, on its disk and at the tracker. What it prints is left out. JSON, the
-- text of a number, the last part of a path, reading a file and the start of a process are
-- parameters.
pub mod Shared
pub mod Answered
use Prim.Native.String.{◌++◌ as text_append}
use p2p_file_sharing.Base.{
  ℕ, String, Bool, true, false, List, [], ◌∷◌, Option, none, some, if◌then◌else◌, str_eq,
}
use p2p_file_sharing.Base.Map.{Map, lookup}
use p2p_file_sharing.Tracker.State.{Message, Payload, Response}
use p2p_file_sharing.Client.Chunk.{Bytes, ChunkInfo, ChunkMetadata, Disk, chunk_file, save_chunks}
use p2p_file_sharing.Client.Peer.{Network}
use p2p_file_sharing.Client.Download.{FileInfo, Ranged, Ending, Downloaded, download_file}

pub record SessionData : Type 0 where
  pub user_id : String
  pub listen_addr : String

-- What outlives a run: the session file, if there is one, the disk, and the tracker.
pub record World (T : Type 0) : Type 0 where
  pub session : Option SessionData
  pub disk : Disk
  pub tracker : T

-- The texts that the client makes, and what it reads of the tracker's answer.
pub record Encoding : Type 0 where
  pub decimal : ℕ → String
  pub chunks_json : List ChunkInfo → String
  pub decode_info : Payload → Option FileInfo

abbrev pub no_session : SessionData
no_session = record { user_id = ""; listen_addr = "" }

-- `LoadSession`
abbrev pub load_session : Option SessionData → SessionData
load_session none = no_session
load_session (some s) = s

unfoldable pub upload_message : Encoding → String → String → ChunkMetadata → Message
upload_message enc group user meta = record {
  cmd = "upload_file";
  args =
      meta.file_name
      ∷ group
      ∷ user
      ∷ enc.decimal meta.file_size
      ∷ meta.file_hash
      ∷ enc.chunks_json meta.chunks
      ∷ [];
}

abbrev pub command : String → List String → Message
command cmd args = record { cmd = cmd; args = args }

-- `queryFileInfo`, from the tracker's answer; none is an error.
unfoldable pub query_file_info : Encoding → Response → Option FileInfo
query_file_info enc resp = if str_eq resp.status "ok" then enc.decode_info resp.payload else none

module _ {T : Type 0} (send : Message → T → Response × T) where
  abbrev pub tell : Message → World T → World T
  tell msg w = record w { tracker = (send msg w.tracker).1 }

  -- A command of a user who is logged in; without one nothing is sent.
  abbrev pub as_user : String → Message → World T → World T
  as_user user msg w = if str_eq user "" then w else tell msg w

  abbrev pub saved_if : Bool → SessionData → World T → World T
  saved_if false s w = w
  saved_if true s w = record w { session = some s }

  -- `login` with its arguments given; the session is saved once the peer server is started.
  unfoldable pub login_command : Bool → SessionData → String → String → World T → World T
  login_command started s name pass w =
      let (resp, after) = send (command "login" (name ∷ pass ∷ "" ∷ [])) w.tracker in
      saved_if (if str_eq resp.status "ok" then started else false)
        (record { user_id = name; listen_addr = s.listen_addr }) (record w { tracker = after })

  -- `peer_daemon`, with the address that the peer server listens at, if it starts.
  unfoldable pub daemon_command : Option String → SessionData → World T → World T
  daemon_command none s w = w
  daemon_command (some addr) s w =
      if str_eq s.user_id ""
      then w
      else record (tell (command "update_address" (s.user_id ∷ text_append "127.0.0.1" addr ∷ []))
          w) { session = some record { user_id = s.user_id; listen_addr = addr } }

  module _ (sha : Bytes → String) (enc : Encoding) where
    abbrev pub share : Option ChunkMetadata → Bytes → String → String → World T → World T
    share none bytes group user w = w
    share (some meta) bytes group user w =
        tell (upload_message enc group user meta)
          (record w { disk = save_chunks w.disk bytes meta })

    -- `upload_file`, of a file with the name and the bytes, if it can be read.
    unfoldable pub upload_command :
        SessionData → Option (String × Bytes) → String → World T → World T
    unfolding chunk_file upload_message save_chunks
    upload_command s none group w = w
    upload_command s (some (name, bytes)) group w =
        share (chunk_file sha name bytes) bytes group s.user_id w

    module _ (net : Network) (ranged : Ranged) (rarest : Bool) where
      -- Once the download is over, the user becomes a seeder; a panic ends the run (none).
      abbrev pub downloaded :
          String → String → String → World T → Downloaded → Option (World T × Downloaded)
      downloaded group name user w d = elim d.outcome [
        | Ending.done ↦ some (
          as_user user (command "add_seeder" (group ∷ name ∷ user ∷ []))
              (record w { disk = d.disk }),
          d,
        )
        | Ending.failed ↦ some (record w { disk = d.disk }, d)
        | Ending.panicked ↦ none
      ]

      -- `download_file` with its arguments given.
      unfoldable pub download_command :
          SessionData → String → String → World T → Option (World T × Downloaded)
      unfolding query_file_info download_file
      download_command s group name w =
          let (resp, after) =
            send (command "get_file_info" (group ∷ name ∷ s.user_id ∷ [])) w.tracker in
          downloaded group name s.user_id (record w { tracker = after })
            (download_file sha net ranged rarest (query_file_info enc resp) w.disk)

-- The other commands, from the arguments to the message; `quiet` is a command that sends none, and
-- `panics` one that reads an argument that is not there.
pub data Sent : Type 0 where
  quiet : Sent
  panics : Sent
  message : Message → Sent

abbrev pub if_user : String → Message → Sent
if_user user msg = if str_eq user "" then quiet else message msg

abbrev pub sends_create_user : String → List String → Sent
sends_create_user user args = message (command "create_user" args)

abbrev pub sends_create_group : String → List String → Sent
sends_create_group user [] = panics
sends_create_group user (g ∷ _) = message (command "create_group" (g ∷ user ∷ []))

abbrev pub sends_list_files : String → List String → Sent
sends_list_files user [] = panics
sends_list_files user (g ∷ _) = message (command "list_files" (g ∷ user ∷ []))

abbrev pub sends_list_groups : String → List String → Sent
sends_list_groups user args = message (command "list_groups" [])

abbrev pub sends_stop_sharing : String → List String → Sent
sends_stop_sharing user (g ∷ name ∷ _) =
    if_user user (command "stop_sharing" (g ∷ name ∷ user ∷ []))
sends_stop_sharing user _ = quiet

abbrev pub sends_join_group : String → List String → Sent
sends_join_group user [] = quiet
sends_join_group user (g ∷ _) = if_user user (command "join_group" (g ∷ user ∷ []))

abbrev pub sends_leave_group : String → List String → Sent
sends_leave_group user [] = quiet
sends_leave_group user (g ∷ _) = if_user user (command "leave_group" (g ∷ user ∷ []))

abbrev pub sends_list_requests : String → List String → Sent
sends_list_requests user [] = quiet
sends_list_requests user (g ∷ _) = if_user user (command "list_requests" (g ∷ user ∷ []))

abbrev pub sends_accept_request : String → List String → Sent
sends_accept_request user (g ∷ other ∷ _) =
    if_user user (command "accept_requests" (g ∷ user ∷ other ∷ []))
sends_accept_request user _ = quiet

abbrev pub simple_commands : Map (String → List String → Sent)
simple_commands =
    ("create_user", sends_create_user)
    ∷ ("create_group", sends_create_group)
    ∷ ("list_files", sends_list_files)
    ∷ ("list_groups", sends_list_groups)
    ∷ ("stop_sharing", sends_stop_sharing)
    ∷ ("join_group", sends_join_group)
    ∷ ("leave_group", sends_leave_group)
    ∷ ("list_requests", sends_list_requests)
    ∷ ("accept_request", sends_accept_request)
    ∷ []

-- `logout`, which removes the session file.
unfoldable pub logout_command : {T : Type 0} → World T → World T
logout_command w = record w { session = none }

-- A run of one of these commands; none is a panic, and an unknown command does nothing.
unfoldable pub simple_command :
    {T : Type 0} → (Message → T → Response × T) → String → List String → World T → Option (World T)
unfolding lookup
simple_command send cmd args w = elim (lookup cmd simple_commands) [
  | none ↦ some w
  | some sends ↦ elim (sends (load_session w.session).user_id args) [
    | quiet ↦ some w
    | panics ↦ none
    | message msg ↦ some (tell send msg w)
  ]
]
