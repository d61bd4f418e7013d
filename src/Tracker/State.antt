-- ===== src/Tracker/State.antt =====
-- tracker/state.go and tracker/protocol.go: the data, and what a handler answers.
use p2p_file_sharing.Base.{ℕ, String, Bool, Option, List}
use p2p_file_sharing.Base.Int.{ℤ}
use p2p_file_sharing.Base.Map.{Map}

pub record User : Type 0 where
  pub user_id : String
  pub password : String
  pub logged_in : Bool
  pub addr : String

pub record Group : Type 0 where
  pub group_id : String
  pub owner : String
  pub members : Map Bool
  pub pending : Map Bool

pub record Chunk : Type 0 where
  pub index : ℤ
  pub hash : String
  pub size : ℤ

pub record File : Type 0 where
  pub file_name : String
  pub group_id : String
  pub uploader : String
  pub file_size : ℤ
  pub file_hash : String
  pub chunk_size : ℕ
  pub total_chunks : ℕ
  pub chunks : List Chunk
  pub owners : Map Bool

-- The three global maps.
pub record State : Type 0 where
  pub users : Map User
  pub groups : Map Group
  pub files : Map File

pub record Message : Type 0 where
  pub cmd : String
  pub args : List String

-- One entry of the answer of `listFiles`.
pub record FileSummary : Type 0 where
  pub file_name : String
  pub file_size : ℤ
  pub uploader : String

-- The answer of `getFileInfo`.
pub record FileInfo : Type 0 where
  pub file_name : String
  pub file_hash : String
  pub file_size : ℤ
  pub chunk_size : ℕ
  pub total_chunks : ℕ
  pub chunks : List Chunk
  pub peers : List String

-- The answer of `uploadFile`; the hash and the number of chunks are there if a hash was given.
pub record UploadReceipt : Type 0 where
  pub file_name : String
  pub group_id : String
  pub file_size : ℤ
  pub uploader : String
  pub hashed : Option (String × ℕ)

-- The values that the handlers put into the field `Data` of a response.
pub data Payload : Type 0 where
  text : String → Payload
  names : List String → Payload
  group_created : (group_id owner : String) → Payload
  file_uploaded : UploadReceipt → Payload
  file_list : List FileSummary → Payload
  file_info : FileInfo → Payload
  snapshot : State → Payload

pub record Response : Type 0 where
  pub status : String
  pub payload : Payload

abbrev pub ok : Payload → Response
ok p = record { status = "ok"; payload = p }

abbrev pub error : String → Response
error t = record { status = "error"; payload = Payload.text t }

-- What a handler starts by a `go` statement.
pub data Effect : Type 0 where
  save : Effect
  broadcast : Message → Effect

-- A handler answers, or it panics: an index out of range or a nil pointer ends the process.
pub data Outcome : Type 0 where
  panic : Outcome
  done : State → Response → List Effect → Outcome

-- The state after a call; a process that has ended keeps nothing more.
abbrev pub after : State → Outcome → State
after s panic = s
after s (done t r es) = t

-- What the standard library does to the texts that clients send: `json.Unmarshal` into a list of
-- chunks (`none` is its error), and `fmt.Sscanf` by `%d` into a size (zero where it finds none).
pub record Codec : Type 0 where
  pub parse_chunks : String → Option (List Chunk)
  pub scan_size : String → ℤ
