-- ===== src/Client/Download.antt =====
-- `DownloadFile` of client/download.go. The counts are not negative, the folders can be made, and
-- what is opened for writing can be written.
pub mod Intact
pub mod Assembly
pub mod Folder
pub mod Original
pub mod Resume
pub mod Asked
pub mod Served
use Prim.Native.String.{len}
use p2p_file_sharing.Base.{
  ℕ, zero, suc, ◌%◌, String, Bool, true, false, List, [], ◌∷◌, ◌++◌, length, get_elem?, Option,
  none, some, ◌&&◌, if◌then◌else◌, ltb, ◌==◌, str_eq,
}
use p2p_file_sharing.Base.Map.{lookup, insert}
use p2p_file_sharing.Base.Indexed.{Indexed, find, store}
use p2p_file_sharing.Client.Chunk.{Bytes, ChunkInfo, ChunkMetadata, Disk, ChunkDir, made}
use p2p_file_sharing.Client.Peer.{
  Network, request_chunk, may_have, get_bitfields, get_bitfields_panics,
}
use p2p_file_sharing.Client.Rarity.{Bitfields, build_rarity_order, upto}

pub record FileInfo : Type 0 where
  pub file_name : String
  pub file_hash : String
  pub file_size : ℕ
  pub chunk_size : ℕ
  pub total_chunks : ℕ
  pub chunks : List ChunkInfo
  pub peers : List String

-- How a step ends: it goes on, returns an error, or panics.
pub data Ending : Type 0 where
  done : Ending
  failed : Ending
  panicked : Ending

-- What a run leaves: the disk, what was written to the destination if it was opened, and how it
-- ended.
pub record Downloaded : Type 0 where
  pub disk : Disk
  pub dest : Option Bytes
  pub outcome : Ending

-- `xs[i%len(xs)]`; of no element it panics (none).
abbrev pub pick_peer : List String → ℕ → Option String
pick_peer [] i = none
pick_peer (x ∷ xs) i = get_elem? (x ∷ xs) (i % length (x ∷ xs))

unfoldable pub qualified : ℕ → Bitfields → List String
qualified i [] = []
qualified i ((peer, bf) ∷ rest) =
    let later = qualified i rest in if may_have bf i then peer ∷ later else later

abbrev pub or_any : List String → List String → ℕ → Option String
or_any peers [] i = pick_peer peers i
or_any peers (q ∷ qs) i = pick_peer (q ∷ qs) i

-- `ranged i m` is `m` as the `range` loop for chunk `i` meets it.
abbrev pub Ranged : Type 0
Ranged = ℕ → Bitfields → Bitfields

-- The peer to ask; no bitfields is the sequential mode.
unfoldable pub choose_peer : Ranged → List String → Option Bitfields → ℕ → Option String
unfolding qualified
choose_peer ranged peers none i = pick_peer peers i
choose_peer ranged peers (some m) i = or_any peers (qualified i (ranged i m)) i

-- `assembleFileFromDisk`, from chunk `i` on: whether all were there, and what was written.
unfoldable pub assemble : ℕ → ℕ → Indexed Bytes → Bytes → Ending × Bytes
unfolding find
assemble zero i files written = (Ending.done, written)
assemble (suc rounds) i files written = elim (find i files) [
  | none ↦ (Ending.failed, written)
  | some bytes ↦ assemble rounds (suc i) files (written ++ bytes)
]

-- The loop goes on after a step that is done, and ends with any other.
abbrev pub continued : Ending × Indexed Bytes → Ending × Indexed Bytes → Ending × Indexed Bytes
continued (Ending.done, next) rest = rest
continued (o, next) rest = (o, next)

module _ (sha : Bytes → String) (net : Network) (ranged : Ranged) where
  unfoldable pub validate_chunk_hash : Bytes → String → Bool
  validate_chunk_hash bytes hash = str_eq (sha bytes) hash

  -- The check of what a peer sent as chunk `i`, and its writing.
  abbrev pub verified : Option ChunkInfo → Bytes → ℕ → Indexed Bytes → Ending × Indexed Bytes
  verified none bytes i files = (Ending.panicked, files)
  verified (some c) bytes i files =
      if validate_chunk_hash bytes c.hash
      then (Ending.done, store i bytes files)
      else (Ending.failed, files)

  abbrev pub received : Option Bytes → List ChunkInfo → ℕ → Indexed Bytes → Ending × Indexed Bytes
  received none chunks i files = (Ending.failed, files)
  received (some bytes) chunks i files = verified (get_elem? chunks i) bytes i files

  abbrev pub asked : Option String → FileInfo → ℕ → Indexed Bytes → Ending × Indexed Bytes
  asked none info i files = (Ending.panicked, files)
  asked (some peer) info i files =
      received (request_chunk net peer info.file_hash i) info.chunks i files

  -- The body of the loop: a chunk that is on the disk is skipped.
  unfoldable pub fetch_chunk :
      FileInfo → Option Bitfields → ℕ → Indexed Bytes → Ending × Indexed Bytes
  unfolding request_chunk choose_peer find store validate_chunk_hash
  fetch_chunk info bitfields i files = elim (find i files) [
    | some bytes ↦ (Ending.done, files)
    | none ↦ asked (choose_peer ranged info.peers bitfields i) info i files
  ]

  -- The loop over the order.
  unfoldable pub fetch_chunks :
      FileInfo → Option Bitfields → List ℕ → Indexed Bytes → Ending × Indexed Bytes
  unfolding fetch_chunk
  fetch_chunks info bitfields [] files = (Ending.done, files)
  fetch_chunks info bitfields (i ∷ order) files =
      let one = fetch_chunk info bitfields i files in
      continued one (fetch_chunks info bitfields order one.1)

  abbrev pub bitfields_of : Bool → FileInfo → Option Bitfields
  bitfields_of false info = none
  bitfields_of true info = some (get_bitfields net info.peers info.file_hash)

  abbrev pub order_of : Option Bitfields → ℕ → List ℕ
  order_of none total = upto 0 total
  order_of (some m) total = build_rarity_order m total

  abbrev pub download_metadata : FileInfo → ChunkMetadata
  download_metadata info = record {
    file_name = info.file_name;
    file_size = info.file_size;
    file_hash = info.file_hash;
    chunk_size = info.chunk_size;
    total_chunks = info.total_chunks;
    chunks = info.chunks;
  }

  abbrev pub kept : FileInfo → ChunkDir → Disk → Indexed Bytes → Disk
  kept info dir disk files =
      insert info.file_hash (record { files = files; metadata = dir.metadata }) disk

  abbrev pub complete : FileInfo → Disk → Indexed Bytes → Disk
  complete info disk files =
      insert info.file_hash (record { files = files; metadata = some (download_metadata info) })
        disk

  -- The end of a run, from what the assembly returned.
  abbrev pub assembled : FileInfo → ChunkDir → Disk → Indexed Bytes → Ending × Bytes → Downloaded
  assembled info dir disk files (Ending.done, bytes) = record {
    disk = complete info disk files;
    dest = some bytes;
    outcome = Ending.done;
  }
  assembled info dir disk files (o, bytes) = record {
    disk = kept info dir disk files;
    dest = some bytes;
    outcome = o;
  }

  -- The rest of a run, from what the loop returned.
  abbrev pub fetched : FileInfo → ChunkDir → Disk → Ending × Indexed Bytes → Downloaded
  fetched info dir disk (Ending.done, files) =
      assembled info dir disk files (assemble info.total_chunks 0 files [])
  fetched info dir disk (o, files) = record {
    disk = kept info dir disk files;
    dest = none;
    outcome = o;
  }

  abbrev pub unchanged : Disk → Ending → Downloaded
  unchanged disk o = record { disk = disk; dest = none; outcome = o }

  -- A run once the peers and the hash have been looked at.
  unfoldable pub fetch_file : Bool → FileInfo → Disk → Downloaded
  unfolding fetch_chunks assemble lookup get_bitfields_panics
  fetch_file rarest info disk =
      let dir = made (lookup info.file_hash disk) in
      let bitfields = bitfields_of rarest info in
      let run = fetch_chunks info bitfields (order_of bitfields info.total_chunks) dir.files in
      fetched info dir disk (
        if rarest && get_bitfields_panics net info.peers info.file_hash
        then (Ending.panicked, dir.files)
        else run)

  -- `DownloadFile`, from the tracker's answer (none is an error).
  unfoldable pub download_file : Bool → Option FileInfo → Disk → Downloaded
  unfolding fetch_file
  download_file rarest none disk = unchanged disk Ending.failed
  download_file rarest (some info) disk =
      if length info.peers == 0
      then unchanged disk Ending.failed
      else if ltb (len info.file_hash) 16
      then unchanged disk Ending.panicked
      else fetch_file rarest info disk
