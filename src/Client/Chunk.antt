-- ===== src/Client/Chunk.antt =====
-- client/chunk.go: a file is cut into chunks that are kept in a folder under the file's hash. `sha`
-- is SHA-256 in hex. Reading fills the buffer or reaches the end of the file, and the files that
-- are named can be opened and read.
pub mod Pieces
use p2p_file_sharing.Base.{
  ℕ, zero, suc, ◌+◌, ◌-◌, ◌/◌, String, List, [], ◌∷◌, length, take, drop, Option, none, some,
  if◌then◌else◌, ◌==◌,
}
use p2p_file_sharing.Base.Map.{Map, lookup, insert}
use p2p_file_sharing.Base.Indexed.{Indexed, store}

-- The bytes of a file.
abbrev pub Bytes : Type 0
Bytes = List ℕ

abbrev pub chunk_size : ℕ
chunk_size = 524288

pub record ChunkInfo : Type 0 where
  pub index : ℕ
  pub hash : String
  pub size : ℕ

pub record ChunkMetadata : Type 0 where
  pub file_name : String
  pub file_size : ℕ
  pub file_hash : String
  pub chunk_size : ℕ
  pub total_chunks : ℕ
  pub chunks : List ChunkInfo

-- A folder below `.chunks`: the files `chunk_<i>.dat` and `metadata.json`.
pub record ChunkDir : Type 0 where
  pub files : Indexed Bytes
  pub metadata : Option ChunkMetadata

abbrev pub empty_dir : ChunkDir
empty_dir = record { files = []; metadata = none }

-- The folders by file hash.
abbrev pub Disk : Type 0
Disk = Map ChunkDir

-- What `os.MkdirAll` leaves there: a new folder, or the one that is there.
abbrev pub made : Option ChunkDir → ChunkDir
made none = empty_dir
made (some dir) = dir

abbrev pub count_chunks : ℕ → ℕ
count_chunks size = (size + chunk_size - 1) / chunk_size

module _ (sha : Bytes → String) where
  -- The loop that reads and hashes, from chunk `i` on, with `rounds` of it left.
  unfoldable pub hash_chunks : ℕ → ℕ → ℕ → Bytes → List ChunkInfo
  hash_chunks size zero i rest = []
  hash_chunks size (suc rounds) i rest =
      let buffer = take size rest in
      record { index = i; hash = sha buffer; size = length buffer }
      ∷ hash_chunks size rounds (suc i) (drop size rest)

  abbrev pub metadata_of : String → Bytes → ChunkMetadata
  metadata_of name bytes = record {
    file_name = name;
    file_size = length bytes;
    file_hash = sha bytes;
    chunk_size = chunk_size;
    total_chunks = count_chunks (length bytes);
    chunks = hash_chunks chunk_size (count_chunks (length bytes)) 0 bytes;
  }

  -- `ChunkFile`; an empty file is refused (none).
  unfoldable pub chunk_file : String → Bytes → Option ChunkMetadata
  unfolding hash_chunks
  chunk_file name bytes = if length bytes == 0 then none else some (metadata_of name bytes)

-- The loop that reads and writes the chunk files, from chunk `i` on.
unfoldable pub write_chunks : ℕ → ℕ → ℕ → Bytes → Indexed Bytes → Indexed Bytes
write_chunks size zero i rest files = files
write_chunks size (suc rounds) i rest files =
    write_chunks size rounds (suc i) (drop size rest) (store i (take size rest) files)

-- `SaveChunks`, of a file that can be read into a folder that can be written.
unfoldable pub save_chunks : Disk → Bytes → ChunkMetadata → Disk
unfolding write_chunks
save_chunks disk bytes meta =
    let dir = made (lookup meta.file_hash disk) in
    insert meta.file_hash
      (record {
        files = write_chunks chunk_size meta.total_chunks 0 bytes dir.files;
        metadata = some meta;
      })
      disk
