-- ===== src/Client/Download/Served.antt =====
-- The peers that let a download end well.
use Prim.Native.String.{len}
use p2p_file_sharing.Base.{
  ℕ, ◌+◌, ◌≤◌, ◌<◌, String, Bool, false, List, [], ◌∷◌, In, length, get_elem?, Option, some, ◌≡◌,
  refl, arith, inl, inr, Option-cases, eq_refl,
}
use p2p_file_sharing.Base.Map.{lookup, lookup-insert_self}
use p2p_file_sharing.Base.Indexed.{Indexed, find}
use p2p_file_sharing.Client.Chunk.{
  Bytes, ChunkMetadata, ChunkDir, Disk, made, chunk_size, count_chunks, metadata_of, chunk_file,
  save_chunks, write_chunks,
}
use p2p_file_sharing.Client.Chunk.Pieces.{
  hash_chunks-get, length-pieces, chunk_file-some, write_chunks-find,
}
use p2p_file_sharing.Client.Peer.{
  Network, PeerRequest, handshake_with, get_piece_of, handle_peer_conn, handle_handshake,
  handle_get_piece, request_chunk,
}
use p2p_file_sharing.Client.Peer.Bitfields.{get_bitfields_panics-served}
use p2p_file_sharing.Client.Rarity.{Bitfields}
use p2p_file_sharing.Client.Download.{
  FileInfo, Ending, Ranged, validate_chunk_hash, fetch_chunk, fetch_chunks, download_file, order_of,
  bitfields_of, continued,
}
use p2p_file_sharing.Client.Download.Intact.{IsIntact}
use p2p_file_sharing.Client.Download.Assembly.{NoCollision, pieces_of}
use p2p_file_sharing.Client.Download.Folder.{folder, shared_as, loop, panics}
use p2p_file_sharing.Client.Download.Asked.{Meets, choose_peer-In}
use p2p_file_sharing.Client.Download.Resume.{get-of-lt, order_of-lt, download_file-open}
use p2p_file_sharing.Client.Download.Original.{loop-original, fetched-some}

-- Each peer serves from a disk on which the file's chunks were saved.
abbrev pub Serves : Network → Bytes → ChunkMetadata → List String → Type 0
Serves net original meta peers =
    (p : String)
    → In p peers
    → (d : Disk) × ((req : PeerRequest)
        → net p req ≡ some (handle_peer_conn (save_chunks d original meta) req))

-- The folder that the saving leaves.
abbrev saved : Disk → Bytes → ChunkMetadata → ChunkDir
saved d original meta = record {
  files =
      write_chunks chunk_size meta.total_chunks 0 original (made (lookup meta.file_hash d)).files;
  metadata = some meta;
}

lookup-save_chunks :
    (d : Disk) (original : Bytes) (meta : ChunkMetadata)
    → lookup meta.file_hash (save_chunks d original meta) ≡ some (saved d original meta)
unfolding save_chunks
lookup-save_chunks d original meta = lookup-insert_self meta.file_hash _ d

-- A peer that serves the file gives each of its pieces.
request_chunk-served :
    (sha : Bytes → String) (name : String) (net : Network) (original : Bytes) (p : String)
    (d : Disk) (k : ℕ) (piece : Bytes)
    → ((req : PeerRequest)
        → net p req
          ≡ some (handle_peer_conn (save_chunks d original (metadata_of sha name original)) req))
    → get_elem? (pieces_of original) k ≡ some piece
    → request_chunk net p (sha original) k ≡ some piece
unfolding request_chunk handle_peer_conn handle_handshake handle_get_piece
request_chunk-served sha name net original p d k piece serves at =
    let there = lookup-save_chunks d original (metadata_of sha name original) in
    let file =
      write_chunks-find chunk_size (count_chunks (length original)) 0 k original piece
        (made (lookup (sha original) d)).files at in
    let e : 0 + k ≡ k = omega arith in
    let file' = rw e at file in
    let greeted = serves (handshake_with (sha original)) in
    let given = serves (get_piece_of (sha original) k) in
    rw
      (
        request_chunk, greeted, given, handle_peer_conn, handle_handshake, handle_get_piece, there,
        file',
      )
      refl

continued-done :
    (one rest : Ending × Indexed Bytes)
    → one.0 ≡ Ending.done
    → rest.0 ≡ Ending.done
    → (continued one rest).0 ≡ Ending.done
continued-done (Ending.done, files) rest h r = r
continued-done (Ending.failed, files) rest h r = cc
continued-done (Ending.panicked, files) rest h r = cc

module _ (sha : Bytes → String) (net : Network) (ranged : Ranged) (meets : Meets ranged)
    (rarest : Bool) (name : String) (original : Bytes) (peers : List String)
    (some_peer : 0 < length peers)
    (serves : Serves net original (metadata_of sha name original) peers) where
  abbrev shared : FileInfo
  shared = shared_as (metadata_of sha name original) peers

  abbrev modes : Option Bitfields
  modes = bitfields_of sha net ranged rarest shared

  never-panics : panics sha net ranged rarest shared ≡ false
  never-panics = ground (arith, get_bitfields_panics-served net peers (sha original) disks)
    where
      disks :
          (p : String)
          → In p peers
          → (d : Disk) × ((req : PeerRequest) → net p req ≡ some (handle_peer_conn d req))
      disks p m = let (d, answers) = serves p m in (_, answers)

  fetch_chunk-served :
      (i : ℕ) (files : Indexed Bytes)
      → i < count_chunks (length original)
      → (fetch_chunk sha net ranged shared modes i files).0 ≡ Ending.done
  unfolding fetch_chunk validate_chunk_hash
  fetch_chunk-served i files below = elim (Option-cases (find i files)) [
    | inr (b, e) ↦ rw (fetch_chunk, e) refl
    | inl e ↦
        let total = count_chunks (length original) in
        let (p, chosen, m) = choose_peer-In sha net ranged meets rarest shared i some_peer in
        let (d, answers) = serves p m in
        let (piece, at) =
          get-of-lt (pieces_of original) i
            (omega (arith, length-pieces chunk_size total original)) in
        let given = request_chunk-served sha name net original p d i piece answers at in
        let listed = hash_chunks-get sha chunk_size total 0 i original piece at in
        rw (fetch_chunk, e, chosen, given, listed, validate_chunk_hash, eq_refl) refl
  ]

  fetch_chunks-served :
      (order : List ℕ) (files : Indexed Bytes)
      → ((i : ℕ) → In i order → i < count_chunks (length original))
      → (fetch_chunks sha net ranged shared modes order files).0 ≡ Ending.done
  unfolding fetch_chunks
  fetch_chunks-served [] files below = refl
  fetch_chunks-served (i ∷ order) files below =
      let one = fetch_chunk sha net ranged shared modes i files in
      continued-done one (fetch_chunks sha net ranged shared modes order one.1)
        (fetch_chunk-served i files (below i (inl refl)))
        (fetch_chunks-served order one.1 (λ j m. below j (inr m)))

  served_lem :
      (disk : Disk)
      → 16 ≤ len (sha original)
      → NoCollision sha original
      → 0 < length original
      → IsIntact sha (metadata_of sha name original).chunks (folder shared disk)
      → ((download_file sha net ranged rarest (some shared) disk).outcome ≡ Ending.done)
        × ((download_file sha net ranged rarest (some shared) disk).dest ≡ some original)
  served_lem disk long safe some_bytes intact =
      let ends =
        fetch_chunks-served (order_of sha net ranged modes (count_chunks (length original)))
          (folder shared disk) (order_of-lt sha net ranged shared rarest) in
      let calm = never-panics in
      rw (download_file-open sha net ranged shared rarest disk some_peer long) (
        fetched-some sha net ranged rarest shared (made (lookup (sha original) disk)) disk
          (loop sha net ranged rarest shared disk) original (rw calm ends)
          (loop-original sha net ranged rarest name original peers disk safe some_bytes intact
            (rw calm ends)))

-- If a file was accepted for sharing, each of the peers serves from a disk on which its chunks were
-- saved, there is a peer, the hash has at least sixteen characters, no other bytes have the hash of
-- a piece, and the chunk files already in the downloader's folder have the hashes that are listed,
-- then in either mode the download ends without an error and writes exactly the file.
pub download_file-served :
    (sha : Bytes → String) (net : Network) (ranged : Ranged) (rarest : Bool) (name : String)
    (original : Bytes) (meta : ChunkMetadata) (peers : List String) (disk : Disk)
    → chunk_file sha name original ≡ some meta
    → Meets ranged
    → 0 < length peers
    → Serves net original meta peers
    → 16 ≤ len meta.file_hash
    → NoCollision sha original
    → IsIntact sha meta.chunks (folder (shared_as meta peers) disk)
    → ((download_file sha net ranged rarest (some (shared_as meta peers)) disk).outcome
        ≡ Ending.done)
      × ((download_file sha net ranged rarest (some (shared_as meta peers)) disk).dest
          ≡ some original)
download_file-served sha net ranged rarest name original meta peers disk accepted meets some_peer
      serves long safe intact =
    let (same, some_bytes) = chunk_file-some sha name original meta accepted in
    rw (← same) (
      served_lem sha net ranged meets rarest name original peers some_peer (rw (← same) at serves)
        disk (rw (← same) at long) safe some_bytes (rw (← same) at intact))
