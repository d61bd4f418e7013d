-- ===== src/Client/Download/Original.antt =====
-- The destination of a download that ends well.
use p2p_file_sharing.Base.{
  ◌<◌, String, Bool, List, [], length, some, ◌≡◌, refl, inl, inr, false, Bool-cases,
}
use p2p_file_sharing.Base.Map.{lookup}
use p2p_file_sharing.Base.Indexed.{Indexed}
use p2p_file_sharing.Client.Chunk.{
  Bytes, ChunkMetadata, ChunkDir, Disk, made, count_chunks, metadata_of, chunk_file,
}
use p2p_file_sharing.Client.Chunk.Pieces.{chunk_file-some}
use p2p_file_sharing.Client.Peer.{Network}
use p2p_file_sharing.Client.Download.{
  FileInfo, Ending, Ranged, assemble, download_file, order_of, bitfields_of, fetched,
}
use p2p_file_sharing.Client.Download.Intact.{IsIntact, fetch_chunks-Progress, order_of-In}
use p2p_file_sharing.Client.Download.Assembly.{NoCollision, assemble-original}
use p2p_file_sharing.Client.Download.Folder.{
  folder, shared_as, loop, chunk_loop, panics, download_file-cases,
}

module _ (sha : Bytes → String) (net : Network) (ranged : Ranged) (rarest : Bool) where
  fetched-done :
      (info : FileInfo) (dir : ChunkDir) (disk : Disk) (r : Ending × Indexed Bytes)
      → (fetched sha net ranged info dir disk r).outcome ≡ Ending.done
      → r.0 ≡ Ending.done
  fetched-done info dir disk (Ending.done, files) h = refl
  fetched-done info dir disk (Ending.failed, files) h = h
  fetched-done info dir disk (Ending.panicked, files) h = h

  pub fetched-some :
      (info : FileInfo) (dir : ChunkDir) (disk : Disk) (r : Ending × Indexed Bytes) (bytes : Bytes)
      → r.0 ≡ Ending.done
      → assemble info.total_chunks 0 r.1 [] ≡ (Ending.done, bytes)
      → ((fetched sha net ranged info dir disk r).outcome ≡ Ending.done)
        × ((fetched sha net ranged info dir disk r).dest ≡ some bytes)
  fetched-some info dir disk (Ending.done, files) bytes h e = rw e (refl, refl)
  fetched-some info dir disk (Ending.failed, files) bytes h e = cc
  fetched-some info dir disk (Ending.panicked, files) bytes h e = cc

  -- A loop that is done is the one over the chunks.
  loop-chunk_loop :
      (info : FileInfo) (disk : Disk)
      → (loop sha net ranged rarest info disk).0 ≡ Ending.done
      → (panics sha net ranged rarest info ≡ false)
        × (loop sha net ranged rarest info disk ≡ chunk_loop sha net ranged rarest info disk)
  loop-chunk_loop info disk ends = elim (Bool-cases (panics sha net ranged rarest info)) [
    | inl e ↦ absurd (let f = rw e at ends in cc)
    | inr e ↦ (e, rw e refl)
  ]

  -- What follows a loop that is done, for the metadata of a file.
  pub loop-original :
      (name : String) (original : Bytes) (peers : List String) (disk : Disk)
      → NoCollision sha original
      → 0 < length original
      → IsIntact sha
          (metadata_of sha name original).chunks
          (folder (shared_as (metadata_of sha name original) peers) disk)
      → (loop sha net ranged rarest (shared_as (metadata_of sha name original) peers) disk).0
        ≡ Ending.done
      → assemble
          (count_chunks (length original))
          0
          (loop sha net ranged rarest (shared_as (metadata_of sha name original) peers) disk).1
          []
        ≡ (Ending.done, original)
  loop-original name original peers disk safe some_bytes intact ends =
      let info = shared_as (metadata_of sha name original) peers in
      let (calm, same) = loop-chunk_loop info disk ends in
      let bitfields = bitfields_of sha net ranged rarest info in
      let (progress, all) =
        fetch_chunks-Progress sha net ranged info bitfields
          (order_of sha net ranged bitfields info.total_chunks) (folder info disk) in
      assemble-original sha name original safe (loop sha net ranged rarest info disk).1 some_bytes
        (rw same (progress.1 intact))
        (λ i below.
          rw same (all (rw same at ends) i (order_of-In sha net ranged info rarest i below)))

  -- Whatever the peers answer: if a file was accepted for sharing, no other bytes have the hash of
  -- one of its pieces, and the chunk files that are already in the downloader's folder have the
  -- hashes that are listed, then a download that ends without an error has written exactly the file
  -- to the destination.
  pub download_file-original :
      (name : String) (original : Bytes) (meta : ChunkMetadata) (peers : List String) (disk : Disk)
      → chunk_file sha name original ≡ some meta
      → NoCollision sha original
      → IsIntact sha meta.chunks (folder (shared_as meta peers) disk)
      → (download_file sha net ranged rarest (some (shared_as meta peers)) disk).outcome
        ≡ Ending.done
      → (download_file sha net ranged rarest (some (shared_as meta peers)) disk).dest
        ≡ some original
  download_file-original name original meta peers disk accepted safe intact ends =
      let (same, some_bytes) = chunk_file-some sha name original meta accepted in
      let info = shared_as (metadata_of sha name original) peers in
      let dir = made (lookup info.file_hash disk) in
      let r = loop sha net ranged rarest info disk in
      let intact' = rw (← same) at intact in
      let ends' = rw (← same) at ends in
      rw (← same) (elim (download_file-cases sha net ranged rarest info disk) [
        | inl (o, n, e) ↦ absurd (n (rw e at ends'))
        | inr e ↦
            let through = fetched-done info dir disk r (rw e at ends') in
            rw e
              (fetched-some info dir disk r original through
                (loop-original name original peers disk safe some_bytes intact' through)).1
      ])
