-- ===== src/Client/Download/Folder.antt =====
-- The folder of the chunks before and after a run.
use Prim.Native.String.{len}
use p2p_file_sharing.Base.{
  String, Bool, List, [], length, some, ltb, ◌==◌, ◌&&◌, if◌then◌else◌, ◌≡◌, ◌≢◌, refl, ap, ◌⊎◌,
  inl, inr, Bool-cases,
}
use p2p_file_sharing.Base.Map.{lookup, insert, lookup-insert_self}
use p2p_file_sharing.Base.Indexed.{Indexed}
use p2p_file_sharing.Client.Chunk.{Bytes, ChunkMetadata, ChunkDir, Disk, made}
use p2p_file_sharing.Client.Peer.{Network, get_bitfields_panics}
use p2p_file_sharing.Client.Download.{
  FileInfo, Ending, Ranged, assemble, fetch_chunks, fetch_file, download_file, order_of,
  bitfields_of, fetched, assembled, unchanged,
}
use p2p_file_sharing.Client.Download.Intact.{Progress, Progress-refl, fetch_chunks-Progress}

abbrev pub folder : FileInfo → Disk → Indexed Bytes
folder info disk = (made (lookup info.file_hash disk)).files

-- The metadata that the tracker passes on, with the addresses of the owners.
abbrev pub shared_as : ChunkMetadata → List String → FileInfo
shared_as meta peers = record {
  file_name = meta.file_name;
  file_hash = meta.file_hash;
  file_size = meta.file_size;
  chunk_size = meta.chunk_size;
  total_chunks = meta.total_chunks;
  chunks = meta.chunks;
  peers = peers;
}

module _ (sha : Bytes → String) (net : Network) (ranged : Ranged) (rarest : Bool) where
  folder-insert :
      (info : FileInfo) (dir : ChunkDir) (disk : Disk)
      → folder info (insert info.file_hash dir disk) ≡ dir.files
  folder-insert info dir disk =
      ap (λ o. (made o).files) (lookup-insert_self info.file_hash dir disk)

  assembled-folder :
      (info : FileInfo) (dir : ChunkDir) (disk : Disk) (files : Indexed Bytes) (r : Ending × Bytes)
      → folder info (assembled sha net ranged info dir disk files r).disk ≡ files
  assembled-folder info dir disk files (Ending.done, b) = folder-insert info _ disk
  assembled-folder info dir disk files (Ending.failed, b) = folder-insert info _ disk
  assembled-folder info dir disk files (Ending.panicked, b) = folder-insert info _ disk

  fetched-folder :
      (info : FileInfo) (dir : ChunkDir) (disk : Disk) (r : Ending × Indexed Bytes)
      → folder info (fetched sha net ranged info dir disk r).disk ≡ r.1
  fetched-folder info dir disk (Ending.done, files) =
      assembled-folder info dir disk files (assemble info.total_chunks 0 files [])
  fetched-folder info dir disk (Ending.failed, files) = folder-insert info _ disk
  fetched-folder info dir disk (Ending.panicked, files) = folder-insert info _ disk

  -- Whether a run panics when it asks for the bitfields.
  abbrev pub panics : FileInfo → Bool
  panics info = rarest && get_bitfields_panics net info.peers info.file_hash

  -- The loop over the chunks.
  abbrev pub chunk_loop : FileInfo → Disk → Ending × Indexed Bytes
  chunk_loop info disk =
      let bitfields = bitfields_of sha net ranged rarest info in
      fetch_chunks sha net ranged info bitfields
        (order_of sha net ranged bitfields info.total_chunks) (folder info disk)

  -- A run up to its assembly.
  abbrev pub loop : FileInfo → Disk → Ending × Indexed Bytes
  loop info disk = if panics info then (Ending.panicked, folder info disk) else chunk_loop info disk

  -- A run asks nobody, or it is its loop and what follows.
  pub download_file-cases :
      (info : FileInfo) (disk : Disk)
      → ((o : Ending) × (o ≢ Ending.done)
          × (download_file sha net ranged rarest (some info) disk
              ≡ unchanged sha net ranged disk o))
        ⊎ (download_file sha net ranged rarest (some info) disk
            ≡ fetched sha net ranged info (made (lookup info.file_hash disk)) disk (loop info disk))
  unfolding download_file fetch_file
  download_file-cases info disk = elim (Bool-cases (length info.peers == 0)) [
    | inl e ↦ inl (Ending.failed, λ h. cc, rw (download_file, e) refl)
    | inr e ↦ elim (Bool-cases (ltb (len info.file_hash) 16)) [
      | inl f ↦ inl (Ending.panicked, λ h. cc, rw (download_file, e, f) refl)
      | inr f ↦ inr (rw (download_file, e, f) refl)
    ]
  ]

  -- However a run ends, errors and panics included, the chunk files that were in the folder are
  -- there as they were, and if these had the hashes that are listed, then all that are there now
  -- do.
  pub download_file-Progress :
      (info : FileInfo) (disk : Disk)
      → Progress sha info.chunks
          (folder info disk)
          (folder info (download_file sha net ranged rarest (some info) disk).disk)
  download_file-Progress info disk =
      let bitfields = bitfields_of sha net ranged rarest info in
      elim (download_file-cases info disk) [
        | inl (o, _, e) ↦ rw e (Progress-refl sha info.chunks (folder info disk))
        | inr e ↦
            rw (e, fetched-folder info (made (lookup info.file_hash disk)) disk (loop info disk))
              (elim (Bool-cases (panics info)) [
                | inl p ↦ rw p (Progress-refl sha info.chunks (folder info disk))
                | inr p ↦
                    rw p
                      (fetch_chunks-Progress sha net ranged info bitfields
                        (order_of sha net ranged bitfields info.total_chunks) (folder info disk)).0
              ])
      ]
