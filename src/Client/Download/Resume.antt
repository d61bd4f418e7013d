-- ===== src/Client/Download/Resume.antt =====
-- A run that finds chunks from a run before it.
use Prim.Native.String.{len}
use p2p_file_sharing.Base.{
  ℕ, zero, suc, ◌≤◌, ◌<◌, String, Bool, true, false, List, [], ◌∷◌, In, length, get_elem?, some,
  false, ltb, ◌==◌, ◌≡◌, refl, arith,
}
use p2p_file_sharing.Base.Map.{lookup}
use p2p_file_sharing.Base.Indexed.{Indexed}
use p2p_file_sharing.Client.Chunk.{Bytes, Disk, made}
use p2p_file_sharing.Client.Peer.{Network, get_bitfields}
use p2p_file_sharing.Client.Rarity.{upto-In, build_rarity_order-Ascending}
use p2p_file_sharing.Client.Download.{
  FileInfo, Ranged, fetch_file, download_file, order_of, bitfields_of, fetched,
}
use p2p_file_sharing.Client.Download.Folder.{loop}

module _ (sha : Bytes → String) (net : Network) (ranged : Ranged) (info : FileInfo) where
  pub order_of-lt :
      (rarest : Bool) (i : ℕ)
      → In i (order_of sha net ranged (bitfields_of sha net ranged rarest info) info.total_chunks)
      → i < info.total_chunks
  order_of-lt false i at = omega (arith, (upto-In i 0 info.total_chunks).0 at)
  order_of-lt true i at =
      ((build_rarity_order-Ascending (get_bitfields net info.peers info.file_hash)
            info.total_chunks).0
          i).0
        at

  -- With a peer and a hash of sixteen characters, the run goes into its loop.
  pub download_file-open :
      (rarest : Bool) (disk : Disk)
      → 0 < length info.peers
      → 16 ≤ len info.file_hash
      → download_file sha net ranged rarest (some info) disk
        ≡ fetched sha net ranged info
            (made (lookup info.file_hash disk))
            disk
            (loop sha net ranged rarest info disk)
  unfolding download_file fetch_file
  download_file-open rarest disk some_peer long =
      let e : (length info.peers == 0) ≡ false = ground arith in
      let f : ltb (len info.file_hash) 16 ≡ false = ground arith in rw (download_file, e, f) refl

pub get-of-lt : (xs : List Bytes) (k : ℕ) → k < length xs → (b : Bytes) × (get_elem? xs k ≡ some b)
get-of-lt [] k h = absurd (omega arith)
get-of-lt (x ∷ xs) zero h = (x, refl)
get-of-lt (x ∷ xs) (suc k) h = get-of-lt xs k (omega arith)
