-- ===== src/Client/Download/Intact.antt =====
-- What a download leaves on the disk and in the destination, whatever the peers answer.
use p2p_file_sharing.Base.{
  ℕ, ◌<◌, String, Bool, true, false, List, [], ◌∷◌, In, get_elem?, Option, none, some, ◌==◌, str_eq,
  ◌≡◌, refl, arith, inl, inr, Bool-cases, Option-cases, eq_iff,
}
use p2p_file_sharing.Base.Indexed.{Indexed, find, store, find-store}
use p2p_file_sharing.Client.Chunk.{Bytes, ChunkInfo}
use p2p_file_sharing.Client.Peer.{Network, request_chunk}
use p2p_file_sharing.Client.Rarity.{Bitfields, build_rarity_order-Ascending, upto-In}
use p2p_file_sharing.Client.Download.{
  FileInfo, Ending, Ranged, choose_peer, validate_chunk_hash, fetch_chunk, fetch_chunks, order_of,
  bitfields_of, continued, received, verified, asked,
}

-- A chunk file that is there has the hash that is listed.
abbrev pub IsIntact : (Bytes → String) → List ChunkInfo → Indexed Bytes → Type 0
IsIntact sha chunks files =
    (i : ℕ) (b : Bytes) (c : ChunkInfo)
    → find i files ≡ some b
    → get_elem? chunks i ≡ some c
    → sha b ≡ c.hash

-- The chunk files that were there are there, as they were.
abbrev pub Kept : Indexed Bytes → Indexed Bytes → Type 0
Kept files next = (i : ℕ) (b : Bytes) → find i files ≡ some b → find i next ≡ some b

-- What a step may do to the chunk files.
abbrev pub Progress : (Bytes → String) → List ChunkInfo → Indexed Bytes → Indexed Bytes → Type 0
Progress sha chunks files next =
    Kept files next × (IsIntact sha chunks files → IsIntact sha chunks next)

-- The chunk file that is there, if any.
abbrev pub Present : ℕ → Indexed Bytes → Type 0
Present i files = (b : Bytes) × (find i files ≡ some b)

pub Progress-refl :
    (sha : Bytes → String) (chunks : List ChunkInfo) (files : Indexed Bytes)
    → Progress sha chunks files files
Progress-refl sha chunks files = (λ i b h. h, λ h. h)

Progress-trans :
    (sha : Bytes → String) (chunks : List ChunkInfo) (a b c : Indexed Bytes)
    → Progress sha chunks a b
    → Progress sha chunks b c
    → Progress sha chunks a c
Progress-trans sha chunks a b c p q = (λ i x h. q.0 i x (p.0 i x h), λ h. q.1 (p.1 h))

store-Progress :
    (sha : Bytes → String) (chunks : List ChunkInfo) (i : ℕ) (b : Bytes) (c : ChunkInfo)
    (files : Indexed Bytes)
    → find i files ≡ none
    → get_elem? chunks i ≡ some c
    → sha b ≡ c.hash
    → Progress sha chunks files (store i b files)
store-Progress sha chunks i b c files absent listed valid = (
  λ j x h. elim (Bool-cases (i == j)) [
    | inl e ↦ let same : i ≡ j = ground arith in cc
    | inr e ↦ rw (find-store, e) h
  ],
  λ intact j x d h l. elim (Bool-cases (i == j)) [
    | inl e ↦ let same : i ≡ j = ground arith in let new = rw (find-store, e) at h in cc
    | inr e ↦ intact j x d (rw (find-store, e) at h) l
  ],
)

module _ (sha : Bytes → String) (net : Network) (ranged : Ranged) (info : FileInfo) where
  -- A step's end: the outcome and the files it may have.
  abbrev Good : ℕ → Indexed Bytes → Ending × Indexed Bytes → Type 0
  Good i files r = Progress sha info.chunks files r.1 × (r.0 ≡ Ending.done → Present i r.1)

  verified-Good :
      (o : Option ChunkInfo) (i : ℕ) (b : Bytes) (files : Indexed Bytes)
      → find i files ≡ none
      → get_elem? info.chunks i ≡ o
      → Good i files (verified sha net ranged o b i files)
  unfolding validate_chunk_hash
  verified-Good none i b files absent listed = (Progress-refl sha info.chunks files, λ h. cc)
  verified-Good (some c) i b files absent listed = elim (Bool-cases (str_eq (sha b) c.hash)) [
    | inl e ↦
        rw (validate_chunk_hash, e)
          (
            store-Progress sha info.chunks i b c files absent listed ((eq_iff (sha b) c.hash).0 e),
            λ h. (b, ground (arith, find-store i i b files)),
          )
    | inr e ↦ rw (validate_chunk_hash, e) (Progress-refl sha info.chunks files, λ h. cc)
  ]

  received-Good :
      (o : Option Bytes) (i : ℕ) (files : Indexed Bytes)
      → find i files ≡ none
      → Good i files (received sha net ranged o info.chunks i files)
  received-Good none i files absent = (Progress-refl sha info.chunks files, λ h. cc)
  received-Good (some b) i files absent =
      verified-Good (get_elem? info.chunks i) i b files absent refl

  asked-Good :
      (o : Option String) (i : ℕ) (files : Indexed Bytes)
      → find i files ≡ none
      → Good i files (asked sha net ranged o info i files)
  asked-Good none i files absent = (Progress-refl sha info.chunks files, λ h. cc)
  asked-Good (some peer) i files absent =
      received-Good (request_chunk net peer info.file_hash i) i files absent

  fetch_chunk-Good :
      (bitfields : Option Bitfields) (i : ℕ) (files : Indexed Bytes)
      → Good i files (fetch_chunk sha net ranged info bitfields i files)
  unfolding fetch_chunk
  fetch_chunk-Good bitfields i files = elim (Option-cases (find i files)) [
    | inl e ↦ rw (fetch_chunk, e) (asked-Good (choose_peer ranged info.peers bitfields i) i files e)
    | inr (b, e) ↦ rw (fetch_chunk, e) (Progress-refl sha info.chunks files, λ h. (b, e))
  ]

  -- The chunks of an order are present.
  abbrev pub AllPresent : List ℕ → Indexed Bytes → Type 0
  AllPresent order files = (i : ℕ) → In i order → Present i files

  continued-Good :
      (i : ℕ) (order : List ℕ) (files : Indexed Bytes) (one rest : Ending × Indexed Bytes)
      → Good i files one
      → Progress sha info.chunks one.1 rest.1
      → (rest.0 ≡ Ending.done → AllPresent order rest.1)
      → Progress sha info.chunks files (continued one rest).1
        × ((continued one rest).0 ≡ Ending.done → AllPresent (i ∷ order) (continued one rest).1)
  continued-Good i order files (Ending.done, next) rest good more all = (
    Progress-trans sha info.chunks files next rest.1 good.0 more,
    λ h j m. elim m [
      | inl e ↦ let (b, there) = good.1 refl in (b, rw (← e) (more.0 i b there))
      | inr later ↦ all h j later
    ],
  )
  continued-Good i order files (Ending.failed, next) rest good more all = (good.0, λ h. cc)
  continued-Good i order files (Ending.panicked, next) rest good more all = (good.0, λ h. cc)

  -- The loop keeps the files and their hashes, and if it is done it has left every chunk of its
  -- order.
  pub fetch_chunks-Progress :
      (bitfields : Option Bitfields) (order : List ℕ) (files : Indexed Bytes)
      → Progress sha info.chunks files (fetch_chunks sha net ranged info bitfields order files).1
        × ((fetch_chunks sha net ranged info bitfields order files).0 ≡ Ending.done
            → AllPresent order (fetch_chunks sha net ranged info bitfields order files).1)
  unfolding fetch_chunks
  fetch_chunks-Progress bitfields [] files =
      (Progress-refl sha info.chunks files, λ h i m. absurd m)
  fetch_chunks-Progress bitfields (i ∷ order) files =
      let one = fetch_chunk sha net ranged info bitfields i files in
      let (more, all) = fetch_chunks-Progress bitfields order one.1 in
      continued-Good i order files one (fetch_chunks sha net ranged info bitfields order one.1)
        (fetch_chunk-Good bitfields i files) more all

  -- In both modes the order has every chunk.
  pub order_of-In :
      (rarest : Bool) (i : ℕ)
      → i < info.total_chunks
      → In i (order_of sha net ranged (bitfields_of sha net ranged rarest info) info.total_chunks)
  order_of-In false i h = (upto-In i 0 info.total_chunks).1 (omega arith, omega arith)
  order_of-In true i h = ((build_rarity_order-Ascending _ info.total_chunks).0 i).1 h
