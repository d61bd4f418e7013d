-- ===== src/Client/Peer/Bitfields.antt =====
-- The bitfield that is asked for is that of the peer's disk.
use p2p_file_sharing.Base.{
  ℕ, zero, suc, ◌+◌, ◌≤◌, ◌<◌, String, Bool, true, false, List, [], ◌∷◌, In, length, none, some,
  if◌then◌else◌, ◌==◌, ◌≡◌, ◌≢◌, refl, arith, ◌↔◌, ◌⊎◌, inl, inr, Bool-cases, map, ap, Option-cases,
}
use p2p_file_sharing.Base.Int.{pos}
use p2p_file_sharing.Base.Map.{lookup}
use p2p_file_sharing.Base.Indexed.{Indexed, find}
use p2p_file_sharing.Client.Chunk.{Bytes, ChunkDir, Disk}
use p2p_file_sharing.Client.Peer.{
  Network, PeerRequest, handle_peer_conn, handle_get_bitfield, query_bitfield, max_index, larger,
  set_true, set_all, falses, bit_at, may_have, indices, get_bitfield_of, bits_of, natural_index,
  query_panics, get_bitfields_panics, has_negative,
}

max_index-le : (m : ℕ) (l : List ℕ) → m ≤ max_index m l
unfolding max_index
max_index-le m [] = omega arith
max_index-le m (i ∷ l) = let ih = max_index-le (larger m i) l in ground arith

max_index-In : (m j : ℕ) (l : List ℕ) → In j l → j ≤ max_index m l
unfolding max_index
max_index-In m j [] at = absurd at
max_index-In m j (i ∷ l) at = elim at [
  | inl e ↦ let ih = max_index-le (larger m i) l in ground arith
  | inr later ↦ max_index-In (larger m i) j l later
]

length-set_true : (i : ℕ) (bs : List Bool) → length (set_true i bs) ≡ length bs
unfolding set_true
length-set_true i [] = refl
length-set_true zero (b ∷ bs) = refl
length-set_true (suc i) (b ∷ bs) = omega (arith, length-set_true i bs)

set_true-at :
    (i j : ℕ) (bs : List Bool)
    → i < length bs
    → bit_at (set_true i bs) j ≡ (if i == j then true else bit_at bs j)
unfolding set_true
set_true-at i j [] h = absurd (omega arith)
set_true-at zero zero (b ∷ bs) h = refl
set_true-at zero (suc j) (b ∷ bs) h = ground arith
set_true-at (suc i) zero (b ∷ bs) h = ground arith
set_true-at (suc i) (suc j) (b ∷ bs) h = let ih = set_true-at i j bs (omega arith) in ground arith

set_all-at :
    (l : List ℕ) (j : ℕ) (bs : List Bool)
    → ((i : ℕ) → In i l → i < length bs)
    → (bit_at (set_all l bs) j ≡ true) ↔ (In j l ⊎ (bit_at bs j ≡ true))
unfolding set_all
set_all-at [] j bs h = (inr, elim [ inl x ↦ absurd x | inr e ↦ e ])
set_all-at (i ∷ l) j bs h =
    let (there, back) =
      set_all-at l j (set_true i bs) (λ k m. omega (arith, length-set_true i bs, h k (inr m))) in
    let one = set_true-at i j bs (h i (inl refl)) in
    (
      λ e. elim (there e) [
        | inl m ↦ inl (inr m)
        | inr t ↦ elim (Bool-cases (i == j)) [
          | inl same ↦ inl (inl (ground arith))
          | inr other ↦ inr (ground arith)
        ]
      ],
      elim [
        | inl m ↦ elim m [ inl same ↦ back (inr (ground arith)) | inr later ↦ back (inl later) ]
        | inr t ↦ back (inr (ground arith))
      ],
    )

falses-at : (n j : ℕ) → bit_at (falses n) j ≡ false
falses-at zero j = refl
falses-at (suc n) zero = refl
falses-at (suc n) (suc j) = falses-at n j

length-falses : (n : ℕ) → length (falses n) ≡ n
length-falses zero = refl
length-falses (suc n) = omega (arith, length-falses n)

-- The conversion loses and adds no index.
bits_of-at : (i : ℕ) (l : List ℕ) (j : ℕ) → (may_have (bits_of (i ∷ l)) j ≡ true) ↔ In j (i ∷ l)
bits_of-at i l j =
    let m = max_index 0 (i ∷ l) in
    let (there, back) =
      set_all-at (i ∷ l) j (falses (m + 1))
        (λ k at. omega (arith, max_index-In 0 k (i ∷ l) at, length-falses (m + 1))) in
    (
      λ e. elim (there e) [ inl at ↦ at | inr t ↦ let f = falses-at (m + 1) j in cc ],
      λ at. back (inl at),
    )

indices-In : (files : Indexed Bytes) (j : ℕ) → In j (indices files) ↔ (find j files ≢ none)
unfolding find
indices-In [] j = (λ m. absurd m, λ h. absurd (h refl))
indices-In ((i, b) ∷ files) j =
    let (there, back) = indices-In files j in
    elim (Bool-cases (i == j)) [
      | inl e ↦ rw (find, e) (λ m h. cc, λ h. inl (ground arith))
      | inr e ↦
          rw (find, e)
            (elim [ inl same ↦ absurd (ground arith) | inr later ↦ there later ], λ h. inr (back h))
    ]

bits_of_some-at : (l : List ℕ) (j : ℕ) → 0 < length l → (may_have (bits_of l) j ≡ true) ↔ In j l
bits_of_some-at [] j h = absurd (omega arith)
bits_of_some-at (i ∷ l) j h = bits_of-at i l j

length-indices : (files : Indexed Bytes) → length (indices files) ≡ length files
length-indices [] = refl
length-indices (e ∷ files) = omega (arith, length-indices files)

-- The answer of a peer has the indices as they are, none of them negative.
places : (l : List ℕ) → map natural_index (map pos l) ≡ l
places [] = refl
places (i ∷ l) = ap (λ k. i ∷ k) (places l)

not_negative : (l : List ℕ) → has_negative (map pos l) ≡ false
not_negative [] = refl
not_negative (i ∷ l) = not_negative l

-- A peer that serves from a disk does not make the one that asks panic.
query_panics-served :
    (net : Network) (peer hash : String) (disk : Disk)
    → ((req : PeerRequest) → net peer req ≡ some (handle_peer_conn disk req))
    → query_panics net peer hash ≡ false
unfolding query_panics handle_peer_conn handle_get_bitfield
query_panics-served net peer hash disk serves =
    let answer = serves (get_bitfield_of hash) in
    elim (Option-cases (lookup hash disk)) [
      | inl e ↦ rw (query_panics, answer, handle_peer_conn, handle_get_bitfield, e) refl
      | inr (dir, e) ↦
          rw (query_panics, answer, handle_peer_conn, handle_get_bitfield, e)
            (not_negative (indices dir.files))
    ]

pub get_bitfields_panics-served :
    (net : Network) (peers : List String) (hash : String)
    → ((p : String)
        → In p peers
        → (d : Disk) × ((req : PeerRequest) → net p req ≡ some (handle_peer_conn d req)))
    → get_bitfields_panics net peers hash ≡ false
unfolding get_bitfields_panics
get_bitfields_panics-served net [] hash serves = refl
get_bitfields_panics-served net (p ∷ peers) hash serves =
    let (d, answers) = serves p (inl refl) in
    rw
      (
        get_bitfields_panics,
        query_panics-served net p hash d answers,
        get_bitfields_panics-served net peers hash (λ q m. serves q (inr m)),
      )
      refl

-- If a peer serves from a disk on which the folder of the file has a chunk file, its bitfield has a
-- chunk exactly if the folder does.
pub query_bitfield-find :
    (net : Network) (peer hash : String) (disk : Disk) (dir : ChunkDir) (i : ℕ)
    → ((req : PeerRequest) → net peer req ≡ some (handle_peer_conn disk req))
    → lookup hash disk ≡ some dir
    → 0 < length dir.files
    → (may_have (query_bitfield net peer hash) i ≡ true) ↔ (find i dir.files ≢ none)
unfolding query_bitfield handle_peer_conn handle_get_bitfield
query_bitfield-find net peer hash disk dir i serves there some_file =
    let answer = serves (get_bitfield_of hash) in
    let (a, b) = bits_of_some-at (indices dir.files) i (omega (arith, length-indices dir.files)) in
    let (c, d) = indices-In dir.files i in
    rw (query_bitfield, answer, handle_peer_conn, handle_get_bitfield, there, places)
      (λ t. c (a t), λ n. b (d n))
