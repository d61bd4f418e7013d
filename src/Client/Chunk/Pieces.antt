-- ===== src/Client/Chunk/Pieces.antt =====
-- The chunks of a file, put together, are the file.
use p2p_file_sharing.Base.{
  ℕ, zero, suc, ◌+◌, ◌-◌, ◌*◌, ◌/◌, ◌≤◌, ◌<◌, String, List, [], ◌∷◌, ◌++◌, length, take, drop,
  take-drop, length-take, length-drop, get_elem?, some, ◌==◌, ◌≡◌, refl, ◌∙◌, arith, Bool-cases,
  inl, inr, All,
}
use p2p_file_sharing.Base.Indexed.{Indexed, find, store, find-store}
use p2p_file_sharing.Client.Chunk.{
  Bytes, ChunkInfo, ChunkMetadata, chunk_size, hash_chunks, count_chunks, metadata_of, chunk_file,
  write_chunks,
}

-- The successive reads of a file.
unfoldable pub pieces : ℕ → ℕ → Bytes → List Bytes
pieces size zero rest = []
pieces size (suc rounds) rest = take size rest ∷ pieces size rounds (drop size rest)

abbrev pub concat : List Bytes → Bytes
concat [] = []
concat (b ∷ bs) = b ++ concat bs

nil_of_length : (xs : Bytes) → length xs ≤ 0 → xs ≡ []
nil_of_length [] h = refl
nil_of_length (x ∷ xs) h = absurd (omega arith)

pub concat-pieces :
    (size rounds : ℕ) (rest : Bytes)
    → length rest ≤ rounds * size
    → concat (pieces size rounds rest) ≡ rest
unfolding pieces
concat-pieces size zero rest h = let e = nil_of_length rest (omega arith) in cc
concat-pieces size (suc rounds) rest h =
    rw (concat-pieces size rounds (drop size rest) (grind (arith, length-drop size rest)))
      (take-drop size rest)

-- The file has one piece for each chunk that is counted, and these reach its end.
pub count_chunks-le :
    (size : ℕ) → 0 < size → size ≤ (size + chunk_size - 1) / chunk_size * chunk_size
count_chunks-le size h = omega arith

-- What is known of the chunk at a place: its index, the hash of its piece, and its length.
pub hash_chunks-get :
    (sha : Bytes → String) (size rounds i k : ℕ) (rest piece : Bytes)
    → get_elem? (pieces size rounds rest) k ≡ some piece
    → get_elem? (hash_chunks sha size rounds i rest) k
      ≡ some (record { index = i + k; hash = sha piece; size = length piece })
unfolding hash_chunks pieces
hash_chunks-get sha size zero i k rest piece h = cc
hash_chunks-get sha size (suc rounds) i zero rest piece h = ground arith
hash_chunks-get sha size (suc rounds) i (suc k) rest piece h =
    let ih = hash_chunks-get sha size rounds (suc i) k (drop size rest) piece h in ground arith

-- The writing loop leaves the files before its first chunk as they are.
write_chunks-before :
    (size rounds i j : ℕ) (rest : Bytes) (files : Indexed Bytes)
    → j < i
    → find j (write_chunks size rounds i rest files) ≡ find j files
unfolding write_chunks
write_chunks-before size zero i j rest files h = refl
write_chunks-before size (suc rounds) i j rest files h =
    let ih =
      write_chunks-before size rounds (suc i) j (drop size rest) (store i (take size rest) files)
        (omega arith) in
    ground (arith, find-store i j (take size rest) files)

-- It leaves each piece in the file with its index.
pub write_chunks-find :
    (size rounds i k : ℕ) (rest piece : Bytes) (files : Indexed Bytes)
    → get_elem? (pieces size rounds rest) k ≡ some piece
    → find (i + k) (write_chunks size rounds i rest files) ≡ some piece
unfolding write_chunks pieces
write_chunks-find size zero i k rest piece files h = cc
write_chunks-find size (suc rounds) i zero rest piece files h =
    let first = take size rest in
    let kept =
      write_chunks-before size rounds (suc i) i (drop size rest) (store i first files)
        (omega arith) in
    let e : i + 0 ≡ i = omega arith in rw e (kept ∙ (find-store i i first files ∙ ground arith))
write_chunks-find size (suc rounds) i (suc k) rest piece files h =
    let e : i + suc k ≡ suc i + k = omega arith in
    rw e (
      write_chunks-find size rounds (suc i) k (drop size rest) piece
        (store i (take size rest) files) h)

pub length-pieces : (size rounds : ℕ) (rest : Bytes) → length (pieces size rounds rest) ≡ rounds
unfolding pieces
length-pieces size zero rest = refl
length-pieces size (suc rounds) rest = omega (arith, length-pieces size rounds (drop size rest))

abbrev pub sum_sizes : List ChunkInfo → ℕ
sum_sizes [] = 0
sum_sizes (c ∷ cs) = c.size + sum_sizes cs

abbrev pub Sized : ℕ → List ChunkInfo → Type 0
Sized bound = All (λ c. (0 < c.size) × (c.size ≤ bound))

hash_chunks-sizes :
    (sha : Bytes → String) (size rounds i : ℕ) (rest : Bytes)
    → length rest ≤ rounds * size
    → sum_sizes (hash_chunks sha size rounds i rest) ≡ length rest
unfolding hash_chunks
hash_chunks-sizes sha size zero i rest h = omega arith
hash_chunks-sizes sha size (suc rounds) i rest h =
    let ih =
      hash_chunks-sizes sha size rounds (suc i) (drop size rest)
        (grind (arith, length-drop size rest)) in
    omega (arith, length-take size rest, length-drop size rest)

hash_chunks-Sized :
    (sha : Bytes → String) (size rounds i : ℕ) (rest : Bytes)
    → 0 < size
    → rounds * size < length rest + size
    → Sized size (hash_chunks sha size rounds i rest)
unfolding hash_chunks
hash_chunks-Sized sha size zero i rest p h = tt
hash_chunks-Sized sha size (suc rounds) i rest p h =
    let more : rounds * size < length rest = grind arith in
    (
      omega (arith, length-take size rest),
      hash_chunks-Sized sha size rounds (suc i) (drop size rest) p
          (omega (arith, length-drop size rest)),
    )

pub chunk_file-some :
    (sha : Bytes → String) (name : String) (bytes : Bytes) (meta : ChunkMetadata)
    → chunk_file sha name bytes ≡ some meta
    → (metadata_of sha name bytes ≡ meta) × (0 < length bytes)
unfolding chunk_file
chunk_file-some sha name bytes meta h = elim (Bool-cases (length bytes == 0)) [
  | inl e ↦ cc (rw (chunk_file, e) at h)
  | inr e ↦ (let same = rw (chunk_file, e) at h in cc, ground arith)
]

length-hash_chunks :
    (sha : Bytes → String) (size rounds i : ℕ) (rest : Bytes)
    → length (hash_chunks sha size rounds i rest) ≡ rounds
unfolding hash_chunks
length-hash_chunks sha size zero i rest = refl
length-hash_chunks sha size (suc rounds) i rest =
    omega (arith, length-hash_chunks sha size rounds (suc i) (drop size rest))

-- If a file is accepted, the chunks' sizes add up to that of the file, each chunk holds at least
-- one byte and at most the chunk size, and there are as many as are counted.
pub chunk_file-Sized :
    (sha : Bytes → String) (name : String) (bytes : Bytes) (meta : ChunkMetadata)
    → chunk_file sha name bytes ≡ some meta
    → (sum_sizes meta.chunks ≡ length bytes)
      × Sized chunk_size meta.chunks
      × (length meta.chunks ≡ meta.total_chunks)
chunk_file-Sized sha name bytes meta h =
    let (same, some_bytes) = chunk_file-some sha name bytes meta h in
    let total = count_chunks (length bytes) in
    rw (← same) (
      hash_chunks-sizes sha chunk_size total 0 bytes (count_chunks-le (length bytes) some_bytes),
      hash_chunks-Sized sha chunk_size total 0 bytes (omega arith) (omega arith),
      length-hash_chunks sha chunk_size total 0 bytes,
    )
