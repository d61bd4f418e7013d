-- ===== src/Client/Download/Assembly.antt =====
-- Chunks with the listed hashes, put together, are the file.
use mathlib.Core.List.{append-nil, append_assoc}
use p2p_file_sharing.Base.{
  ℕ, zero, suc, ◌+◌, ◌<◌, String, List, [], ◌∷◌, ◌++◌, length, get_elem?, some, ◌≡◌, refl, ap,
  arith,
}
use p2p_file_sharing.Base.Indexed.{Indexed, find}
use p2p_file_sharing.Client.Chunk.{Bytes, chunk_size, count_chunks, metadata_of}
use p2p_file_sharing.Client.Chunk.Pieces.{
  pieces, concat, concat-pieces, count_chunks-le, hash_chunks-get, length-pieces,
}
use p2p_file_sharing.Client.Download.{Ending, assemble}
use p2p_file_sharing.Client.Download.Intact.{IsIntact, Present}

-- The assembly of chunks that are all there.
pub assemble-pieces :
    (parts : List Bytes) (i : ℕ) (files : Indexed Bytes) (written : Bytes)
    → ((k : ℕ) (b : Bytes) → get_elem? parts k ≡ some b → find (i + k) files ≡ some b)
    → assemble (length parts) i files written ≡ (Ending.done, written ++ concat parts)
unfolding assemble
assemble-pieces [] i files written there = rw (append-nil written) refl
assemble-pieces (p ∷ parts) i files written there =
    let e : i + 0 ≡ i = omega arith in
    let first : find i files ≡ some p = rw e at (there 0 p refl) in
    let rest =
      assemble-pieces parts (suc i) files (written ++ p)
        (λ k b h. let f : i + suc k ≡ suc i + k = omega arith in rw f at (there (suc k) b h)) in
    rw (assemble, first, rest, append_assoc) refl

-- The pieces of a file.
abbrev pub pieces_of : Bytes → List Bytes
pieces_of original = pieces chunk_size (count_chunks (length original)) original

-- No other bytes have the hash of a piece of the file.
abbrev pub NoCollision : (Bytes → String) → Bytes → Type 0
NoCollision sha original =
    (k : ℕ) (piece b : Bytes)
    → get_elem? (pieces_of original) k ≡ some piece
    → sha b ≡ sha piece
    → b ≡ piece

get-lt : {A : Type 0} (xs : List A) (k : ℕ) (a : A) → get_elem? xs k ≡ some a → k < length xs
get-lt [] k a h = cc
get-lt (x ∷ xs) zero a h = omega arith
get-lt (x ∷ xs) (suc k) a h = omega (arith, get-lt xs k a h)

module _ (sha : Bytes → String) (name : String) (original : Bytes)
    (safe : NoCollision sha original) where
  -- A chunk file with the listed hash is the piece.
  intact-piece :
      (k : ℕ) (piece : Bytes) (files : Indexed Bytes)
      → IsIntact sha (metadata_of sha name original).chunks files
      → get_elem? (pieces_of original) k ≡ some piece
      → Present k files
      → find k files ≡ some piece
  intact-piece k piece files intact at (b, there) =
      let listed =
        hash_chunks-get sha chunk_size (count_chunks (length original)) 0 k original piece at in
      let same = safe k piece b at (intact k b _ there listed) in rw there (ap some same)

  -- So the assembly of intact chunks gives the file.
  pub assemble-original :
      (files : Indexed Bytes)
      → 0 < length original
      → IsIntact sha (metadata_of sha name original).chunks files
      → ((i : ℕ) → i < count_chunks (length original) → Present i files)
      → assemble (count_chunks (length original)) 0 files [] ≡ (Ending.done, original)
  assemble-original files some_bytes intact all =
      let total = count_chunks (length original) in
      let counted = length-pieces chunk_size total original in
      let whole =
        concat-pieces chunk_size total original (count_chunks-le (length original) some_bytes) in
      let e = assemble-pieces (pieces_of original) 0 files [] (λ k b at.
        let f : 0 + k ≡ k = omega arith in
        rw f (
          intact-piece k b files intact at
            (all k (omega (arith, get-lt (pieces_of original) k b at, counted))))) in
      rw counted at (rw whole at e)
