-- ===== src/Common/Netio.antt =====
-- common/netio.go: a message is sent as four bytes with its length, the highest first, and its
-- JSON. A connection is the list of the bytes that are still to be read.
pub mod RoundTrip
mod Tests
use p2p_file_sharing.Base.{
  ℕ, zero, suc, ◌+◌, ◌*◌, ◌/◌, ◌%◌, List, [], ◌∷◌, ◌++◌, length, Option, none, some, ◌>>=◌,
}

-- `binary.BigEndian.PutUint32(length, uint32(n))`; the conversion to 32 bits wraps around.
unfoldable pub put_uint32 : ℕ → List ℕ
put_uint32 n =
    let m = n % 4294967296 in m / 16777216 ∷ m / 65536 % 256 ∷ m / 256 % 256 ∷ m % 256 ∷ []

-- `binary.BigEndian.Uint32`; a shorter buffer panics, which is none here and never happens.
unfoldable pub uint32 : List ℕ → Option ℕ
uint32 (a ∷ b ∷ c ∷ d ∷ _) = some (a * 16777216 + b * 65536 + c * 256 + d)
uint32 _ = none

-- `io.ReadFull` into a buffer of `n` bytes: the bytes and what is left, or the error.
unfoldable pub read_full : ℕ → List ℕ → Option (List ℕ × List ℕ)
read_full zero stream = some ([], stream)
read_full (suc n) [] = none
read_full (suc n) (b ∷ stream) = do (bytes, rest) ← read_full n stream; some (b ∷ bytes, rest)

module _ {V : Type 0} where
  -- `Send`: what it writes, or the error of `json.Marshal`. The writes succeed.
  unfoldable pub send : (V → Option (List ℕ)) → V → Option (List ℕ)
  unfolding put_uint32
  send marshal v = do bytes ← marshal v; some (put_uint32 (length bytes) ++ bytes)

  -- `Recv`: the value and what is left on the connection, or an error.
  unfoldable pub recv : (List ℕ → Option V) → List ℕ → Option (V × List ℕ)
  unfolding read_full uint32
  recv unmarshal stream = do
    (header, body) ← read_full 4 stream
    n ← uint32 header
    (bytes, rest) ← read_full n body
    v ← unmarshal bytes
    some (v, rest)
