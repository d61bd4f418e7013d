-- ===== src/Common/Netio/RoundTrip.antt =====
-- What one side sends the other side receives.
use p2p_file_sharing.Base.{
  ℕ, ◌+◌, ◌*◌, ◌/◌, ◌%◌, ◌<◌, List, [], ◌∷◌, ◌++◌, length, Option, some, ◌≡◌, refl, arith, ap,
}
use p2p_file_sharing.Common.Netio.{put_uint32, uint32, read_full, send, recv}

read_full-append : (xs ys : List ℕ) → read_full (length xs) (xs ++ ys) ≡ some (xs, ys)
unfolding read_full
read_full-append [] ys = refl
read_full-append (x ∷ xs) ys = rw (read_full, read_full-append xs ys) refl

bytes_of_uint32 :
    (n : ℕ)
    → n < 4294967296
    → n / 16777216 * 16777216 + n / 65536 % 256 * 65536 + n / 256 % 256 * 256 + n % 256 ≡ n
bytes_of_uint32 n h = omega arith

uint32-put_uint32 : (n : ℕ) → n < 4294967296 → uint32 (put_uint32 n) ≡ some n
unfolding uint32 put_uint32
uint32-put_uint32 n h = ap some (omega (arith, bytes_of_uint32 n h))

-- The header is read off in one piece, whatever follows it.
read_full-put_uint32 :
    (n : ℕ) (xs ys : List ℕ)
    → read_full 4 ((put_uint32 n ++ xs) ++ ys) ≡ some (put_uint32 n, xs ++ ys)
unfolding read_full put_uint32
read_full-put_uint32 n xs ys = refl

recv-wire :
    {V : Type 0} (unmarshal : List ℕ → Option V) (v : V) (bytes rest : List ℕ)
    → unmarshal bytes ≡ some v
    → length bytes < 4294967296
    → recv unmarshal ((put_uint32 (length bytes) ++ bytes) ++ rest) ≡ some (v, rest)
unfolding recv
recv-wire unmarshal v bytes rest decodes fits =
    rw
      (
        recv,
        read_full-put_uint32 (length bytes) bytes rest,
        uint32-put_uint32 (length bytes) fits,
        read_full-append bytes rest,
        decodes,
      )
      refl

-- If the decoder gives back the value of the bytes that the encoder makes of it, and these are
-- fewer than 2 ^ 32, then receiving what was sent gives the value, and leaves the bytes that follow
-- it on the connection.
pub recv-send :
    {V : Type 0} (marshal : V → Option (List ℕ)) (unmarshal : List ℕ → Option V) (v : V)
    (bytes wire rest : List ℕ)
    → marshal v ≡ some bytes
    → unmarshal bytes ≡ some v
    → length bytes < 4294967296
    → send marshal v ≡ some wire
    → recv unmarshal (wire ++ rest) ≡ some (v, rest)
unfolding send
recv-send marshal unmarshal v bytes wire rest encodes decodes fits sent =
    let same : put_uint32 (length bytes) ++ bytes ≡ wire = ground arith in
    rw (← same) (recv-wire unmarshal v bytes rest decodes fits)
