-- ===== src/Common/Netio/Tests.antt =====
-- The round trip, applied to a message of two bytes that is followed by another.
use p2p_file_sharing.Base.{ℕ, List, [], ◌∷◌, ◌++◌, Option, some, ◌≡◌, refl, arith}
use p2p_file_sharing.Common.Netio.{send, recv}
use p2p_file_sharing.Common.Netio.RoundTrip.{recv-send}

abbrev sent : List ℕ
sent = 0 ∷ 0 ∷ 0 ∷ 2 ∷ 123 ∷ 125 ∷ []

abbrev next : List ℕ
next = 0 ∷ 0 ∷ 0 ∷ 1 ∷ []

-- The encoding of a list of bytes by itself.
abbrev as_bytes : List ℕ → Option (List ℕ)
as_bytes bytes = some bytes

send_braces : send as_bytes (123 ∷ 125 ∷ []) ≡ some sent
unfolding send
send_braces = refl

recv-send_example : recv as_bytes (sent ++ next) ≡ some (123 ∷ 125 ∷ [], next)
recv-send_example =
    recv-send as_bytes as_bytes (123 ∷ 125 ∷ []) (123 ∷ 125 ∷ []) sent next refl refl (omega arith)
      send_braces
