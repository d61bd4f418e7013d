-- ===== src/Client/Peer.antt =====
-- client/peer_server.go, and the requests to it in client/download.go. A directory that exists can
-- be listed, a file that exists can be read, and the index that is asked for is not negative.
pub mod Bitfields
use p2p_file_sharing.Base.{
  ℕ, zero, suc, String, Bool, true, false, List, [], ◌∷◌, map, Option, none, some, if◌then◌else◌,
  str_eq, ltb, length, ◌+◌, ◌&&◌, ◌||◌,
}
use p2p_file_sharing.Base.Int.{ℤ, pos, negsuc}
use p2p_file_sharing.Base.Map.{Map, lookup, insert}
use p2p_file_sharing.Base.Indexed.{Indexed, find}
use p2p_file_sharing.Client.Chunk.{Bytes, ChunkDir, Disk}

pub record PeerRequest : Type 0 where
  pub cmd : String
  pub file_hash : String
  pub piece_idx : ℕ

pub record PeerResponse : Type 0 where
  pub status : String
  pub body : Bytes
  pub bitfield : List ℤ

abbrev pub refused : PeerResponse
refused = record { status = "error"; body = []; bitfield = [] }

unfoldable pub handle_handshake : Disk → PeerRequest → PeerResponse
unfolding lookup
handle_handshake disk req = elim (lookup req.file_hash disk) [
  | none ↦ refused
  | some dir ↦ record { status = "ok"; body = []; bitfield = [] }
]

-- The answer to the read of a chunk file.
abbrev pub piece_or_refused : Option Bytes → PeerResponse
piece_or_refused none = refused
piece_or_refused (some bytes) = record { status = "ok"; body = bytes; bitfield = [] }

unfoldable pub handle_get_piece : Disk → PeerRequest → PeerResponse
unfolding lookup find
handle_get_piece disk req = elim (lookup req.file_hash disk) [
  | none ↦ refused
  | some dir ↦ piece_or_refused (find req.piece_idx dir.files)
]

-- The indices that `fmt.Sscanf` finds in the names of the entries; that of the metadata has none.
abbrev pub indices : Indexed Bytes → List ℕ
indices = map (λ e. e.0)

unfoldable pub handle_get_bitfield : Disk → PeerRequest → PeerResponse
unfolding lookup
handle_get_bitfield disk req = elim (lookup req.file_hash disk) [
  | none ↦ refused
  | some dir ↦ record { status = "ok"; body = []; bitfield = map pos (indices dir.files) }
]

-- `handlePeerConn`, from the request that was read to the response.
unfoldable pub handle_peer_conn : Disk → PeerRequest → PeerResponse
unfolding handle_handshake handle_get_piece handle_get_bitfield
handle_peer_conn disk req =
    if str_eq req.cmd "handshake"
    then handle_handshake disk req
    else if str_eq req.cmd "get_piece"
    then handle_get_piece disk req
    else if str_eq req.cmd "get_bitfield"
    then handle_get_bitfield disk req
    else refused

-- The peers as the network reaches them: the answer to a request, or none if the connection, the
-- sending or the receiving fails.
abbrev pub Network : Type 0
Network = String → PeerRequest → Option PeerResponse

abbrev pub handshake_with : String → PeerRequest
handshake_with hash = record { cmd = "handshake"; file_hash = hash; piece_idx = 0 }

abbrev pub get_piece_of : String → ℕ → PeerRequest
get_piece_of hash i = record { cmd = "get_piece"; file_hash = hash; piece_idx = i }

abbrev pub get_bitfield_of : String → PeerRequest
get_bitfield_of hash = record { cmd = "get_bitfield"; file_hash = hash; piece_idx = 0 }

abbrev pub is_ok : Option PeerResponse → Bool
is_ok none = false
is_ok (some r) = str_eq r.status "ok"

abbrev pub body_of : Option PeerResponse → Option Bytes
body_of none = none
body_of (some r) = if str_eq r.status "ok" then some r.body else none

-- `requestChunk`: a handshake, and then the piece on a connection of its own; none is an error.
unfoldable pub request_chunk : Network → String → String → ℕ → Option Bytes
request_chunk net peer hash i =
    if is_ok (net peer (handshake_with hash))
    then body_of (net peer (get_piece_of hash i))
    else none

abbrev pub larger : ℕ → ℕ → ℕ
larger a b = if ltb a b then b else a

unfoldable pub max_index : ℕ → List ℕ → ℕ
max_index m [] = m
max_index m (i ∷ is) = max_index (larger m i) is

-- `bf[i] = true` on a slice, for an index in range.
unfoldable pub set_true : ℕ → List Bool → List Bool
set_true i [] = []
set_true zero (b ∷ bs) = true ∷ bs
set_true (suc i) (b ∷ bs) = b ∷ set_true i bs

unfoldable pub set_all : List ℕ → List Bool → List Bool
unfolding set_true
set_all [] bs = bs
set_all (i ∷ is) bs = set_all is (set_true i bs)

abbrev pub falses : ℕ → List Bool
falses zero = []
falses (suc n) = false ∷ falses n

-- An index that is not negative.
abbrev pub natural_index : ℤ → ℕ
natural_index (pos n) = n
natural_index (negsuc n) = 0

-- The conversion of a list of indices that is not empty.
abbrev pub bits_of : List ℕ → Option (List Bool)
bits_of [] = none
bits_of (i ∷ is) = some (set_all (i ∷ is) (falses (max_index 0 (i ∷ is) + 1)))

abbrev pub bits_or_nil : Option PeerResponse → Option (List Bool)
bits_or_nil none = none
bits_or_nil (some r) = if str_eq r.status "ok" then bits_of (map natural_index r.bitfield) else none

-- `bf[idx] = true` panics on a negative index.
abbrev pub has_negative : List ℤ → Bool
has_negative [] = false
has_negative (pos n ∷ is) = has_negative is
has_negative (negsuc n ∷ is) = true

abbrev pub answer_panics : Option PeerResponse → Bool
answer_panics none = false
answer_panics (some r) = str_eq r.status "ok" && has_negative r.bitfield

-- Whether `queryBitfield` panics.
unfoldable pub query_panics : Network → String → String → Bool
query_panics net peer hash = answer_panics (net peer (get_bitfield_of hash))

-- What `queryBitfield` returns if it does not panic; none is nil.
unfoldable pub query_bitfield : Network → String → String → Option (List Bool)
unfolding set_all max_index
query_bitfield net peer hash = bits_or_nil (net peer (get_bitfield_of hash))

-- Whether a bitfield has a chunk: nil stands for all of them.
abbrev pub bit_at : List Bool → ℕ → Bool
bit_at [] i = false
bit_at (b ∷ bs) zero = b
bit_at (b ∷ bs) (suc i) = bit_at bs i

abbrev pub may_have : Option (List Bool) → ℕ → Bool
may_have none i = true
may_have (some bits) i = bit_at bits i

unfoldable pub query_all : Network → List String → String → Map (Option (List Bool))
unfolding query_bitfield
query_all net [] hash = []
query_all net (peer ∷ peers) hash =
    let rest = query_all net peers hash in
    elim (query_bitfield net peer hash) [ none ↦ rest | some bits ↦ insert peer (some bits) rest ]

abbrev pub all_unknown : List String → Map (Option (List Bool))
all_unknown [] = []
all_unknown (peer ∷ peers) = insert peer none (all_unknown peers)

abbrev pub or_unknown : List String → Map (Option (List Bool)) → Map (Option (List Bool))
or_unknown peers [] = all_unknown peers
or_unknown peers (e ∷ found) = e ∷ found

-- Whether `getBitfields` panics, at one of the peers.
unfoldable pub get_bitfields_panics : Network → List String → String → Bool
unfolding query_panics
get_bitfields_panics net [] hash = false
get_bitfields_panics net (peer ∷ peers) hash =
    query_panics net peer hash || get_bitfields_panics net peers hash

-- What `getBitfields` returns if it does not panic.
unfoldable pub get_bitfields : Network → List String → String → Map (Option (List Bool))
unfolding query_all insert
get_bitfields net peers hash = or_unknown peers (query_all net peers hash)
