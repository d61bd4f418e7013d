-- ===== src/Client/Tests.antt =====
-- A small file, shared by one peer and downloaded by another, on which the theorems are applied.
use p2p_file_sharing.Base.{
  Option, ◌⊎◌, In, str_eq, if◌then◌else◌, map, List, ℕ, String, true, false, [], ◌∷◌, length, ◌<◌,
  zero, suc, none, some, ◌==◌, ◌≡◌, ◌≢◌, refl, arith, ◌↔◌, inl, inr, eq_iff, Bool-cases,
}
use p2p_file_sharing.Base.Int.{pos, negsuc}
use p2p_file_sharing.Base.Map.{lookup, insert, get_flag}
use p2p_file_sharing.Base.Indexed.{find, store}
use p2p_file_sharing.Tracker.State as Tracker
use p2p_file_sharing.Tracker.State.{State, Group, Response, Codec}
use p2p_file_sharing.Tracker.Files.{file_key}
use p2p_file_sharing.Tracker.Server.{handle_conn}
use p2p_file_sharing.Tracker.Accounts.{create_user}
use p2p_file_sharing.Client.Commands.Answered.{Answered, simple_commands-Answered}
use p2p_file_sharing.Client.Commands.{
  simple_commands, sends_create_group, Encoding, upload_message, query_file_info, command,
}
use p2p_file_sharing.Client.Commands.Shared.{Agree, read_chunk, download_file-shared}
use p2p_file_sharing.Client.Chunk.{
  Bytes, ChunkMetadata, Disk, chunk_size, chunk_file, metadata_of, save_chunks,
}
use p2p_file_sharing.Client.Chunk.Pieces.{pieces, sum_sizes, Sized, chunk_file-Sized}
use p2p_file_sharing.Client.Peer.{
  Network, handle_peer_conn, query_bitfield, may_have, query_panics, get_bitfields_panics,
}
use p2p_file_sharing.Client.Peer.Bitfields.{query_bitfield-find}
use p2p_file_sharing.Client.Trackers.{Session, send_to_tracker}
use p2p_file_sharing.Client.Trackers.Failover.{Silent, send_to_tracker-first}
use p2p_file_sharing.Client.Rarity.{
  Bitfields, build_rarity_order, build_rarity_order-Ascending, Ascending, owners,
}
use p2p_file_sharing.Client.Download.{
  FileInfo, Ending, Ranged, download_file, fetch_file, fetch_chunks,
}
use p2p_file_sharing.Client.Download.Intact.{IsIntact, Progress}
use p2p_file_sharing.Client.Download.Assembly.{NoCollision}
use p2p_file_sharing.Client.Download.Folder.{folder, shared_as, download_file-Progress}
use p2p_file_sharing.Client.Download.Original.{download_file-original}
use p2p_file_sharing.Client.Download.Asked.{Meets}
use p2p_file_sharing.Client.Download.Served.{Serves, download_file-served}

-- A hash that tells apart the file of one byte, seven, from all others.
abbrev toy : Bytes → String
toy [] = "none"
toy (x ∷ []) = if x == 7 then "0123456789abcdef" else "other"
toy (x ∷ y ∷ l) = "long"

abbrev seven : Bytes
seven = 7 ∷ []

abbrev seven_meta : ChunkMetadata
seven_meta = metadata_of toy "seven.bin" seven

seven-accepted : chunk_file toy "seven.bin" seven ≡ some seven_meta
unfolding chunk_file
seven-accepted = refl

toy-seven : (b : Bytes) → toy b ≡ "0123456789abcdef" → b ≡ seven
toy-seven [] h = let t = (eq_iff "none" "0123456789abcdef").1 h in cc
toy-seven (x ∷ []) h = elim (Bool-cases (x == 7)) [
  | inl e ↦ let same : x ≡ 7 = ground arith in cc
  | inr e ↦ let t = (eq_iff "other" "0123456789abcdef").1 (rw e at h) in cc
]
toy-seven (x ∷ y ∷ l) h = let t = (eq_iff "long" "0123456789abcdef").1 h in cc

seven-NoCollision : NoCollision toy seven
unfolding pieces
seven-NoCollision zero piece b at same =
    let p : piece ≡ seven = cc in let q = toy-seven b (rw p at same) in cc
seven-NoCollision (suc k) piece b at same = cc

abbrev seed : Disk
seed = save_chunks [] seven seven_meta

abbrev town : Network
town peer req = some (handle_peer_conn (save_chunks [] seven seven_meta) req)

abbrev as_is : Ranged
as_is i m = m

as_is-Meets : Meets as_is
as_is-Meets i m e at = at

town-Serves : Serves town seven seven_meta ("host:1" ∷ [])
town-Serves p at = ([], λ req. refl)

nothing-IsIntact : IsIntact toy seven_meta.chunks (folder (shared_as seven_meta ("host:1" ∷ [])) [])
unfolding lookup find
nothing-IsIntact i b c there listed = cc

chunk_file-Sized_example :
    (sum_sizes seven_meta.chunks ≡ 1)
    × Sized chunk_size seven_meta.chunks
    × (length seven_meta.chunks ≡ seven_meta.total_chunks)
chunk_file-Sized_example = chunk_file-Sized toy "seven.bin" seven seven_meta seven-accepted

town_done :
    (download_file toy town as_is false (some (shared_as seven_meta ("host:1" ∷ []))) []).outcome
    ≡ Ending.done
town_done =
    (download_file-served toy town as_is false "seven.bin" seven seven_meta ("host:1" ∷ []) []
      seven-accepted as_is-Meets (omega arith) town-Serves (omega arith) seven-NoCollision
      nothing-IsIntact).0

download_file-original_example :
    (download_file toy town as_is false (some (shared_as seven_meta ("host:1" ∷ []))) []).dest
    ≡ some seven
download_file-original_example =
    download_file-original toy town as_is false "seven.bin" seven seven_meta ("host:1" ∷ []) []
      seven-accepted seven-NoCollision nothing-IsIntact town_done

download_file-served_example :
    ((download_file toy town as_is true (some (shared_as seven_meta ("host:1" ∷ []))) []).outcome
      ≡ Ending.done)
    × ((download_file toy town as_is true (some (shared_as seven_meta ("host:1" ∷ []))) []).dest
        ≡ some seven)
download_file-served_example =
    download_file-served toy town as_is true "seven.bin" seven seven_meta ("host:1" ∷ []) []
      seven-accepted as_is-Meets (omega arith) town-Serves (omega arith) seven-NoCollision
      nothing-IsIntact

-- A peer that does not answer leaves the folder as it was.
abbrev dead : Network
dead peer req = none

download_file-Progress_example :
    Progress toy seven_meta.chunks (folder (shared_as seven_meta ("host:1" ∷ [])) seed) (
      folder
        (shared_as seven_meta ("host:1" ∷ []))
        (download_file toy dead as_is false
          (some (shared_as seven_meta ("host:1" ∷ [])))
          seed).disk)
download_file-Progress_example =
    download_file-Progress toy dead as_is false (shared_as seven_meta ("host:1" ∷ [])) seed

-- A folder whose one chunk is not the file's.
abbrev spoilt : Disk
spoilt = (toy seven, record { files = (0, 8 ∷ []) ∷ []; metadata = none }) ∷ []

-- A peer that claims the chunk before the first.
abbrev liar : Network
liar peer req = some record { status = "ok"; body = []; bitfield = negsuc 0 ∷ [] }

liar_ends :
    (download_file toy liar as_is true (some (shared_as seven_meta ("host:1" ∷ []))) []).outcome
    ≡ Ending.panicked
unfolding download_file fetch_file get_bitfields_panics query_panics fetch_chunks lookup insert
liar_ends = refl

seed-lookup :
    lookup (toy seven) seed ≡ some (record { files = (0, seven) ∷ []; metadata = some seven_meta })
unfolding save_chunks lookup insert store
seed-lookup = refl

query_bitfield-find_example :
    (may_have (query_bitfield town "host:1" (toy seven)) 0 ≡ true)
    ↔ (find 0 ((0, seven) ∷ []) ≢ none)
query_bitfield-find_example =
    query_bitfield-find town "host:1" (toy seven) seed
      (record { files = (0, seven) ∷ []; metadata = some seven_meta }) 0 (λ req. refl) seed-lookup
      (omega arith)

abbrev known : Bitfields
known = ("host:1", some (true ∷ true ∷ [])) ∷ ("host:2", some (true ∷ [])) ∷ []

build_rarity_order-Ascending_example :
    ((i : ℕ) → In i (build_rarity_order known 2) ↔ (i < 2))
    × Ascending (owners known) (build_rarity_order known 2)
build_rarity_order-Ascending_example = build_rarity_order-Ascending known 2

-- The rarer chunk comes first.
rarest_first : build_rarity_order known 2 ≡ 1 ∷ 0 ∷ []
unfolding build_rarity_order
rarest_first = refl

-- Two trackers, of which the second answers, with what it is asked.
abbrev trackers : Session
trackers = record { tracker_addrs = "a" ∷ "b" ∷ []; active_trackers = "a" ∷ [] }

abbrev second : String → ℕ → Option ℕ
second a msg = if str_eq a "b" then some msg else none

send_to_tracker-first_example :
    ((a : String) × In a ("a" ∷ []) × (second a 5 ≡ some (send_to_tracker second 0 trackers 5)))
    ⊎ (Silent second 0 5 ("a" ∷ [])
        × (((a : String) × In a ("a" ∷ "b" ∷ [])
              × (second a 5 ≡ some (send_to_tracker second 0 trackers 5)))
            ⊎ (Silent second 0 5 ("a" ∷ "b" ∷ []) × (send_to_tracker second 0 trackers 5 ≡ 0))))
send_to_tracker-first_example = send_to_tracker-first second 0 trackers 5

-- A tracker at which the owner of the file is logged in and two users are members of a group, and
-- encodings that serve for this one file.
abbrev ann : Tracker.User
ann = record { user_id = "ann"; password = "p"; logged_in = true; addr = "host:1" }

abbrev club : Group
club = record {
  group_id = "club";
  owner = "ann";
  members = ("ann", true) ∷ ("bob", true) ∷ [];
  pending = [];
}

abbrev hall : State
hall = record { users = ("ann", ann) ∷ []; groups = ("club", club) ∷ []; files = [] }

abbrev seven_info : FileInfo
seven_info = shared_as seven_meta ("host:1" ∷ [])

abbrev writing : Encoding
writing = record {
  decimal = λ n. "1";
  chunks_json = λ cs. "chunks";
  decode_info = λ p. some seven_info;
}

abbrev reading : Codec
reading = record {
  parse_chunks = λ t. some (map read_chunk seven_meta.chunks);
  scan_size = λ t. pos 1;
}

seven-Agree : Agree writing reading seven_meta ("host:1" ∷ [])
seven-Agree = record { sizes = refl; chunks = refl; infos = refl }

bob_named : ◌≢◌ {A = String} "bob" ""
bob_named h = let t = (eq_iff "bob" "").1 h in cc

club_there : lookup "club" hall.groups ≡ some club
unfolding lookup
club_there = refl

ann_member : get_flag "ann" club.members ≡ true
unfolding get_flag lookup
ann_member = refl

bob_member : get_flag "bob" club.members ≡ true
unfolding get_flag lookup
bob_member = refl

ann_known : lookup "ann" hall.users ≡ some ann
unfolding lookup
ann_known = refl

seven_free : lookup (file_key "club" "seven.bin") hall.files ≡ none
unfolding lookup
seven_free = refl

download_file-shared_example :
    (t : State) × (taken answer : Response) × (es : List Tracker.Effect) × (handle_conn reading hall
        (upload_message writing "club" "ann" seven_meta)
      ≡ Tracker.Outcome.done t taken es)
    × (taken.status ≡ "ok")
    × (handle_conn reading t (command "get_file_info" ("club" ∷ "seven.bin" ∷ "bob" ∷ []))
        ≡ Tracker.Outcome.done t answer [])
    × ((download_file toy town as_is true (query_file_info writing answer) []).outcome
        ≡ Ending.done)
    × ((download_file toy town as_is true (query_file_info writing answer) []).dest ≡ some seven)
download_file-shared_example =
    download_file-shared toy town as_is true writing reading hall "club" "ann" "bob" "seven.bin"
      seven seven_meta club ann [] [] seven-Agree club_there ann_member bob_member bob_named
      ann_known refl seven_free seven-accepted (λ req. refl) as_is-Meets (omega arith)
      seven-NoCollision nothing-IsIntact

create_group_is : lookup "create_group" simple_commands ≡ some sends_create_group
unfolding lookup
create_group_is = refl

create_group_named :
    (◌≢◌ {A = String} "create_group" "create_user")
    × (◌≢◌ {A = String} "create_group" "list_requests")
    × (◌≢◌ {A = String} "create_group" "accept_request")
create_group_named = (
  λ h. let t = (eq_iff "create_group" "create_user").1 h in cc,
  λ h. let t = (eq_iff "create_group" "list_requests").1 h in cc,
  λ h. let t = (eq_iff "create_group" "accept_request").1 h in cc,
)

simple_commands-Answered_example : Answered reading (sends_create_group "ann" ("choir" ∷ []))
simple_commands-Answered_example =
    simple_commands-Answered reading "create_group" sends_create_group create_group_is
      create_group_named.0 create_group_named.1 create_group_named.2 "ann" ("choir" ∷ [])

-- A new user without a password ends the tracker.
no_password : handle_conn reading hall (command "create_user" ("eve" ∷ [])) ≡ Tracker.Outcome.panic
unfolding handle_conn lookup create_user
no_password = refl
