-- ===== src/Tracker/Tests.antt =====
-- A small tracker on which the theorems are applied.
use p2p_file_sharing.Base.{
  ◌*◌, ◌/◌, leb, if◌then◌else◌, map, String, ◌≡◌, refl, ◌≢◌, ◌⊎◌, ◌↔◌, List, [], ◌∷◌, Option, In,
  none, some, arith, true, false, eq_iff,
}
use p2p_file_sharing.Base.Int.{ℤ, pos, negsuc}
use p2p_file_sharing.Base.Map.{Map, lookup, insert, Rows-Every, get_flag, delete}
use p2p_file_sharing.Tracker.State.{State, User, Group, File, Message, Payload, ok, after, Codec}
use p2p_file_sharing.Tracker.Accounts.{create_user}
use p2p_file_sharing.Tracker.Groups.{create_group, join_group, accept_request, leave_group}
use p2p_file_sharing.Tracker.Files.{
  file_key, upload_file, get_file_info, get_peer_addresses, stop_sharing, add_seeder,
}
use p2p_file_sharing.Tracker.Sync.Replica.{IsReplicated, handlers-IsReplicated}
use p2p_file_sharing.Tracker.Sync.PingPong.{in_flight, Held, stop_message, stop_sharing_endless}
use p2p_file_sharing.Tracker.Server.{handle_conn}
use p2p_file_sharing.Tracker.Rejoin.{save_state, rejoin}
use p2p_file_sharing.Tracker.Rejoin.Kept.{first_snapshot, IsUnion, rejoin-IsUnion}
use p2p_file_sharing.Tracker.Valid.{FileIsValid, IsValid}
use p2p_file_sharing.Tracker.Valid.Server.{handle_conn-IsValid}
use p2p_file_sharing.Tracker.Access.{
  is_member, answer, get_file_info-is_member, upload_file-is_member,
}
use p2p_file_sharing.Tracker.Peers.{OnlineOwner, get_peer_addresses_iff}
use p2p_file_sharing.Tracker.Membership.{Admitted, client_routes-Admits}

-- A decoder that reads no chunks, and every size as five.
abbrev codec : Codec
codec = record { parse_chunks = λ s. some []; scan_size = λ s. pos 5 }

abbrev ann : User
ann = record { user_id = "ann"; password = "p"; logged_in = true; addr = "host:1" }

abbrev bob : User
bob = record { user_id = "bob"; password = "q"; logged_in = false; addr = "host:2" }

abbrev club : Group
club = record {
  group_id = "club";
  owner = "ann";
  members = ("ann", true) ∷ [];
  pending = ("bob", true) ∷ [];
}

-- A song that two users share.
abbrev song : File
song = record {
  file_name = "song";
  group_id = "club";
  uploader = "ann";
  file_size = pos 5;
  file_hash = "h";
  chunk_size = 524288;
  total_chunks = 0;
  chunks = [];
  owners = ("ann", true) ∷ ("bob", true) ∷ [];
}

abbrev town : State
town = record {
  users = ("ann", ann) ∷ ("bob", bob) ∷ [];
  groups = ("club", club) ∷ [];
  files = ("club:song", song) ∷ [];
}

town-IsValid : IsValid town
unfolding lookup file_key
town-IsValid = record {
  users_keyed = Rows-Every _ town.users (refl, (refl, tt));
  groups_keyed = Rows-Every _ town.groups (refl, tt);
  files_valid =
      Rows-Every (FileIsValid town.groups) town.files
        (record { keyed = refl; counted = refl; owned = λ e. cc; grouped = λ e. cc }, tt);
}

abbrev arrival : Message
arrival = record { cmd = "create_user"; args = "eve" ∷ "r" ∷ [] }

handle_conn-IsValid_example : IsValid (after town (handle_conn codec town arrival))
handle_conn-IsValid_example = handle_conn-IsValid codec town arrival town-IsValid

-- A peer that has taken a user in while the tracker was down; the peer before it is down, too.
abbrev peers_since : List (Option State)
peers_since = none ∷ some (after town (handle_conn codec town arrival)) ∷ []

-- A number in a float: as it is up to 2 ^ 53, and then even.
abbrev in_float : ℤ → ℤ
in_float (pos n) = pos (if leb n 9007199254740992 then n else n / 2 * 2)
in_float (negsuc n) = negsuc n

abbrev rounded : Map File → Map File
rounded = map (λ e. (e.0, record (e.1) { file_size = in_float e.1.file_size }))

abbrev through_floats : State → Option State
through_floats s = some record s { files = rounded s.files }

rejoin-IsUnion_example :
    IsValid (rejoin (save_state town) through_floats peers_since)
    × IsUnion town
        (first_snapshot through_floats peers_since)
        (rejoin (save_state town) through_floats peers_since)
unfolding handle_conn lookup create_user first_snapshot
rejoin-IsUnion_example =
    rejoin-IsUnion town through_floats peers_since town-IsValid handle_conn-IsValid_example

handlers-IsReplicated_example :
    IsReplicated codec create_user
    × IsReplicated codec create_group
    × IsReplicated codec join_group
    × IsReplicated codec accept_request
    × IsReplicated codec leave_group
    × IsReplicated codec stop_sharing
    × IsReplicated codec add_seeder
handlers-IsReplicated_example = handlers-IsReplicated codec

song-Held : Held (file_key "club" "song") "ann" town
unfolding file_key lookup delete
song-Held = record { file = song; stored = refl; shared = λ e. cc }

stop_sharing_endless_example :
    in_flight codec 7 town town (stop_message codec "club" "song" "ann" [])
    ≡ some (stop_message codec "club" "song" "ann" [])
stop_sharing_endless_example =
    stop_sharing_endless codec "club" "song" "ann" [] 7 town town song-Held song-Held

get_peer_addresses_iff_example :
    In "host:1" (get_peer_addresses town.users song.owners)
    ↔ OnlineOwner town.users song.owners "host:1"
get_peer_addresses_iff_example = get_peer_addresses_iff town.users "host:1" song.owners

accepted_bob :
    is_member (after town (accept_request town ("club" ∷ "ann" ∷ "bob" ∷ []))) "club" "bob" ≡ true
unfolding accept_request lookup get_flag insert
accepted_bob = refl

client_routes-Admits_example :
    (is_member town "club" "bob" ≡ true)
    ⊎ Admitted town "accept_requests" ("club" ∷ "ann" ∷ "bob" ∷ []) "club" "bob"
unfolding lookup
client_routes-Admits_example =
    client_routes-Admits codec "accept_requests" accept_request refl town
      ("club" ∷ "ann" ∷ "bob" ∷ []) "club" "bob" accepted_bob

abbrev song_data : Payload
song_data = Payload.file_info record {
  file_name = "song";
  file_hash = "h";
  file_size = pos 5;
  chunk_size = 524288;
  total_chunks = 0;
  chunks = [];
  peers = "host:1" ∷ [];
}

song_read : answer (get_file_info town ("club" ∷ "song" ∷ "ann" ∷ [])) ≡ some (ok song_data)
unfolding get_file_info lookup get_flag file_key get_peer_addresses
song_read = refl

ann-ne : ◌≢◌ {A = String} "ann" ""
ann-ne e = ground (arith, eq_iff "ann" "")

get_file_info-is_member_example : is_member town "club" "ann" ≡ true
get_file_info-is_member_example =
    get_file_info-is_member town "club" "song" "ann" [] song_data ann-ne song_read

abbrev uploaded : Payload
uploaded = Payload.file_uploaded record {
  file_name = "b";
  group_id = "club";
  file_size = pos 5;
  uploader = "ann";
  hashed = none;
}

upload_done : answer (upload_file codec town ("b" ∷ "club" ∷ "ann" ∷ "5" ∷ [])) ≡ some (ok uploaded)
unfolding upload_file lookup get_flag file_key
upload_done = refl

upload_file-is_member_example :
    (is_member town "club" "ann" ≡ true) × (lookup (file_key "club" "b") town.files ≡ none)
upload_file-is_member_example =
    upload_file-is_member codec town "b" "club" "ann" "5" [] uploaded upload_done
