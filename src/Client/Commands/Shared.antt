-- ===== src/Client/Commands/Shared.antt =====
-- A file that one client shares through a tracker and another downloads.
use Prim.Native.String.{len}
use p2p_file_sharing.Base.{
  suc, ◌≤◌, ◌*◌, String, Bool, true, false, List, [], ◌∷◌, map, length, none, some, str_eq, ◌≡◌,
  ◌≢◌, refl, sym, ap, ◌∙◌, arith, inl, inr, eq_iff,
}
use p2p_file_sharing.Base.Int.{pos}
use p2p_file_sharing.Base.Map.{lookup, insert, get_flag, lookup-insert_self}
use p2p_file_sharing.Tracker.State as Tracker
use p2p_file_sharing.Tracker.State.{
  State, Chunk, File, Group, User, Message, Payload, Response, Codec,
}
use p2p_file_sharing.Tracker.Files.{
  file_key, chunk_args, receipt, upload_file, store_upload, get_file_info, find_file_info,
  get_peer_addresses,
}
use p2p_file_sharing.Tracker.Server.{handle_conn, client_routes}
use p2p_file_sharing.Client.Chunk.{Bytes, ChunkInfo, ChunkMetadata, Disk, chunk_file}
use p2p_file_sharing.Client.Chunk.{save_chunks}
use p2p_file_sharing.Client.Chunk.Pieces.{chunk_file-some, chunk_file-Sized}
use p2p_file_sharing.Client.Peer.{Network, PeerRequest, handle_peer_conn}
use p2p_file_sharing.Client.Download.{FileInfo, Ranged, Ending, download_file}
use p2p_file_sharing.Client.Download.Intact.{IsIntact}
use p2p_file_sharing.Client.Download.Assembly.{NoCollision}
use p2p_file_sharing.Client.Download.Asked.{Meets}
use p2p_file_sharing.Client.Download.Served.{download_file-served}
use p2p_file_sharing.Client.Download.Folder.{shared_as, folder}
use p2p_file_sharing.Client.Commands.{Encoding, upload_message, query_file_info, command}

-- A chunk as the tracker reads it.
abbrev pub read_chunk : ChunkInfo → Chunk
read_chunk c = record { index = pos c.index; hash = c.hash; size = pos c.size }

abbrev pub sent_info : FileInfo → Tracker.FileInfo
sent_info fi = record {
  file_name = fi.file_name;
  file_hash = fi.file_hash;
  file_size = pos fi.file_size;
  chunk_size = fi.chunk_size;
  total_chunks = fi.total_chunks;
  chunks = map read_chunk fi.chunks;
  peers = fi.peers;
}

-- What the client writes of a file the tracker reads as it is meant, and the client reads what the
-- tracker answers as it is meant.
pub record Agree (enc : Encoding) (codec : Codec) (meta : ChunkMetadata) (peers : List String)
    : Type 0 where
  pub sizes : codec.scan_size (enc.decimal meta.file_size) ≡ pos meta.file_size
  pub chunks : codec.parse_chunks (enc.chunks_json meta.chunks) ≡ some (map read_chunk meta.chunks)
  pub infos :
      enc.decode_info (Payload.file_info (sent_info (shared_as meta peers)))
      ≡ some (shared_as meta peers)

-- The file that the tracker keeps.
abbrev pub kept_file : ChunkMetadata → String → String → File
kept_file meta group user = record {
  file_name = meta.file_name;
  group_id = group;
  uploader = user;
  file_size = pos meta.file_size;
  file_hash = meta.file_hash;
  chunk_size = 512 * 1024;
  total_chunks = length (map read_chunk meta.chunks);
  chunks = map read_chunk meta.chunks;
  owners = (user, true) ∷ [];
}

abbrev pub with_file : State → ChunkMetadata → String → String → State
with_file s meta group user = record s {
  files = insert (file_key group meta.file_name) (kept_file meta group user) s.files;
}

read-length : (cs : List ChunkInfo) → length (map read_chunk cs) ≡ length cs
read-length [] = refl
read-length (c ∷ cs) = ap suc (read-length cs)

upload_route :
    (codec : Codec) → lookup "upload_file" (client_routes codec) ≡ some (upload_file codec)
unfolding lookup
upload_route codec = refl

info_route : (codec : Codec) → lookup "get_file_info" (client_routes codec) ≡ some get_file_info
unfolding lookup
info_route codec = refl

module _ (enc : Encoding) (codec : Codec) (s : State) (group user : String) (grp : Group)
    (there : lookup group s.groups ≡ some grp) (meta : ChunkMetadata) (peers : List String)
    (agree : Agree enc codec meta peers) where
  -- The tracker takes the upload of a member under a free name.
  handle_conn-upload :
      get_flag user grp.members ≡ true
      → lookup (file_key group meta.file_name) s.files ≡ none
      → handle_conn codec s (upload_message enc group user meta)
        ≡ Tracker.Outcome.done
            (with_file s meta group user)
            (Tracker.ok (receipt (kept_file meta group user)))
            (Tracker.broadcast (record {
              cmd = "sync_upload_file";
              args = (upload_message enc group user meta).args;
            })
              ∷ Tracker.save
              ∷ [])
  unfolding handle_conn upload_message upload_file store_upload chunk_args
  handle_conn-upload member free =
      rw
        (
          handle_conn,
          upload_route codec,
          upload_file,
          chunk_args,
          agree.chunks,
          store_upload,
          there,
          member,
          free,
          agree.sizes,
        )
        refl

  -- A member who asks afterwards is answered with the metadata and the uploader's address.
  handle_conn-info :
      (other : String) (u : User)
      → get_flag other grp.members ≡ true
      → other ≢ ""
      → lookup user s.users ≡ some u
      → u.logged_in ≡ true
      → length meta.chunks ≡ meta.total_chunks
      → meta.chunk_size ≡ 512 * 1024
      → handle_conn codec
          (with_file s meta group user)
          (command "get_file_info" (group ∷ meta.file_name ∷ other ∷ []))
        ≡ Tracker.Outcome.done
            (with_file s meta group user)
            (Tracker.ok (Payload.file_info (sent_info (shared_as meta (u.addr ∷ [])))))
            []
  unfolding handle_conn get_file_info find_file_info get_peer_addresses
  handle_conn-info other u member named known online counted sized =
      let e : str_eq other "" ≡ false = ground (arith, eq_iff other "") in
      rw
        (
          handle_conn,
          info_route codec,
          get_file_info,
          e,
          there,
          member,
          find_file_info,
          lookup-insert_self,
          get_peer_addresses,
          known,
          online,
        )
        (rw (read-length meta.chunks ∙ counted, sized) refl)

queried :
    (enc : Encoding) (codec : Codec) (meta : ChunkMetadata) (peers : List String)
    (agree : Agree enc codec meta peers)
    → query_file_info enc (Tracker.ok (Payload.file_info (sent_info (shared_as meta peers))))
      ≡ some (shared_as meta peers)
unfolding query_file_info
queried enc codec meta peers agree = rw (query_file_info, agree.infos) refl

-- A file is shared by a user and downloaded by another: if the user is a member of the group, is
-- logged in at the address under which a peer serves the user's disk, and the name is free, and the
-- other is a member too; if the texts that the client writes are read by the tracker as they were
-- meant, and the other way round, the hash has at least sixteen characters and no other bytes have
-- the hash of a piece, and what the other's folder has of the file is intact; then the tracker
-- takes the upload, answers the other's query, and the download that follows ends without an error
-- and writes exactly the file.
pub download_file-shared :
    (sha : Bytes → String) (net : Network) (ranged : Ranged) (rarest : Bool) (enc : Encoding)
    (codec : Codec) (s : State) (group user other name : String) (original : Bytes)
    (meta : ChunkMetadata) (grp : Group) (u : User) (mine disk : Disk)
    → Agree enc codec meta (u.addr ∷ [])
    → lookup group s.groups ≡ some grp
    → get_flag user grp.members ≡ true
    → get_flag other grp.members ≡ true
    → other ≢ ""
    → lookup user s.users ≡ some u
    → u.logged_in ≡ true
    → lookup (file_key group meta.file_name) s.files ≡ none
    → chunk_file sha name original ≡ some meta
    → ((req : PeerRequest)
        → net u.addr req ≡ some (handle_peer_conn (save_chunks mine original meta) req))
    → Meets ranged
    → 16 ≤ len meta.file_hash
    → NoCollision sha original
    → IsIntact sha meta.chunks (folder (shared_as meta (u.addr ∷ [])) disk)
    → (t : State) × (taken answer : Response) × (es : List Tracker.Effect) × (handle_conn codec s
          (upload_message enc group user meta)
        ≡ Tracker.Outcome.done t taken es)
      × (taken.status ≡ "ok")
      × (handle_conn codec t (command "get_file_info" (group ∷ meta.file_name ∷ other ∷ []))
          ≡ Tracker.Outcome.done t answer [])
      × ((download_file sha net ranged rarest (query_file_info enc answer) disk).outcome
          ≡ Ending.done)
      × ((download_file sha net ranged rarest (query_file_info enc answer) disk).dest
          ≡ some original)
download_file-shared sha net ranged rarest enc codec s group user other name original meta grp u
      mine disk agree there member member' named known online free accepted serves meets long safe
      intact =
    let peers = u.addr ∷ [] in
    let (same, _) = chunk_file-some sha name original meta accepted in
    let (_, _, counted) = chunk_file-Sized sha name original meta accepted in
    let sized : meta.chunk_size ≡ 512 * 1024 = rw (← same) refl in
    let answer = Tracker.ok (Payload.file_info (sent_info (shared_as meta peers))) in
    let asked = queried enc codec meta peers agree in
    let (ends, written) =
      download_file-served sha net ranged rarest name original meta peers disk accepted meets
        (omega arith)
        (λ p at. (
          mine,
          elim at [ inl e ↦ λ req. ap (λ q. net q req) (sym e) ∙ serves req | inr m ↦ absurd m ],
        ))
        long safe intact in
    (
      with_file s meta group user,
      Tracker.ok (receipt (kept_file meta group user)),
      answer,
      _,
      handle_conn-upload enc codec s group user grp there meta peers agree member free,
      refl,
      handle_conn-info enc codec s group user grp there meta peers agree other u member' named known
          online counted sized,
      rw asked ends,
      rw asked written,
    )
