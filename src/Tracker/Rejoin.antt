-- ===== src/Tracker/Rejoin.antt =====
-- tracker/persistence.go, and `pullStateFromPeers` of tracker/sync.go: how a tracker gets its state back. The
-- file that is written can be written, and JSON gives back what it was made of.
pub mod Kept
use p2p_file_sharing.Base.{List, [], ◌∷◌, Option, none, some}
use p2p_file_sharing.Base.Map.{Map}
use p2p_file_sharing.Tracker.State.{State, User, Group, File}
use p2p_file_sharing.Tracker.Sync.{merge_state}

-- `TrackerState`; a field that the file leaves out is nil (none).
pub record TrackerState : Type 0 where
  pub users : Option (Map User)
  pub groups : Option (Map Group)
  pub files : Option (Map File)

-- The state file: there is none, or it holds something else, or a state.
pub data StateFile : Type 0 where
  missing : StateFile
  unreadable : StateFile
  holds : TrackerState → StateFile

-- `SaveState`
unfoldable pub save_state : State → StateFile
save_state s = holds (record { users = some s.users; groups = some s.groups; files = some s.files })

abbrev pub or_own {ℓ} : {A : Type ℓ} → Option A → A → A
or_own none a = a
or_own (some b) a = b

-- `LoadState`: an error leaves the state as it is, and so does a field that is nil.
unfoldable pub load_state : StateFile → State → State
load_state missing s = s
load_state unreadable s = s
load_state (holds saved) s = record {
  users = or_own saved.users s.users;
  groups = or_own saved.groups s.groups;
  files = or_own saved.files s.files;
}

-- `pullStateFromPeers`, over the states that the peers answer with, none of one that does not.
-- `decoded` is what the JSON package makes of one that is read into an `interface{}`, written again
-- and read into a `SyncSnapshot`: its numbers go through floats there, so large ones are rounded,
-- and none is an error.
unfoldable pub pull_state_from_peers : (State → Option State) → List (Option State) → State → State
unfolding merge_state
pull_state_from_peers decoded [] s = s
pull_state_from_peers decoded (none ∷ answers) s = pull_state_from_peers decoded answers s
pull_state_from_peers decoded (some answer ∷ answers) s =
    let rest = pull_state_from_peers decoded answers s in
    elim (decoded answer) [ none ↦ rest | some snap ↦ merge_state s snap ]

-- A start with the maps of `var users = make(...)`: what is loaded, and then what is pulled.
abbrev pub empty_state : State
empty_state = record { users = []; groups = []; files = [] }

-- The start as `main` does it, if no message is handled before the snapshot is merged.
unfoldable pub rejoin : StateFile → (State → Option State) → List (Option State) → State
unfolding load_state pull_state_from_peers
rejoin file decoded answers = pull_state_from_peers decoded answers (load_state file empty_state)
