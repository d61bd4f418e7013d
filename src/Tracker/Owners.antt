-- ===== src/Tracker/Owners.antt =====
-- Why the owner of a group stays a member of it.
use p2p_file_sharing.Base.{String, ◌≡◌, List, true}
use p2p_file_sharing.Base.Map.{Every, get_flag}
use p2p_file_sharing.Tracker.State.{State, Outcome, after}

-- The owner of every group is a member of it.
abbrev pub OwnersBelong : State → Type 0
OwnersBelong s = Every (λ k x. get_flag x.owner x.members ≡ true) s.groups

abbrev KeepsOwners : String → (State → List String → Outcome) → Type 0
KeepsOwners cmd h =
    (s : State) (args : List String) → OwnersBelong s → OwnersBelong (after s (h s args))
