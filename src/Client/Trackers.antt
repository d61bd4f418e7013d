-- ===== src/Client/Trackers.antt =====
-- client/tracker_conn.go: the trackers that a client knows, and those that answered when it looked.
pub mod Failover
use text.Mathlib.Text.{starts_with}
use mathlib.Core.Path.{subst}
use mathlib.Core.List.{append-nil}
use p2p_file_sharing.Base.{
  String, Bool, true, false, List, [], ◌∷◌, ◌++◌, In, In-append, Option, none, some, if◌then◌else◌,
  str_eq, ◌≡◌, ◌≢◌, refl, sym, ◌↔◌, ◌⊎◌, inl, inr, ap, ◌∙◌, Bool-cases, String-cases, Option-cases,
  ◌||◌, not, eq_iff, arith,
}

-- `State`, as far as the trackers go.
pub record Session : Type 0 where
  pub tracker_addrs : List String
  pub active_trackers : List String

abbrev pub has : String → List String → Bool
has a [] = false
has a (b ∷ bs) = str_eq b a || has a bs

-- The known addresses that are not in `seen`.
unfoldable pub unseen : List String → List String → List String
unseen seen [] = []
unseen seen (a ∷ addrs) = let rest = unseen seen addrs in if has a seen then rest else a ∷ rest

unfoldable pub candidate_list : Session → List String
unfolding unseen
candidate_list state = state.active_trackers ++ unseen state.active_trackers state.tracker_addrs

-- `try_tracker addr msg` is the answer over the network, if the tracker can be reached and answers.
-- `unavailable` is the error that the client makes itself.
module _ {Message Response : Type 0} (try_tracker : String → Message → Option Response)
    (unavailable : Response) where
  unfoldable pub first_answer : List String → Message → Response
  first_answer [] msg = unavailable
  first_answer (a ∷ addrs) msg =
      let rest = first_answer addrs msg in elim (try_tracker a msg) [ none ↦ rest | some r ↦ r ]

  -- `SendToTracker`
  unfoldable pub send_to_tracker : Session → Message → Response
  unfolding first_answer candidate_list
  send_to_tracker state msg = first_answer (candidate_list state) msg

-- `UpdateActiveTrackers`, from which addresses accept a connection.
unfoldable pub responsive : (String → Bool) → List String → List String
responsive reached [] = []
responsive reached (a ∷ addrs) =
    let rest = responsive reached addrs in if reached a then a ∷ rest else rest

unfoldable pub update_active_trackers : (String → Bool) → Session → Session
unfolding responsive
update_active_trackers reached state = record {
  tracker_addrs = state.tracker_addrs;
  active_trackers = responsive reached state.tracker_addrs;
}

-- The addresses among the lines of the file, which are trimmed.
unfoldable pub config_addrs : List String → List String
config_addrs [] = []
config_addrs (line ∷ lines) =
    let rest = config_addrs lines in
    if str_eq line "" then rest else if starts_with line "#" then rest else line ∷ rest

abbrev pub or_default : List String → List String
or_default [] = "127.0.0.1:9000" ∷ []
or_default (a ∷ addrs) = a ∷ addrs

abbrev pub read_addrs : Option (List String) → List String
read_addrs none = "127.0.0.1:9000" ∷ []
read_addrs (some lines) = or_default (config_addrs lines)

-- `LoadTrackerConfig`; no lines if the file cannot be opened.
unfoldable pub load_tracker_config : (String → Bool) → Option (List String) → Session → Session
unfolding update_active_trackers config_addrs
load_tracker_config reached lines state =
    update_active_trackers reached
      (record { tracker_addrs = read_addrs lines; active_trackers = state.active_trackers })
