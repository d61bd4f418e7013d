-- ===== src/Client/Commands/Answered.antt =====
-- Which commands the tracker answers, whatever their arguments and its state.
use p2p_file_sharing.Base.{
  String, Bool, true, false, not, ◌&&◌, List, [], ◌∷◌, some, if◌then◌else◌, str_eq, ◌≡◌, ◌≢◌, refl,
  inl, inr, Bool-cases, Option-cases,
}
use p2p_file_sharing.Base.Map.{Map, lookup, get_flag, Rows-Every, ◌&◌}
use p2p_file_sharing.Tracker.State.{Group, State, Message, Codec, Outcome, panic}
use p2p_file_sharing.Tracker.Groups.{create_group, join_group, leave_group, list_groups}
use p2p_file_sharing.Tracker.Files.{list_files, stop_sharing, file_key}
use p2p_file_sharing.Tracker.Server.{handle_conn, client_routes}
use p2p_file_sharing.Client.Commands.{
  Sent, quiet, panics, message, simple_commands, if_user, command, sends_create_group,
  sends_list_files, sends_list_groups, sends_stop_sharing, sends_join_group, sends_leave_group,
}

-- What the tracker does with a message is no panic.
abbrev pub Answered : Codec → Sent → Type 0
Answered codec (message msg) = (s : State) → handle_conn codec s msg ≢ panic
Answered codec quiet = Unit
Answered codec panics = Unit

if_user-Answered :
    (codec : Codec) (user : String) (msg : Message)
    → ((s : State) → handle_conn codec s msg ≢ panic)
    → Answered codec (if_user user msg)
if_user-Answered codec user msg h = elim (Bool-cases (str_eq user "")) [
  | inl e ↦ rw e tt
  | inr e ↦ rw e h
]

if_answers : (b : Bool) (x y : Outcome) → x ≢ panic → y ≢ panic → (if b then x else y) ≢ panic
if_answers true x y p q = p
if_answers false x y p q = q

module _ (codec : Codec) where
  routed :
      (cmd : String) (args : List String) (handler : State → List String → Outcome)
      → lookup cmd (client_routes codec) ≡ some handler
      → ((s : State) → handler s args ≢ panic)
      → (s : State) → handle_conn codec s (command cmd args) ≢ panic
  unfolding handle_conn
  routed cmd args handler e h s = rw (handle_conn, e) (h s)

  create_group-Answered :
      (user : String) (args : List String) → Answered codec (sends_create_group user args)
  unfolding lookup create_group
  create_group-Answered user [] = tt
  create_group-Answered user (g ∷ rest) =
      routed "create_group" (g ∷ user ∷ []) create_group refl (λ s.
        elim (Option-cases (lookup g s.groups)) [
          | inl e ↦ rw (create_group, e) (λ p. cc)
          | inr (x, e) ↦ rw (create_group, e) (λ p. cc)
        ])

  join_group-Answered :
      (user : String) (args : List String) → Answered codec (sends_join_group user args)
  unfolding lookup join_group
  join_group-Answered user [] = tt
  join_group-Answered user (g ∷ rest) =
      if_user-Answered codec user (command "join_group" (g ∷ user ∷ [])) (
        routed "join_group" (g ∷ user ∷ []) join_group refl (λ s.
          elim (Option-cases (lookup g s.groups)) [
            | inl e ↦ rw (join_group, e) (λ p. cc)
            | inr (x, e) ↦ rw (join_group, e) (λ p. cc)
          ]))

  leave_group-Answered :
      (user : String) (args : List String) → Answered codec (sends_leave_group user args)
  unfolding lookup leave_group
  leave_group-Answered user [] = tt
  leave_group-Answered user (g ∷ rest) =
      if_user-Answered codec user (command "leave_group" (g ∷ user ∷ [])) (
        routed "leave_group" (g ∷ user ∷ []) leave_group refl (λ s.
          elim (Option-cases (lookup g s.groups)) [
            | inl e ↦ rw (leave_group, e) (λ p. cc)
            | inr (x, e) ↦
                rw (leave_group, e)
                  (if_answers (str_eq x.owner user) _ _ (λ p. cc)
                    (if_answers (get_flag user x.members) _ _ (λ p. cc) (λ p. cc)))
          ]))

  list_groups-Answered :
      (user : String) (args : List String) → Answered codec (sends_list_groups user args)
  unfolding lookup list_groups
  list_groups-Answered user args =
      routed "list_groups" [] list_groups refl (λ s. answers s.groups s refl)
    where
      answers : (gs : Map Group) (s : State) → s.groups ≡ gs → list_groups s [] ≢ panic
      answers [] s e = rw (list_groups, e) (λ p. cc)
      answers (g ∷ gs) s e = rw (list_groups, e) (λ p. cc)

  list_files-Answered :
      (user : String) (args : List String) → Answered codec (sends_list_files user args)
  unfolding lookup list_files
  list_files-Answered user [] = tt
  list_files-Answered user (g ∷ rest) = routed "list_files" (g ∷ user ∷ []) list_files refl (λ s.
      elim (Option-cases (lookup g s.groups)) [
        | inl e ↦ rw (list_files, e) (λ p. cc)
        | inr (x, e) ↦
            rw (list_files, e)
              (if_answers (not (str_eq user "") && not (get_flag user x.members)) _ _ (λ p. cc)
                (λ p. cc))
      ])

  stop_sharing-Answered :
      (user : String) (args : List String) → Answered codec (sends_stop_sharing user args)
  unfolding lookup stop_sharing
  stop_sharing-Answered user [] = tt
  stop_sharing-Answered user (g ∷ []) = tt
  stop_sharing-Answered user (g ∷ name ∷ rest) =
      if_user-Answered codec user (command "stop_sharing" (g ∷ name ∷ user ∷ [])) (
        routed "stop_sharing" (g ∷ name ∷ user ∷ []) stop_sharing refl (λ s.
          elim (Option-cases (lookup (file_key g name) s.files)) [
            | inl e ↦ rw (stop_sharing, e) (λ p. cc)
            | inr (x, e) ↦ rw (stop_sharing, e) (λ p. cc)
          ]))

  -- A command that the tracker survives.
  abbrev pub IsAnswered : String → (String → List String → Sent) → Type 0
  IsAnswered cmd sends =
      cmd ≢ "create_user"
      → cmd ≢ "list_requests"
      → cmd ≢ "accept_request"
      → (user : String) (args : List String) → Answered codec (sends user args)

  -- Of these commands all but three, `create_user`, `list_requests` and `accept_request`, send no
  -- message that ends the tracker: whoever is logged in, whatever arguments are given, and
  -- whatever state the tracker is in, it answers.
  pub simple_commands-Answered :
      (cmd : String) (sends : String → List String → Sent)
      → lookup cmd simple_commands ≡ some sends
      → cmd ≢ "create_user"
      → cmd ≢ "list_requests"
      → cmd ≢ "accept_request"
      → (user : String) (args : List String) → Answered codec (sends user args)
  simple_commands-Answered = Rows-Every IsAnswered simple_commands (
      (λ a b c user args. absurd (a refl))
      & (λ a b c. create_group-Answered)
      & (λ a b c. list_files-Answered)
      & (λ a b c. list_groups-Answered)
      & (λ a b c. stop_sharing-Answered)
      & (λ a b c. join_group-Answered)
      & (λ a b c. leave_group-Answered)
      & (λ a b c user args. absurd (b refl))
      & (λ a b c user args. absurd (c refl))
      & tt)
