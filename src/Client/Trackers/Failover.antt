-- ===== src/Client/Trackers/Failover.antt =====
-- Which tracker answers a client, and which ones it knows after the configuration is read.
use text.Mathlib.Text.{starts_with}
use mathlib.Core.Path.{subst}
use mathlib.Core.List.{append-nil}
use p2p_file_sharing.Base.{
  String, Bool, true, false, List, [], ◌∷◌, ◌++◌, In, In-append, Option, none, some, str_eq, ◌≡◌,
  ◌≢◌, refl, sym, ◌↔◌, ◌⊎◌, inl, inr, ap, ◌∙◌, Bool-cases, String-cases, Option-cases, not, eq_iff,
  arith,
}
use p2p_file_sharing.Client.Trackers.{
  Session, has, unseen, candidate_list, first_answer, send_to_tracker, responsive,
  update_active_trackers, config_addrs, or_default, read_addrs, load_tracker_config,
}

has_iff : (a : String) (l : List String) → (has a l ≡ true) ↔ In a l
has_iff a [] = (λ h. cc, λ m. absurd m)
has_iff a (b ∷ l) =
    let (there, back) = has_iff a l in
    elim (Bool-cases (str_eq b a)) [
      | inl e ↦ (λ h. inl ((eq_iff b a).0 e), λ m. rw e refl)
      | inr e ↦ (
        λ h. inr (there (rw e at h)),
        elim [ inl same ↦ let t = (eq_iff b a).1 same in cc | inr later ↦ rw e (back later) ],
      )
    ]

responsive-In :
    (reached : String → Bool) (addrs : List String) (a : String)
    → In a (responsive reached addrs) ↔ (In a addrs × (reached a ≡ true))
unfolding responsive
responsive-In reached [] a = (λ m. absurd m, λ h. absurd h.0)
responsive-In reached (b ∷ addrs) a =
    let (there, back) = responsive-In reached addrs a in
    elim (Bool-cases (reached b)) [
      | inl e ↦ rw e (
        elim [
          | inl same ↦ (inl same, ap reached (sym same) ∙ e)
          | inr later ↦ (inr (there later).0, (there later).1)
        ],
        λ h. elim h.0 [ inl same ↦ inl same | inr later ↦ inr (back (later, h.1)) ],
      )
      | inr e ↦ rw e (
        λ m. (inr (there m).0, (there m).1),
        λ h. elim h.0 [
          | inl same ↦ (let f = ap reached same in absurd cc)
          | inr later ↦ back (later, h.1)
        ],
      )
    ]

unseen_lem :
    (seen addrs : List String) → unseen seen addrs ≡ responsive (λ a. not (has a seen)) addrs
unfolding unseen responsive
unseen_lem seen [] = refl
unseen_lem seen (a ∷ addrs) = let ih = unseen_lem seen addrs in ground arith

unseen-In :
    (seen addrs : List String) (a : String)
    → In a (unseen seen addrs) ↔ (In a addrs × (not (has a seen) ≡ true))
unseen-In seen addrs a = rw (unseen_lem seen addrs) (responsive-In (λ b. not (has b seen)) addrs a)

-- The addresses that are tried are those that are known or answered.
candidate_list-In :
    (state : Session) (a : String)
    → In a state.active_trackers ⊎ In a state.tracker_addrs
    → In a (candidate_list state)
unfolding candidate_list
candidate_list-In state a m =
    let active = state.active_trackers in
    let (_, back) = In-append a active (unseen active state.tracker_addrs) in
    elim m [
      | inl m ↦ back (inl m)
      | inr m ↦ elim (Bool-cases (has a active)) [
        | inl e ↦ back (inl ((has_iff a active).0 e))
        | inr e ↦ back (inr ((unseen-In active state.tracker_addrs a).1 (m, rw e refl)))
      ]
    ]

module _ {Message Response : Type 0} (try_tracker : String → Message → Option Response)
    (unavailable : Response) where
  -- No address of a list answers.
  abbrev pub Silent : Message → List String → Type 0
  Silent msg addrs = (a : String) → In a addrs → try_tracker a msg ≡ none

  first_answer-append :
      (xs ys : List String) (msg : Message)
      → (Silent msg xs
          × (first_answer try_tracker unavailable (xs ++ ys) msg
              ≡ first_answer try_tracker unavailable ys msg))
        ⊎ ((a : String) × In a xs
            × (try_tracker a msg ≡ some (first_answer try_tracker unavailable (xs ++ ys) msg)))
  unfolding first_answer
  first_answer-append [] ys msg = inl (λ a m. absurd m, refl)
  first_answer-append (x ∷ xs) ys msg = elim (Option-cases (try_tracker x msg)) [
    | inr (r, e) ↦ inr (x, inl refl, rw (first_answer, e) refl)
    | inl e ↦ elim (first_answer-append xs ys msg) [
      | inl (silent, same) ↦ inl (
        λ a m. elim m [
          | inl p ↦ ap (λ z. try_tracker z msg) (sym p) ∙ e
          | inr later ↦ silent a later
        ],
        rw (first_answer, e) same,
      )
      | inr (a, m, same) ↦ inr (a, inr m, rw (first_answer, e) same)
    ]
  ]

  -- A message is answered by a tracker that was responsive; or else none of these answers, and it
  -- is answered by another that is known; or else none that is known or was responsive answers, and
  -- the client makes the error.
  pub send_to_tracker-first :
      (state : Session) (msg : Message)
      → ((a : String) × In a state.active_trackers
          × (try_tracker a msg ≡ some (send_to_tracker try_tracker unavailable state msg)))
        ⊎ (Silent msg state.active_trackers
            × (((a : String) × In a state.tracker_addrs
                  × (try_tracker a msg ≡ some (send_to_tracker try_tracker unavailable state msg)))
                ⊎ (Silent msg state.tracker_addrs
                    × (send_to_tracker try_tracker unavailable state msg ≡ unavailable))))
  unfolding send_to_tracker candidate_list
  send_to_tracker-first state msg =
      let active = state.active_trackers in
      let rest = unseen active state.tracker_addrs in
      elim (first_answer-append active rest msg) [
        | inr found ↦ inl found
        | inl (silent, same) ↦ inr (
          silent,
          elim (first_answer-append rest [] msg) [
            | inr (a, m, e) ↦ inl (
              a,
              ((unseen-In active state.tracker_addrs a).0 m).0,
              rw append-nil at e ∙ ap some (sym same),
            )
            | inl (quiet, none_left) ↦ inr (
              λ a m. elim (Bool-cases (has a active)) [
                | inl e ↦ silent a ((has_iff a active).0 e)
                | inr e ↦ quiet a ((unseen-In active state.tracker_addrs a).1 (m, rw e refl))
              ],
              same ∙ rw append-nil at none_left,
            )
          ],
        )
      ]

-- A line that is taken for an address.
abbrev pub Clean : String → Type 0
Clean a = (a ≢ "") × (starts_with a "#" ≡ false)

read_addrs-ne-nil : (lines : Option (List String)) → read_addrs lines ≢ []
read_addrs-ne-nil none = λ h. cc
read_addrs-ne-nil (some lines) = or_default-ne-nil (config_addrs lines)
  where
    or_default-ne-nil : (addrs : List String) → or_default addrs ≢ []
    or_default-ne-nil [] h = cc
    or_default-ne-nil (a ∷ addrs) h = cc

config_addrs-Clean : (lines : List String) (a : String) → In a (config_addrs lines) → Clean a
unfolding config_addrs
config_addrs-Clean [] a m = absurd m
config_addrs-Clean (line ∷ lines) a m =
    let ih = config_addrs-Clean lines a in
    elim (String-cases line "") [
      | inl (_, e) ↦ ih (rw (config_addrs, e) at m)
      | inr (n, e) ↦ elim (Bool-cases (starts_with line "#")) [
        | inl f ↦ ih (rw (config_addrs, e, f) at m)
        | inr f ↦ elim (rw (config_addrs, e, f) at m) [
          | inl same ↦ subst Clean same (n, f)
          | inr later ↦ ih later
        ]
      ]
    ]

default-Clean : (a : String) → In a ("127.0.0.1:9000" ∷ []) → Clean a
default-Clean a m = elim m [
  | inl same ↦ subst Clean same (λ h. let t = (eq_iff "127.0.0.1:9000" "").1 h in cc, refl)
  | inr later ↦ absurd later
]

read_addrs-Clean : (lines : Option (List String)) (a : String) → In a (read_addrs lines) → Clean a
read_addrs-Clean none = default-Clean
read_addrs-Clean (some lines) = or_default-Clean (config_addrs lines) (config_addrs-Clean lines)
  where
    or_default-Clean :
        (addrs : List String)
        → ((a : String) → In a addrs → Clean a)
        → (a : String) → In a (or_default addrs)
        → Clean a
    or_default-Clean [] h = default-Clean
    or_default-Clean (b ∷ addrs) h = h

-- Whatever the file holds, there is a tracker to try afterwards, no empty line or comment is taken
-- for an address, and the trackers that are tried first are exactly the addresses that accepted a
-- connection.
pub load_tracker_config-ready :
    (reached : String → Bool) (lines : Option (List String)) (state : Session)
    → let after = load_tracker_config reached lines state in
      (after.tracker_addrs ≢ [])
      × ((a : String) → In a after.tracker_addrs → Clean a)
      × ((a : String)
          → In a after.active_trackers ↔ (In a after.tracker_addrs × (reached a ≡ true)))
unfolding load_tracker_config update_active_trackers
load_tracker_config-ready reached lines state =
    (read_addrs-ne-nil lines, read_addrs-Clean lines, responsive-In reached (read_addrs lines))
