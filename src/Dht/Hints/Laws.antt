-- ===== src/Dht/Hints/Laws.antt =====
-- The bound on the hints of a node, and which hints a delivery removes.
use p2p_file_sharing.Base.{
  ℕ, zero, suc, ◌+◌, ◌≤◌, ◌<◌, String, Bool, true, false, List, [], ◌∷◌, length, length-append,
  Option, none, some, if◌then◌else◌, str_eq, ◌≡◌, refl, ap, ◌↔◌, inl, inr, arith, In, eq_iff,
  eq_refl, ◌==◌, ==_iff, Bool-cases, Option-cases,
}
use p2p_file_sharing.Base.Map.{
  Map, Every, Every-insert, Every-delete, lookup, lookup-insert, lookup-delete,
}
use p2p_file_sharing.Dht.Clock.{VectorClock}
use p2p_file_sharing.Dht.Value.{HintedWrite, Storage, Node}
use p2p_file_sharing.Dht.Hints.{
  hint_storage_limit, hints_or_empty, add_hint, new_hint, is_delivered, undelivered, deliver_all,
  put_back, store_hint, remove_delivered, retry,
}

-- No target has more hints than the limit.
abbrev pub IsBounded : {V : Type 0} → Map (List (HintedWrite V)) → Type 0
IsBounded = Every (λ k hs. length hs ≤ hint_storage_limit)

add_hint-le :
    {V : Type 0} (h : HintedWrite V) (hs : List (HintedWrite V))
    → length hs ≤ hint_storage_limit
    → length (add_hint h hs) ≤ hint_storage_limit
unfolding add_hint
add_hint-le h [] b = omega arith
add_hint-le h (x ∷ hs) b =
    ground (arith, length-append (x ∷ hs) (h ∷ []), length-append hs (h ∷ []))

undelivered-le :
    {V : Type 0} (ks : List String) (hs : List (HintedWrite V))
    → length (undelivered ks hs) ≤ length hs
unfolding undelivered
undelivered-le ks [] = omega arith
undelivered-le ks (h ∷ hs) = ground (arith, undelivered-le ks hs)

put_back-IsBounded :
    {V : Type 0} (target : String) (hs : List (HintedWrite V)) (m : Map (List (HintedWrite V)))
    → length hs ≤ hint_storage_limit
    → IsBounded m
    → IsBounded (put_back target hs m)
put_back-IsBounded target [] m h b = Every-delete _ target m b
put_back-IsBounded target (x ∷ hs) m h b = Every-insert _ target (x ∷ hs) m b h

-- A filter by a computed test, one element further.
filter_step :
    {A : Type 0} (x h : A) (xs ys : List A) (test : A → Bool)
    → (In h ys ↔ (In h xs × (test h ≡ false)))
    → In h (if test x then ys else x ∷ ys) ↔ (In h (x ∷ xs) × (test h ≡ false))
filter_step x h xs ys test ih = elim (Bool-cases (test x)) [
  | inl e ↦ rw e (
    λ m. (inr (ih.0 m).0, (ih.0 m).1),
    λ (m, f). elim m [ inl p ↦ absurd (ground (arith, ap test p)) | inr q ↦ ih.1 (q, f) ],
  )
  | inr e ↦ rw e (
    elim [ inl p ↦ (inl p, rw (← p) e) | inr q ↦ (inr (ih.0 q).0, (ih.0 q).1) ],
    λ (m, f). elim m [ inl p ↦ inl p | inr q ↦ inr (ih.1 (q, f)) ],
  )
]

-- A hint remains exactly if it was there and its key is not among the delivered ones.
undelivered_iff :
    {V : Type 0} (ks : List String) (hs : List (HintedWrite V)) (h : HintedWrite V)
    → In h (undelivered ks hs) ↔ (In h hs × (is_delivered ks h ≡ false))
unfolding undelivered
undelivered_iff ks [] h = (λ x. absurd x, λ (x, _). absurd x)
undelivered_iff ks (x ∷ hs) h =
    filter_step x h hs (undelivered ks hs) (is_delivered ks) (undelivered_iff ks hs h)

-- The keys of the hints whose delivery succeeded.
deliver_all-In :
    {V : Type 0} (sent : HintedWrite V → Bool) (hs : List (HintedWrite V)) (h : HintedWrite V)
    → In h hs
    → sent h ≡ true
    → is_delivered (deliver_all sent hs) h ≡ true
unfolding deliver_all is_delivered
deliver_all-In sent [] h m e = absurd m
deliver_all-In sent (x ∷ hs) h (inl p) e =
    ground (arith, ap sent p, ap (λ (y : HintedWrite _). y.key) p, eq_iff h.key x.key)
deliver_all-In sent (x ∷ hs) h (inr m) e = ground (arith, deliver_all-In sent hs h m e)

is_delivered-key :
    {V : Type 0} (ks : List String) (g h : HintedWrite V)
    → g.key ≡ h.key
    → is_delivered ks g ≡ is_delivered ks h
unfolding is_delivered
is_delivered-key [] g h e = refl
is_delivered-key (k ∷ ks) g h e = cc (is_delivered-key ks g h e)

-- The hints for a target, read from a node.
abbrev pub hints_for : {V : Type 0} {st : Storage V} → Node st → String → List (HintedWrite V)
hints_for c target = hints_or_empty (lookup target c.hints)

put_back-lookup :
    {V : Type 0} (target j : String) (hs : List (HintedWrite V)) (m : Map (List (HintedWrite V)))
    → hints_or_empty (lookup j (put_back target hs m))
      ≡ (if str_eq target j then hs else hints_or_empty (lookup j m))
put_back-lookup target j [] m = ground (arith, lookup-delete target j m)
put_back-lookup target j (x ∷ hs) m = ground (arith, lookup-insert target j (x ∷ hs) m)

absent_hints :
    {V : Type 0} (target j : String) (ks : List String) (m : Map (List (HintedWrite V)))
    → lookup target m ≡ none
    → hints_or_empty (lookup j m) ≡ (
        if str_eq target j
        then undelivered ks (hints_or_empty (lookup j m))
        else hints_or_empty (lookup j m))
unfolding undelivered
absent_hints target j ks m e = ground (arith, eq_iff target j)

present_hints :
    {V : Type 0} (target j : String) (ks : List String) (hs : List (HintedWrite V))
    (m : Map (List (HintedWrite V)))
    → lookup target m ≡ some hs
    → hints_or_empty (lookup j (put_back target (undelivered ks hs) m)) ≡ (
        if str_eq target j
        then undelivered ks (hints_or_empty (lookup j m))
        else hints_or_empty (lookup j m))
present_hints target j ks hs m e =
    ground (arith, eq_iff target j, put_back-lookup target j (undelivered ks hs) m)

undelivered-nil : {V : Type 0} (hs : List (HintedWrite V)) → undelivered [] hs ≡ hs
unfolding undelivered is_delivered
undelivered-nil [] = refl
undelivered-nil (h ∷ hs) = rw (undelivered-nil hs)

module _ {V : Type 0} (st : Storage V) where
  -- Storing a hint keeps the bound of a thousand hints for every target.
  pub store_hint-IsBounded :
      (c : Node st) (target key : String) (value : Option V) (vc : VectorClock) (now : ℕ)
      → IsBounded c.hints
      → IsBounded (store_hint st c target key value vc now).hints
  unfolding store_hint
  store_hint-IsBounded c target key value vc now b = Every-insert _ target _ c.hints b (
      add_hint-le (new_hint target key value vc now) (hints_or_empty (lookup target c.hints))
        (elim (Option-cases (lookup target c.hints)) [
          | inl e ↦ rw e (omega arith)
          | inr (hs, e) ↦ rw e (b target hs e)
        ]))

  remove_delivered-hints :
      (c : Node st) (target j : String) (ks : List String)
      → hints_for (remove_delivered st c target ks) j
        ≡ (if str_eq target j then undelivered ks (hints_for c j) else hints_for c j)
  unfolding remove_delivered
  remove_delivered-hints c target j [] = rw (undelivered-nil (hints_for c j)) (ground arith)
  remove_delivered-hints c target j (k ∷ ks) = elim (Option-cases (lookup target c.hints)) [
    | inl e ↦ rw (e, remove_delivered) (absent_hints target j (k ∷ ks) c.hints e)
    | inr (hs, e) ↦ rw (e, remove_delivered) (present_hints target j (k ∷ ks) hs c.hints e)
  ]

  -- After a round of `processHints` for a target, with `sent` the deliveries that succeed among the
  -- copied hints: a hint for the target remains exactly if it was there and no delivered hint has
  -- its key. The hints for other targets are as they were.
  pub remove_delivered_iff :
      (c : Node st) (target : String) (sent : HintedWrite V → Bool) (copied : List (HintedWrite V))
      (h : HintedWrite V) (j : String)
      → let c' = remove_delivered st c target (deliver_all sent copied) in
        (In h (hints_for c' target)
          ↔ (In h (hints_for c target) × (is_delivered (deliver_all sent copied) h ≡ false)))
        × (hints_for c' j ≡ (if str_eq target j then hints_for c' target else hints_for c j))
  remove_delivered_iff c target sent copied h j =
      let ks = deliver_all sent copied in
      (
        rw (remove_delivered-hints c target target ks, eq_refl)
            (undelivered_iff ks (hints_for c target) h),
        ground (
          arith,
          remove_delivered-hints c target j ks,
          remove_delivered-hints c target target ks,
          eq_iff target j,
        ),
      )

  -- A hint is dropped undelivered whenever the round delivers another hint for the same key: here
  -- `second` is not sent, and it is gone all the same.
  pub remove_delivered_drops :
      (c : Node st) (target : String) (sent : HintedWrite V → Bool) (first second : HintedWrite V)
      → In first (hints_for c target)
      → In second (hints_for c target)
      → first.key ≡ second.key
      → sent first ≡ true
      → sent second ≡ false
      → ¬ In second
          (hints_for (remove_delivered st c target (deliver_all sent (hints_for c target))) target)
  unfolding is_delivered
  remove_delivered_drops c target sent first second p q same yes_sent not_sent m =
      let kept = (remove_delivered_iff c target sent (hints_for c target) second target).0.0 m in
      let gone = deliver_all-In sent (hints_for c target) first p yes_sent in
      ground (arith, is_delivered-key (deliver_all sent (hints_for c target)) first second same)

-- A loop of tries succeeds exactly if one of its tries does.
pub retry_iff :
    (attempts i : ℕ) (try : ℕ → Bool)
    → (retry attempts try i ≡ true) ↔ ((n : ℕ) × (i ≤ n) × (n < i + attempts) × (try n ≡ true))
unfolding retry
retry_iff zero i try = (λ h. cc, λ (n, a, b, t). absurd (omega arith))
retry_iff (suc attempts) i try =
    let (there, back) = retry_iff attempts (suc i) try in
    elim (Bool-cases (try i)) [
      | inl e ↦ rw e (λ _. (i, omega arith, omega arith, e), λ _. refl)
      | inr e ↦ rw e (
        λ h. let (n, a, b, t) = there h in (n, omega arith, omega arith, t),
        λ (n, a, b, t). elim (Bool-cases (n == i)) [
          | inl p ↦ absurd (ground (arith, ap try ((==_iff n i).0 p)))
          | inr p ↦ back (n, ground arith, omega arith, t)
        ],
      )
    ]
