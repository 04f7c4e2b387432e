-- ===== src/FileSync/Stages/Deletes.antt =====
-- Nodes from which files are deleted, and nodes whose record is saved.
use netbox_conductor.Base.{
  ℕ, ◌+◌, String, Bool, true, false, ◌||◌, ◌≡◌, refl, ◌⊎◌, inl, inr, Option, none, some, is_some,
  List, [], ◌∷◌, ◌++◌, map, ◌==◌, ==_iff, All, Bool-cases, arith,
}
use netbox_conductor.TaskWatch.{contains}
use netbox_conductor.FileSync.{Plan, copies}
use netbox_conductor.FileSync.Batches.{batches}
use netbox_conductor.FileSync.Stages.{
  NodeState, SyncFinishResult, Answers, Effect, delete_asked, saved, check_space, receive_one,
  receive_all, senders, send_batches, send_all, result_error, finished_error, finish_error,
  finish_one, finish_effects, deletes_of, delete_batches, delete_one, delete_all, synced,
  save_record, carry_out_plan,
}

-- Which sender failed for a receiver.
abbrev pub send_errors : Answers → Plan → List NodeState → ℕ → Option ℕ
send_errors a p states =
    (send_all a p (receive_all a p (map (check_space p) states)).1 (senders p.copied) (λ n. none)).0

All-append : (P : Effect → Type 0) (xs ys : List Effect) → All P xs → All P ys → All P (xs ++ ys)
All-append P [] ys h k = k
All-append P (x ∷ xs) ys h k = (h.0, All-append P xs ys h.1 k)

module _ (a : Answers) (p : Plan) (errs : ℕ → Option ℕ) where
  -- All that the plan copies to the node arrived.
  abbrev pub Arrived : ℕ → Type 0
  Arrived n =
      (copies n p.copied ≡ 0)
      ⊎ ((errs n ≡ none)
          × (a.dropped n ≡ false)
          × ((r : SyncFinishResult) × (a.finished n ≡ some r)
              × (r.errors ≡ 0)
              × (r.copied + r.skipped ≡ copies n p.copied)))

  -- All that the plan deletes on the node is deleted.
  abbrev pub Cleared : ℕ → Type 0
  Cleared n = All (λ b. a.delete_ok n b ≡ true) (batches (deletes_of n p.deletes))

  -- Deletions are asked of nodes where all arrived, and the record is of nodes that are also cleared.
  abbrev pub IsCareful : Effect → Type 0
  IsCareful (delete_asked n paths) = Arrived n
  IsCareful (saved nodes) = All (λ n. Arrived n × Cleared n) nodes
  IsCareful _ = Unit

  abbrev Ready : List ℕ → NodeState → Type 0
  Ready receiving s =
      is_some s.err ≡ false → (copies s.node p.copied ≡ 0) ⊎ (contains receiving s.node ≡ true)

  abbrev ArrivedIfFine : NodeState → Type 0
  ArrivedIfFine s = is_some s.err ≡ false → Arrived s.node

  abbrev ClearedIfFine : NodeState → Type 0
  ClearedIfFine s = is_some s.err ≡ false → Arrived s.node × Cleared s.node

  Ready-more :
      (n : ℕ) (receiving : List ℕ) (states : List NodeState)
      → All (Ready receiving) states
      → All (Ready (n ∷ receiving)) states
  Ready-more n receiving [] r = tt
  Ready-more n receiving (s ∷ states) r = (more, Ready-more n receiving states r.1)
    where
      more : Ready (n ∷ receiving) s
      more e = elim (r.0 e) [ inl z ↦ inl z | inr c ↦ inr (ground arith) ]

  receive_all-Ready :
      (states : List NodeState) → All (Ready (receive_all a p states).1) (receive_all a p states).0
  unfolding receive_all receive_one
  receive_all-Ready [] = tt
  receive_all-Ready (s ∷ states) =
      elim (Bool-cases (is_some s.err || copies s.node p.copied == 0)) [
        | inl skip ↦ rw skip (skipped skip, receive_all-Ready states)
        | inr go ↦ elim (Bool-cases (a.receive_ok s.node)) [
          | inl ok ↦
              rw (go, ok)
                (
                  λ e. inr (ground arith),
                  Ready-more s.node (receive_all a p states).1 (receive_all a p states).0
                      (receive_all-Ready states),
                )
          | inr bad ↦ rw (go, bad) ((λ e. absurd (ground arith)), receive_all-Ready states)
        ]
      ]
    where
      skipped :
          (is_some s.err || copies s.node p.copied == 0) ≡ true → Ready (receive_all a p states).1 s
      skipped skip e = inl ((==_iff (copies s.node p.copied) 0).0 (rw e at skip))

  result_error-none :
      (r : SyncFinishResult) (want : ℕ)
      → is_some (result_error r want) ≡ false
      → (r.errors ≡ 0) × (r.copied + r.skipped ≡ want)
  unfolding result_error
  result_error-none r want e = ground arith

  finish_error-none :
      (o : Option ℕ) (d : Bool) (f : Option SyncFinishResult) (want : ℕ)
      → is_some (finish_error o d f want) ≡ false
      → (o ≡ none)
        × (d ≡ false)
        × ((r : SyncFinishResult) × (f ≡ some r) × (r.errors ≡ 0) × (r.copied + r.skipped ≡ want))
  unfolding finish_error finished_error
  finish_error-none (some source) d f want e = absurd (ground arith)
  finish_error-none none true f want e = absurd (ground arith)
  finish_error-none none false none want e = absurd (ground arith)
  finish_error-none none false (some r) want e =
      let k = result_error-none r want e in (refl, refl, (r, refl, k.0, k.1))

  finish_one-ArrivedIfFine :
      (receiving : List ℕ) (s : NodeState)
      → Ready receiving s
      → ArrivedIfFine (finish_one a p receiving errs s)
  unfolding finish_one
  finish_one-ArrivedIfFine receiving s r = elim (Bool-cases (contains receiving s.node)) [
    | inl c ↦ rw c (λ e. inr (
        finish_error-none (errs s.node) (a.dropped s.node) (a.finished s.node)
          (copies s.node p.copied) e))
    | inr c ↦ rw c (λ e. not_receiving c (r e))
  ]
    where
      not_receiving :
          contains receiving s.node ≡ false
          → (copies s.node p.copied ≡ 0) ⊎ (contains receiving s.node ≡ true)
          → Arrived s.node
      not_receiving c (inl z) = inl z
      not_receiving c (inr t) = absurd (ground arith)

  finish_all-ArrivedIfFine :
      (receiving : List ℕ) (states : List NodeState)
      → All (Ready receiving) states
      → All ArrivedIfFine (map (finish_one a p receiving errs) states)
  finish_all-ArrivedIfFine receiving [] r = tt
  finish_all-ArrivedIfFine receiving (s ∷ states) r =
      (finish_one-ArrivedIfFine receiving s r.0, finish_all-ArrivedIfFine receiving states r.1)

  delete_batches-IsCareful :
      (bs : List (List String)) (s : NodeState)
      → Arrived s.node
      → All IsCareful (delete_batches a bs s).1
  unfolding delete_batches
  delete_batches-IsCareful [] s h = tt
  delete_batches-IsCareful (b ∷ bs) s h =
      let rest = delete_batches-IsCareful bs (record s { deleted = _ }) h in
      elim (Bool-cases (a.delete_ok s.node b)) [
        | inl ok ↦ rw ok (h, rest)
        | inr bad ↦ rw bad (h, tt)
      ]

  delete_batches-Cleared :
      (bs : List (List String)) (s : NodeState)
      → ((delete_batches a bs s).0.node ≡ s.node)
        × (is_some (delete_batches a bs s).0.err ≡ false
            → All (λ b. a.delete_ok s.node b ≡ true) bs)
  unfolding delete_batches
  delete_batches-Cleared [] s = (refl, λ e. tt)
  delete_batches-Cleared (b ∷ bs) s =
      let rest = delete_batches-Cleared bs (record s { deleted = _ }) in
      elim (Bool-cases (a.delete_ok s.node b)) [
        | inl ok ↦ rw ok (rest.0, λ e. (refl, rest.1 e))
        | inr bad ↦ rw bad (refl, λ e. absurd (ground arith))
      ]

  delete_one-IsCareful :
      (s : NodeState)
      → ArrivedIfFine s
      → All IsCareful (delete_one a p s).1 × ClearedIfFine (delete_one a p s).0
  unfolding delete_one
  delete_one-IsCareful s h = elim (Bool-cases (is_some s.err)) [
    | inl e ↦ rw e (tt, λ f. absurd (ground arith))
    | inr e ↦
        let bs = batches (deletes_of s.node p.deletes) in
        let k = delete_batches-Cleared bs s in
        rw (e, k.0) (delete_batches-IsCareful bs s (h e), λ f. (h e, k.1 f))
  ]

  delete_all-IsCareful :
      (states : List NodeState)
      → All ArrivedIfFine states
      → All IsCareful (delete_all a p states).1 × All ClearedIfFine (delete_all a p states).0
  unfolding delete_all
  delete_all-IsCareful [] h = (tt, tt)
  delete_all-IsCareful (s ∷ states) h =
      let one = delete_one-IsCareful s h.0 in
      let rest = delete_all-IsCareful states h.1 in
      (
        All-append IsCareful (delete_one a p s).1 (delete_all a p states).1 one.0 rest.0,
        (one.1, rest.1),
      )

  synced-Cleared :
      (states : List NodeState)
      → All ClearedIfFine states
      → All (λ n. Arrived n × Cleared n) (synced states)
  unfolding synced
  synced-Cleared [] h = tt
  synced-Cleared (s ∷ states) h = elim (Bool-cases (is_some s.err)) [
    | inl e ↦ rw e (synced-Cleared states h.1)
    | inr e ↦ rw e (h.0 e, synced-Cleared states h.1)
  ]

  save_record-IsCareful :
      (two_way : Bool) (states : List NodeState)
      → All ClearedIfFine states
      → All IsCareful (save_record a two_way states).1
  unfolding save_record
  save_record-IsCareful false states h = tt
  save_record-IsCareful true states h = (synced-Cleared states h, tt)

  finish_effects-IsCareful :
      (receiving : List ℕ) (states : List NodeState)
      → All IsCareful (finish_effects receiving states)
  unfolding finish_effects
  finish_effects-IsCareful receiving [] = tt
  finish_effects-IsCareful receiving (s ∷ states) = elim (Bool-cases (contains receiving s.node)) [
    | inl c ↦ rw c (tt, finish_effects-IsCareful receiving states)
    | inr c ↦ rw c (finish_effects-IsCareful receiving states)
  ]

  send_batches-IsCareful :
      (source : ℕ) (bs : List (List String)) → All IsCareful (send_batches a source bs).1
  unfolding send_batches
  send_batches-IsCareful source [] = tt
  send_batches-IsCareful source (b ∷ bs) = elim (Bool-cases (a.send_ok source b)) [
    | inl ok ↦ rw ok (tt, send_batches-IsCareful source bs)
    | inr bad ↦ rw bad (tt, tt)
  ]

  send_all-IsCareful :
      (receiving sources : List ℕ) (e : ℕ → Option ℕ)
      → All IsCareful (send_all a p receiving sources e).1
  unfolding send_all
  send_all-IsCareful receiving [] e = tt
  send_all-IsCareful receiving (source ∷ more) e =
      All-append IsCareful _ _ (send_batches-IsCareful source _)
        (send_all-IsCareful receiving more _)

  receive_all-IsCareful : (states : List NodeState) → All IsCareful (receive_all a p states).2
  unfolding receive_all receive_one
  receive_all-IsCareful [] = tt
  receive_all-IsCareful (s ∷ states) =
      elim (Bool-cases (is_some s.err || copies s.node p.copied == 0)) [
        | inl skip ↦ rw skip (receive_all-IsCareful states)
        | inr go ↦ elim (Bool-cases (a.receive_ok s.node)) [
          | inl ok ↦ rw (go, ok) (tt, receive_all-IsCareful states)
          | inr bad ↦ rw (go, bad) (tt, receive_all-IsCareful states)
        ]
      ]

-- A sync deletes files only on nodes where all that the plan copies to them has arrived: nothing was to
-- be copied, or no sender that the node needed failed, it was not cut off, and it finished without
-- errors and with as many files as the plan has for it. And it saves the record only of such nodes,
-- on which moreover every deletion succeeded.
pub carry_out_plan-IsCareful :
    (a : Answers) (two_way : Bool) (p : Plan) (states : List NodeState)
    → All (IsCareful a p (send_errors a p states)) (carry_out_plan a two_way p states).1
unfolding carry_out_plan
carry_out_plan-IsCareful a two_way p states =
    let start = map (check_space p) states in
    let received = receive_all a p start in
    let errs = send_errors a p states in
    let finished = map (finish_one a p received.1 errs) received.0 in
    let arrived =
      finish_all-ArrivedIfFine a p errs received.1 received.0 (receive_all-Ready a p errs start) in
    let deleted = delete_all-IsCareful a p errs finished arrived in
    All-append (IsCareful a p errs) received.2 _ (receive_all-IsCareful a p errs start) (
      All-append (IsCareful a p errs) _ _
        (send_all-IsCareful a p errs received.1 (senders p.copied) (λ n. none))
        (All-append (IsCareful a p errs) _ _
          (finish_effects-IsCareful a p errs received.1 received.0)
          (All-append (IsCareful a p errs) _ _ deleted.0
            (save_record-IsCareful a p errs two_way (delete_all a p finished).0 deleted.1))))
