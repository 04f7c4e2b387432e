-- ===== src/FileSync/Relay/Gaps.antt =====
-- A receiver that is not cut off misses no chunk.
use netbox_conductor.Base.{
  ℕ, String, Bool, true, false, ◌&&◌, ◌≡◌, refl, ap, ◌∙◌, Option, none, some, List, [], ◌∷◌, ◌++◌,
  ◌==◌, keep, if◌then◌else◌, Bool-cases, inl, inr, both-values, ==_iff, lookup, arith,
}
use netbox_conductor.Hub.{Hub, get}
use netbox_conductor.FileSync.{SyncFile, find}
use netbox_conductor.FileSync.Relay.{
  Run, Chunk, handle_listing, append_listing, start_batch, route_of, not_dropped, drop, has_session,
  forward, is_source, handle_chunk,
}

-- What happens to a run: a piece of a listing, a new batch, or a chunk, with the hub and the answers of
-- SendWait at that moment.
pub data Step : Type 0 where
  listed : (node : ℕ) → List SyncFile → Step
  batch : (source : ℕ) → List (String × List ℕ) → Step
  chunk : Hub → (sent : ℕ → Bool) → (node : ℕ) → Chunk → Step

-- The chunk, once for each time that the node is in the list.
abbrev pub copies_for : ℕ → Chunk → List ℕ → List Chunk
copies_for n c [] = []
copies_for n c (d ∷ ds) = let rest = copies_for n c ds in if d == n then c ∷ rest else rest

-- The run after the steps, and the chunks that were handed to the node.
unfoldable pub relay : (n : ℕ) → List Step → Run → Run × List Chunk
relay n [] r = (r, [])
relay n (listed node files ∷ ss) r = relay n ss (handle_listing node files r)
relay n (batch source routes ∷ ss) r = relay n ss (start_batch source routes r)
relay n (chunk h sent node c ∷ ss) r =
    let (r', to) = handle_chunk h sent node c r in
    let (last, got) = relay n ss r' in (last, copies_for n c to ++ got)

-- The chunks that the batches' senders sent for the node.
unfoldable pub wanted : (n : ℕ) → Option ℕ → List (String × List ℕ) → List Step → List Chunk
wanted n source routes [] = []
wanted n source routes (listed node files ∷ ss) = wanted n source routes ss
wanted n source routes (batch s rs ∷ ss) = wanted n (some s) rs ss
wanted n source routes (chunk h sent node c ∷ ss) =
    let rest = wanted n source routes ss in
    if is_source node source then copies_for n c (route_of (find c.path routes)) ++ rest else rest

forward-dropped :
    (h : Hub) (sent : ℕ → Bool) (n : ℕ) (ds : List ℕ) (r : Run)
    → r.dropped n ≡ true
    → (forward h sent ds r).0.dropped n ≡ true
unfolding forward
forward-dropped h sent n [] r e = e
forward-dropped h sent n (d ∷ ds) r e =
    ground (arith, forward-dropped h sent n ds r e, forward-dropped h sent n ds (drop d r))

forward-rest :
    (h : Hub) (sent : ℕ → Bool) (ds : List ℕ) (r : Run)
    → ((forward h sent ds r).0.source ≡ r.source) × ((forward h sent ds r).0.routes ≡ r.routes)
unfolding forward
forward-rest h sent [] r = (refl, refl)
forward-rest h sent (d ∷ ds) r =
    ground (arith, forward-rest h sent ds r, forward-rest h sent ds (drop d r))

forward_complete :
    (h : Hub) (sent : ℕ → Bool) (n : ℕ) (c : Chunk) (ds : List ℕ) (r : Run)
    → (forward h sent ds r).0.dropped n ≡ false
    → copies_for n c (forward h sent ds r).1 ≡ copies_for n c ds
unfolding forward
forward_complete h sent n c [] r e = refl
forward_complete h sent n c (d ∷ ds) r e = elim (Bool-cases (has_session (get d h) && sent d)) [
  | inl ok ↦
      let rest = forward_complete h sent n c ds r (rw ok at e) in
      rw ok (ap (λ l. if d == n then c ∷ l else l) rest)
  | inr bad ↦ elim (Bool-cases (d == n)) [
    | inl same ↦
        absurd (both-values _ (forward-dropped h sent n ds (drop d r) (rw same refl)) (rw bad at e))
    | inr other ↦ rw (bad, other) (forward_complete h sent n c ds (drop d r) (rw bad at e))
  ]
]

copies_for-keep :
    (n : ℕ) (c : Chunk) (r : Run) (ds : List ℕ)
    → r.dropped n ≡ false
    → copies_for n c (keep (not_dropped r) ds) ≡ copies_for n c ds
copies_for-keep n c r [] e = refl
copies_for-keep n c r (d ∷ ds) e = elim (Bool-cases (d == n)) [
  | inl same ↦
      let in_ : r.dropped d ≡ false = rw ((==_iff d n).0 same) e in
      rw (in_, same) (ap (λ l. c ∷ l) (copies_for-keep n c r ds e))
  | inr other ↦ elim (Bool-cases (r.dropped d)) [
    | inl out ↦ rw (out, other) (copies_for-keep n c r ds e)
    | inr in_ ↦ rw (in_, other) (copies_for-keep n c r ds e)
  ]
]

-- What one chunk does to a run, as seen by a node.
handle_chunk-rest :
    (h : Hub) (sent : ℕ → Bool) (node : ℕ) (c : Chunk) (r : Run)
    → ((handle_chunk h sent node c r).0.source ≡ r.source)
      × ((handle_chunk h sent node c r).0.routes ≡ r.routes)
unfolding handle_chunk
handle_chunk-rest h sent node c r = elim (Bool-cases (is_source node r.source)) [
  | inl e ↦ rw e (forward-rest h sent (keep (not_dropped r) (route_of (find c.path r.routes))) r)
  | inr e ↦ rw e (refl, refl)
]

handle_chunk-dropped :
    (h : Hub) (sent : ℕ → Bool) (n node : ℕ) (c : Chunk) (r : Run)
    → r.dropped n ≡ true
    → (handle_chunk h sent node c r).0.dropped n ≡ true
unfolding handle_chunk
handle_chunk-dropped h sent n node c r d = elim (Bool-cases (is_source node r.source)) [
  | inl e ↦
      rw e (forward-dropped h sent n (keep (not_dropped r) (route_of (find c.path r.routes))) r d)
  | inr e ↦ rw e d
]

handle_chunk-of_source :
    (h : Hub) (sent : ℕ → Bool) (n node : ℕ) (c : Chunk) (r : Run)
    → r.dropped n ≡ false
    → (handle_chunk h sent node c r).0.dropped n ≡ false
    → copies_for n c (handle_chunk h sent node c r).1
      ≡ (if is_source node r.source then copies_for n c (route_of (find c.path r.routes)) else [])
unfolding handle_chunk
handle_chunk-of_source h sent n node c r d e = elim (Bool-cases (is_source node r.source)) [
  | inl s ↦ rw s (
      forward_complete h sent n c (keep (not_dropped r) (route_of (find c.path r.routes))) r
        (rw s at e)
      ∙ copies_for-keep n c r (route_of (find c.path r.routes)) d)
  | inr s ↦ rw s refl
]

handle_chunk_complete :
    (h : Hub) (sent : ℕ → Bool) (n node : ℕ) (c : Chunk) (r : Run)
    → (handle_chunk h sent node c r).0.dropped n ≡ false
    → copies_for n c (handle_chunk h sent node c r).1
      ≡ (if is_source node r.source then copies_for n c (route_of (find c.path r.routes)) else [])
handle_chunk_complete h sent n node c r e = elim (Bool-cases (r.dropped n)) [
  | inl d ↦ absurd (both-values _ (handle_chunk-dropped h sent n node c r d) e)
  | inr d ↦ handle_chunk-of_source h sent n node c r d e
]

handle_listing-rest :
    (node : ℕ) (files : List SyncFile) (r : Run)
    → ((handle_listing node files r).source ≡ r.source)
      × ((handle_listing node files r).routes ≡ r.routes)
      × ((handle_listing node files r).dropped ≡ r.dropped)
unfolding handle_listing append_listing
handle_listing-rest node files r = by_lookup (lookup node r.lists)
  where
    by_lookup :
        (o : Option (List SyncFile))
        → ((append_listing node files o r).source ≡ r.source)
          × ((append_listing node files o r).routes ≡ r.routes)
          × ((append_listing node files o r).dropped ≡ r.dropped)
    by_lookup none = (refl, refl, refl)
    by_lookup (some fs) = (refl, refl, refl)

relay-dropped :
    (n : ℕ) (ss : List Step) (r : Run) → r.dropped n ≡ true → (relay n ss r).0.dropped n ≡ true
unfolding relay start_batch
relay-dropped n [] r d = d
relay-dropped n (listed node files ∷ ss) r d =
    relay-dropped n ss (handle_listing node files r)
      (ap (λ f. f n) (handle_listing-rest node files r).2 ∙ d)
relay-dropped n (batch source routes ∷ ss) r d = relay-dropped n ss (start_batch source routes r) d
relay-dropped n (chunk h sent node c ∷ ss) r d =
    relay-dropped n ss (handle_chunk h sent node c r).0 (handle_chunk-dropped h sent n node c r d)

append-if :
    (b : Bool) (xs ys : List Chunk) → (if b then xs else []) ++ ys ≡ (if b then xs ++ ys else ys)
append-if true xs ys = refl
append-if false xs ys = refl

-- Through any sequence of listings, batches and chunks of a sync, a node that is not cut off in the end
-- was handed, in order, all chunks that the batches' senders sent of files routed to it, and no others.
pub relay-wanted :
    (n : ℕ) (ss : List Step) (r : Run)
    → (relay n ss r).0.dropped n ≡ false
    → (relay n ss r).1 ≡ wanted n r.source r.routes ss
unfolding relay wanted start_batch
relay-wanted n [] r e = refl
relay-wanted n (listed node files ∷ ss) r e =
    let k = handle_listing-rest node files r in
    relay-wanted n ss (handle_listing node files r) e
    ∙ ap (λ s. wanted n s (handle_listing node files r).routes ss) k.0
    ∙ ap (λ l. wanted n r.source l ss) k.1
relay-wanted n (batch source routes ∷ ss) r e = relay-wanted n ss (start_batch source routes r) e
relay-wanted n (chunk h sent node c ∷ ss) r e =
    let r' = (handle_chunk h sent node c r).0 in
    let k = handle_chunk-rest h sent node c r in
    let rest =
      relay-wanted n ss r' e
      ∙ ap (λ s. wanted n s r'.routes ss) k.0
      ∙ ap (λ l. wanted n r.source l ss) k.1 in
    ap (λ l. l ++ (relay n ss r').1) (handle_chunk_complete h sent n node c r still)
    ∙ ap
        (λ l.
          (if is_source node r.source then copies_for n c (route_of (find c.path r.routes)) else [])
          ++ l)
        rest
    ∙ append-if (is_source node r.source) (copies_for n c (route_of (find c.path r.routes)))
        (wanted n r.source r.routes ss)
  where
    still : (handle_chunk h sent node c r).0.dropped n ≡ false
    still = elim (Bool-cases ((handle_chunk h sent node c r).0.dropped n)) [
      | inl d ↦ absurd (both-values _ (relay-dropped n ss (handle_chunk h sent node c r).0 d) e)
      | inr d ↦ d
    ]
