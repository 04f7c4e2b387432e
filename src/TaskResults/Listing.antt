-- ===== src/TaskResults/Listing.antt =====
-- What the listing of pending tasks holds.
use netbox_conductor.Base.{
  ℕ, Bool, true, false, ◌≡◌, ◌∙◌, ap, List, [], ◌∷◌, if◌then◌else◌, leb, ◌⊎◌, inl, inr, In, keep,
}
use netbox_conductor.TaskResults.{
  TaskResult, TaskTable, is_pending, list_pending_by_node, order_by_time, insert_by_time,
}

In-insert_by_time :
    (t u : TaskResult) (rows : List TaskResult) → (u ≡ t) ⊎ In t rows → In t (insert_by_time u rows)
unfolding insert_by_time
In-insert_by_time t u [] h = h
In-insert_by_time t u (s ∷ rows) h =
    place (leb u.queued_at s.queued_at) (In-insert_by_time t u rows) h
  where
    behind :
        ((u ≡ t) ⊎ In t rows → In t (insert_by_time u rows))
        → (u ≡ t) ⊎ In t (s ∷ rows)
        → In t (s ∷ insert_by_time u rows)
    behind rest (inl e) = inr (rest (inl e))
    behind rest (inr (inl e)) = inl e
    behind rest (inr (inr i)) = inr (rest (inr i))

    place :
        (b : Bool)
        → ((u ≡ t) ⊎ In t rows → In t (insert_by_time u rows))
        → (u ≡ t) ⊎ In t (s ∷ rows)
        → In t (if b then u ∷ s ∷ rows else s ∷ insert_by_time u rows)
    place true rest k = k
    place false rest k = behind rest k

In-order_by_time : (t : TaskResult) (rows : List TaskResult) → In t rows → In t (order_by_time rows)
unfolding order_by_time
In-order_by_time t [] i = i
In-order_by_time t (r ∷ rows) (inl e) = In-insert_by_time t r (order_by_time rows) (inl e)
In-order_by_time t (r ∷ rows) (inr i) =
    In-insert_by_time t r (order_by_time rows) (inr (In-order_by_time t rows i))

In-keep :
    (p : TaskResult → Bool) (t : TaskResult) (rows : List TaskResult)
    → p t ≡ true
    → In t rows
    → In t (keep p rows)
In-keep p t [] h i = i
In-keep p t (r ∷ rows) h (inl e) = rw (ap p e ∙ h) (inl e)
In-keep p t (r ∷ rows) h (inr i) = place (p r) _ (In-keep p t rows h i)
  where
    place : (b : Bool) (rest : List TaskResult) → In t rest → In t (if b then r ∷ rest else rest)
    place true rest k = inr k
    place false rest k = k

-- A row of the table that is pending is in the listing.
pub In-list_pending_by_node :
    (node : ℕ) (t : TaskResult) (rows : TaskTable)
    → is_pending node t ≡ true
    → In t rows
    → In t (list_pending_by_node node rows)
unfolding list_pending_by_node
In-list_pending_by_node node t rows h i =
    In-order_by_time t (keep (is_pending node) rows) (In-keep (is_pending node) t rows h i)
