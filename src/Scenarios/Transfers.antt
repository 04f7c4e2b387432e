-- ===== src/Scenarios/Transfers.antt =====
-- A sync in which one receiver keeps up and another is cut off.
use netbox_conductor.Base.{
  ℕ, true, false, ◌≡◌, refl, none, some, List, [], ◌∷◌, ◌==◌, not, lookup, insert, All,
}
use netbox_conductor.Hub.{get, register, new_session}
use netbox_conductor.FileSync.{SyncFile, Plan}
use netbox_conductor.FileSync.Stages.{NodeState, Answers, carry_out_plan}
use netbox_conductor.FileSync.Stages.Deletes.{IsCareful, send_errors, carry_out_plan-IsCareful}
use netbox_conductor.FileSync.Relay.{Run, handle_listing, start_batch, handle_chunk, forward}
use netbox_conductor.FileSync.Relay.Gaps.{Step, listed, batch, chunk, relay, wanted, relay-wanted}
use netbox_conductor.Scenarios.Failovers.{two}

abbrev file : SyncFile
file = record { path = "a"; size = 4; sha256 = "e1"; mtime = 9 }

-- Node 3 sends a file to 1 and 2, and both delete another.
abbrev plan : Plan
plan = record {
  copied =
      record { source = 3; target = 1; file = file }
      ∷ record { source = 3; target = 2; file = file }
      ∷ [];
  deletes = (1, "b") ∷ (2, "b") ∷ [];
  files = ("a", "e1") ∷ [];
  deleted = "b" ∷ [];
  conflicts = [];
}

abbrev state : ℕ → NodeState
state n = record { node = n; free = 100; err = none; copied = 0; deleted = 0 }

-- Node 2 was cut off.
abbrev answers : Answers
answers = record {
  receive_ok = λ n. true;
  send_ok = λ n b. true;
  finished = λ n. some (record { copied = 1; skipped = 0; errors = 0 });
  dropped = λ n. n == 2;
  delete_ok = λ n b. true;
  save_ok = true;
}

carry_out_plan-IsCareful_example :
    All
      (IsCareful answers plan (send_errors answers plan (state 1 ∷ state 2 ∷ state 3 ∷ [])))
      (carry_out_plan answers true plan (state 1 ∷ state 2 ∷ state 3 ∷ [])).1
carry_out_plan-IsCareful_example =
    carry_out_plan-IsCareful answers true plan (state 1 ∷ state 2 ∷ state 3 ∷ [])

abbrev fresh : Run
fresh = record { lists = (1, []) ∷ (2, []) ∷ []; source = none; routes = []; dropped = λ n. false }

-- The second chunk reaches node 1 only.
abbrev chunks : List Step
chunks =
    listed 1 (file ∷ [])
    ∷ batch 3 (("a", 1 ∷ 2 ∷ []) ∷ [])
    ∷ chunk two (λ n. true) 3 (record { path = "a"; content = 7 })
    ∷ chunk two (λ n. not (n == 2)) 3 (record { path = "a"; content = 8 })
    ∷ []

relay-wanted_example : (relay 1 chunks fresh).1 ≡ wanted 1 none [] chunks
relay-wanted_example = relay-wanted 1 chunks fresh (
    unfold relay handle_listing start_batch handle_chunk forward get register new_session lookup
      insert in
    refl)
