-- ===== src/Daemon/HubExamples.antt =====
-- A subscriber of internal/daemon/hub.go that reads one event: the theorem at this life.
use herdr_woof.Prelude.{◌≡◌, refl, true, [], ◌∷◌}
use herdr_woof.Daemon.Model.{Event, EventType, Actor}
use herdr_woof.Daemon.Hub.{Channel, subscribe, publish_to, offer}
use herdr_woof.Daemon.Hub.Stream.{published, start, read, IsPrefix, feeds-IsPrefix}

abbrev happened : EventType → Event
happened type = record {
  type = type;
  scope = record { session_id = 2; workspace_id = 3; worktree_id = 0; run_id = 0; worker_id = 1 };
  actor_kind = Actor.daemon;
  actor_id = 0;
}

abbrev first : Event
first = happened EventType.worker_observed

abbrev second : Event
second = happened EventType.worker_lost

-- The channel after the first of the two events was read.
abbrev half_read : Channel
half_read = record { queue = second ∷ []; is_open = true }

offered :
    publish_to (first ∷ second ∷ []) subscribe
    ≡ record { queue = first ∷ second ∷ []; is_open = true }
unfolding publish_to offer
offered = refl

feeds-IsPrefix_example : IsPrefix (first ∷ second ∷ []) (first ∷ []) half_read
unfolding publish_to offer
feeds-IsPrefix_example =
    feeds-IsPrefix (first ∷ second ∷ []) (first ∷ []) half_read
      (read first (second ∷ []) (published (first ∷ second ∷ []) start) refl)
