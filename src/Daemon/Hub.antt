-- ===== src/Daemon/Hub.antt =====
-- internal/daemon/hub.go: the events of a transaction go to every subscriber, each with a buffered
-- channel; one that is full is closed, so that no subscriber sees a gap.
pub mod Stream
use herdr_woof.Prelude.{ℕ, Bool, true, false, List, [], ◌∷◌, ◌++◌, ltb, length, map, if◌then◌else◌}
use herdr_woof.Daemon.Model.{Event}

-- A channel: what it holds for its reader, and whether the hub still sends to it.
pub record Channel : Type 0 where
  pub queue : List Event
  pub is_open : Bool

abbrev pub capacity : ℕ
capacity = 256

abbrev pub subscribe : Channel
subscribe = record { queue = []; is_open = true }

abbrev pub close : Channel → Channel
close ch = record ch { is_open = false }

-- The events for one channel: a full one is closed, and gets no more of them.
unfoldable pub offer : List Event → List Event → Channel
offer queue [] = record { queue = queue; is_open = true }
offer queue (e ∷ es) =
    let rest = offer (queue ++ e ∷ []) es in
    if ltb (length queue) capacity then rest else record { queue = queue; is_open = false }

unfoldable pub publish_to : List Event → Channel → Channel
unfolding offer
publish_to es ch = if ch.is_open then offer ch.queue es else ch

-- publish
unfoldable pub publish : List Event → List Channel → List Channel
unfolding publish_to
publish es subs = map (publish_to es) subs
