-- ===== src/Recovery/Monitor.antt =====
-- The monitor beside the other holders of the lifecycle lock, as a step relation. Between two
-- steps anything else that the relation allows may happen.
use opensurge_fnos.Base.{Bool, List, Option, [], false, none, some, true, ℕ, ◌+◌, ◌∷◌, ◌≡◌}
use opensurge_fnos.Recovery.Controller.{
  Controller, Reason, begin, begin_manual, finish_automatic, finish_manual, new_controller,
}
use opensurge_fnos.Recovery.Samples.{Sample, Verdict, classify, failing, observe}
use opensurge_fnos.Text.{Text}

pub data Holder : Type 0 where
  restarting_automatically restarting_by_hand other : Holder

-- Where the one evaluation stands: between evaluations, with a restart asked for, or with a
-- restart begun whose operation could not be created.
pub data Stand : Type 0 where
  resting : Stand
  asked : Reason → Stand
  uncreated : Text → Stand

pub record Monitor : Type 0 where
  pub controller : Controller
  pub lock : Option Holder
  pub stand : Stand
  pub samples : List Sample  -- classified so far, the latest first
  pub restarts : ℕ  -- begun automatically so far

unfoldable pub next_stand : Verdict → Bool → Stand
next_stand (failing r) true = asked r
next_stand _ _ = resting

-- The observation of a sample.
unfoldable pub sampled : Sample → Monitor → Monitor
unfolding classify observe next_stand
sampled s m =
    let (c, asks) = observe (classify s) m.controller in
    record m { controller = c; stand = next_stand (classify s) asks; samples = s ∷ m.samples }

-- The restart, with the lock taken: what CreateOperation returned decides who holds it then.
unfoldable pub restart_begun : Option Text → Controller → Monitor → Monitor
restart_begun none c m = record m {
  controller = c;
  lock = some restarting_automatically;
  stand = resting;
  restarts = m.restarts + 1;
}
restart_begun (some e) c m = record m {
  controller = c;
  stand = uncreated e;
  restarts = m.restarts + 1;
}

unfoldable pub begun : Option Text → Controller × Bool → Monitor → Monitor
unfolding restart_begun
begun created (c, true) m = restart_begun created c m
begun created (c, false) m = record m { controller = c; stand = resting }

-- TryLock, begin and CreateOperation, on an evaluation that asks for a restart.
unfoldable pub attempt : Reason → Option Text → Monitor → Option Holder → Monitor
unfolding begun begin
attempt r created m (some h) = record m { stand = resting }
attempt r created m none = begun created (begin r m.controller) m

pub data Step : Monitor → Monitor → Type 0 where
  evaluate : (m : Monitor) (s : Sample) → m.stand ≡ resting → Step m (sampled s m)
  try_restart :
      (m : Monitor) (r : Reason) (created : Option Text)
      → m.stand ≡ asked r
      → Step m (attempt r created m m.lock)
  give_up :
      (m : Monitor) (e : Text)
      → m.stand ≡ uncreated e
      → Step m (record m { controller = finish_automatic (some e) m.controller; stand = resting })
  finish :
      (m : Monitor) (result : Option Text)
      → m.lock ≡ some restarting_automatically
      → Step m (record m { controller = finish_automatic result m.controller; lock = some other })
  take_lock : (m : Monitor) → m.lock ≡ none → Step m (record m { lock = some other })
  begin_by_hand :
      (m : Monitor)
      → m.lock ≡ some other
      → Step m (record m { controller = begin_manual m.controller; lock = some restarting_by_hand })
  finish_by_hand :
      (m : Monitor) (result : Option Text)
      → m.lock ≡ some restarting_by_hand
      → Step m (record m { controller = finish_manual result m.controller; lock = some other })
  release_lock : (m : Monitor) → m.lock ≡ some other → Step m (record m { lock = none })

unfoldable pub first_monitor : Monitor
unfolding new_controller
first_monitor = record {
  controller = new_controller;
  lock = none;
  stand = resting;
  samples = [];
  restarts = 0;
}

-- The monitors that the program can come to.
pub data Reachable : Monitor → Type 0 where
  start : Reachable first_monitor
  next : {m n : Monitor} → Reachable m → Step m n → Reachable n
