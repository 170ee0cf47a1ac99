-- ===== src/Takeover/Sound/Reached.antt =====
-- Every reachable world is sound: what follows for the record, the calls and the answers.
use opensurge_fnos.Base.{arith, refl, true, ◌∷◌, ◌≡◌}
use opensurge_fnos.Takeover.Sound.{
  IsSound, agrees, all_warranted, pending_warranted, stage_warranted,
}
use opensurge_fnos.Takeover.Sound.Answers.{Ends, answered, entered}
use opensurge_fnos.Takeover.Sound.Finish.{finish_run-IsSound, observe_operation-IsSound}
use opensurge_fnos.Takeover.Stage.{is_open}
use opensurge_fnos.Takeover.Steps.{
  Reachable, answer_request, ask, empty_store, end_operation, first_world, report_progress,
  then_step,
}
use opensurge_fnos.Takeover.Store.{readable, recovery}
use opensurge_fnos.Takeover.World.{Outside, Request, World, received}

answered_request :
    (r : Request) (o : Outside) (w : World) → IsSound w → Ends r w.file (answer_request r o w)
unfolding answer_request
answered_request r o w h =
    answered r o w.file (record w { journal = received r ∷ w.journal }) (entered r w h)

reachable : {w : World} → Reachable w → IsSound w
unfolding first_world recovery readable agrees all_warranted stage_warranted pending_warranted
reachable empty_store = record {
  readable_file = refl;
  agreement = refl;
  calls = refl;
  stage_said = refl;
  operation_said = refl;
}
reachable (then_step r (ask w q o)) = (answered_request q o w (reachable r)).sound
reachable (then_step r (report_progress w p o phase notice e)) =
    observe_operation-IsSound o phase notice p w (reachable r) e
reachable (then_step r (end_operation w p o result e)) =
    finish_run-IsSound o p result w (reachable r) e

-- In every reachable world the record can be read, and says that recovery is required just if
-- its stage is that of an open takeover.
pub flag_of_stage :
    (w : World)
    → Reachable w
    → (readable w.file ≡ true) × ((recovery w.file).required ≡ is_open (recovery w.file).stage)
unfolding agrees
flag_of_stage w r = ((reachable r).readable_file, ground (arith, (reachable r).agreement))

-- As long as no request overlaps another, nor the end of a lifecycle operation, every call that
-- the server has made was warranted when it was made: the Mac went back to automatic DHCP only
-- when the latest word on the router was that it answers, from a probe or from the user, and a
-- takeover was started only after a probe that no server answered.
pub warranted_calls : (w : World) → Reachable w → all_warranted w.journal ≡ true
warranted_calls w r = (reachable r).calls
