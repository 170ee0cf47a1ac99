-- ===== src/Takeover/Ends.antt =====
-- A takeover can always be ended.
use opensurge_fnos.Base.{ap, false, none, some, subst, sym, true, ◌<◌, ◌∙◌, ◌≡◌}
use opensurge_fnos.Takeover.Leaving.{open_ends}
use opensurge_fnos.Takeover.Stage.{is_open, stage_number}
use opensurge_fnos.Takeover.Store.{find_operation, recovery}
use opensurge_fnos.Takeover.Types.{RecoveryState, Snapshot}
use opensurge_fnos.Takeover.Ways.{CanEnd, Steps, holding}
use opensurge_fnos.Takeover.World.{World, stored}
use opensurge_fnos.Text.{text}

-- From every world with a stored record whose stage is one of the constants, with its snapshot, and
-- no operation that runs or has the ID "end", some requests, none of
-- them a preparation, and ends of operations lead to a record that requires no recovery.
pub takeover_ends :
    (w : World) (s : RecoveryState) (snapshot : Snapshot)
    → w.file ≡ stored s
    → s.network_snapshot ≡ some snapshot
    → is_open s.stage ≡ true
    → stage_number s.stage < 11
    → w.pending ≡ none
    → find_operation (text "end") w.operations ≡ none
    → (w' : World) × Steps w w' × ((recovery w'.file).required ≡ false)
unfolding CanEnd
takeover_ends w s snapshot hf hs opened known hp fresh =
    let same : holding w s snapshot s.stage ≡ w =
      ap (λ x. record w { file = stored (record s { network_snapshot = x }); pending = none })
        (sym hs)
      ∙ ap (λ f. record w { file = f; pending = none }) (sym hf)
      ∙ ap (λ p. record w { pending = p }) (sym hp) in
    subst CanEnd same (open_ends w s snapshot s.stage opened known fresh)
