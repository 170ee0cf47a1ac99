-- ===== src/Traffic/Tests.antt =====
-- Three connections, two of them with one ID, and the outlets of a device in two orders.
use opensurge_fnos.Base.{Bool, List, [], inl, inr, not, refl, true, ◌&&◌, ◌∷◌, ◌≡◌}
use opensurge_fnos.Device.Policy.{has}
use opensurge_fnos.Text.{Text, is_empty, is_space, text, text_eq, trim_space}
use opensurge_fnos.Traffic.Closed.{closed_ids}
use opensurge_fnos.Traffic.Connections.{
  Connection, any_wanted, distinct, matching_connection_ids, matching_ids,
}
use opensurge_fnos.Traffic.Egress.{
  Usage, beats, connection_egress, pick, pick_all, primary_egress, text_ltb,
}
use opensurge_fnos.Traffic.Primary.{IsNamed, Listed, primary_egress_lem}

abbrev connections_seen : List Connection
connections_seen =
    record { id = text " a1 "; chains = text "Tokyo" ∷ text "Proxy" ∷ [] }
    ∷ record { id = text "b2"; chains = text "DIRECT" ∷ [] }
    ∷ record { id = text "a1"; chains = text "Tokyo" ∷ text "Proxy" ∷ [] }
    ∷ []

through_proxy : Connection → Bool
unfolding has
through_proxy c = has (text "Proxy") c.chains

one_closed : matching_connection_ids through_proxy connections_seen ≡ text "a1" ∷ []
unfolding matching_connection_ids matching_ids has trim_space is_space text_eq through_proxy
one_closed = refl

closed_ids_example :
    (distinct (matching_connection_ids through_proxy connections_seen) ≡ true)
    × ((id : Text)
        → has id (matching_connection_ids through_proxy connections_seen)
          ≡ (not (is_empty id) && any_wanted through_proxy id connections_seen))
closed_ids_example = closed_ids through_proxy connections_seen

abbrev tokyo : Usage
tokyo = record { egress = text "Tokyo"; connections = 2; bytes = 90 }

abbrev direct : Usage
direct = record { egress = text "DIRECT"; connections = 3; bytes = 90 }

forwards : (w : Usage) → Listed w (tokyo ∷ direct ∷ []) → Listed w (direct ∷ tokyo ∷ [])
unfolding Listed
forwards w (inl e) = inr (inl e)
forwards w (inr (inl e)) = inl e
forwards w (inr (inr l)) = inr (inr l)

backwards : (w : Usage) → Listed w (direct ∷ tokyo ∷ []) → Listed w (tokyo ∷ direct ∷ [])
unfolding Listed
backwards w (inl e) = inr (inl e)
backwards w (inr (inl e)) = inl e
backwards w (inr (inr l)) = inr (inr l)

primary_egress_lem_example :
    primary_egress (tokyo ∷ direct ∷ []) ≡ primary_egress (direct ∷ tokyo ∷ [])
unfolding IsNamed
primary_egress_lem_example =
    primary_egress_lem (tokyo ∷ direct ∷ []) (direct ∷ tokyo ∷ []) (refl, (refl, tt))
      (refl, (refl, tt)) forwards backwards

direct_shown : primary_egress (tokyo ∷ direct ∷ []) ≡ text "DIRECT"
unfolding primary_egress pick_all pick beats text_ltb
direct_shown = refl

shown_chain : connection_egress (text " Tokyo" ∷ [] ∷ []) ≡ text "Tokyo"
unfolding connection_egress trim_space is_space
shown_chain = refl
