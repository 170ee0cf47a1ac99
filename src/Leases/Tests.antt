-- ===== src/Leases/Tests.antt =====
-- A lease file in which one reserved device still has its old address.
use opensurge_fnos.Base.{List, [], refl, some, ◌++◌, ◌∷◌, ◌≡◌}
use opensurge_fnos.Device.Compiled.{Reservation}
use opensurge_fnos.Leases.Reconcile.{
  any_stale, content, differs, expected, fields, file_of, is_stale, join_lines, kept_lines,
  onto_first, reconcile_content, reconcile_policy_leases, replaced, split_lines, stale_fields,
  stale_row, trim_newline, unchanged,
}
use opensurge_fnos.Leases.Settled.{reconciled_content, reread}
use opensurge_fnos.Text.{Text, is_space, text, text_eq, to_lower}

abbrev reservations : List Reservation
reservations =
    record {
      id = text "tv";
      mac = text "AA";
      ipv4 = text "10.0.0.2";
      gateway_target = text "opensurge";
    }
    ∷ []

abbrev newline : Text
newline = 10 ∷ []

abbrev pad_lease : Text
pad_lease = text "20 bb 10.0.0.5 pad *" ++ newline

abbrev lease_file : Text
lease_file = text "10 aa 10.0.0.9 tv *" ++ (newline ++ pad_lease)

-- Opens the reconciliation.
run_reconcile : Unit {0}
unfolding reconcile_content split_lines onto_first trim_newline join_lines any_stale kept_lines
    file_of is_stale stale_fields fields stale_row expected differs text_eq to_lower is_space
    reconcile_policy_leases
run_reconcile = tt

stale_removed :
    reconcile_policy_leases (λ s. some s) reservations (content lease_file) ≡ replaced pad_lease
unfolding run_reconcile
stale_removed = refl

reconciles : reconcile_content (λ s. some s) reservations lease_file ≡ replaced pad_lease
unfolding run_reconcile
reconciles = refl

reconciled_content_example :
    (split_lines (trim_newline pad_lease)
      ≡ reread
          (λ s. some s)
          reservations
          (kept_lines (λ s. some s) reservations (split_lines (trim_newline lease_file))))
    × (reconcile_content (λ s. some s) reservations pad_lease ≡ unchanged)
reconciled_content_example =
    reconciled_content (λ s. some s) reservations lease_file pad_lease reconciles
