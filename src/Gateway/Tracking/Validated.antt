-- ===== src/Gateway/Tracking/Validated.antt =====
-- What a start has found when it has validated its configuration, IPv6 included.
use opensurge_fnos.Base.{
  Bool, Option, ap, arith, false, none, not, refl, some, suc, true, ℕ, ◌&&◌, ◌+◌, ◌∙◌, ◌≡◌,
}
use opensurge_fnos.Exec.{◌>>=◌}
use opensurge_fnos.Exec.Rules.{Ensures, Ensures-bind, Ensures-given, Ensures-pure, Ensures-weaken}
use opensurge_fnos.Gateway.Preflight.{
  Resolution, detect_native, resolve_always, resolve_as, resolve_auto, resolve_ipv6, without_ipv6,
}
use opensurge_fnos.Gateway.Quiet.{
  Quiet, Quiet-Ensures, Quiet-answer, Quiet-ask, Quiet-pure, Quiet-raise, Quiet-report, Quiet-when,
  quiet_rules,
}
use opensurge_fnos.Gateway.Quiet.Checks.{Quiet-check_reservations, Quiet-preflight}
use opensurge_fnos.Gateway.Start.Plan.{check_host, refuse_existing, require_root, validate_start}
use opensurge_fnos.Gateway.Tracking.Undo.{Undone}
use opensurge_fnos.Gateway.Types.{
  BootSession, Bundle, Call, Config, Err, Phase, State, TunIpv6, always, auto, off, state_exists,
}
use opensurge_fnos.Gateway.World.{Host, M, World, answer, ask, check_context, load, report}

abbrev pub Untouched : Host → World → Type 0
Untouched b w = (w.host ≡ b) × (w.file ≡ none)

-- What the preparation of a configuration leaves as it was.
pub record Serves (c c' : Config) : Type 0 where
  pub mode : c'.mode ≡ c.mode
  pub mixed_port : c'.mixed_port ≡ c.mixed_port
  pub dhcp_enabled : c'.dhcp_enabled ≡ c.dhcp_enabled
  pub proxy_enabled : c'.system_proxy_enabled ≡ c.system_proxy_enabled
  pub dns_enabled : c'.system_dns_enabled ≡ c.system_dns_enabled
  pub tun_enabled : c'.tun_enabled ≡ c.tun_enabled
  pub tun_auto_route : c'.tun_auto_route ≡ c.tun_auto_route

-- The ninth call of a start looks for native IPv6; a look that fails has found none.
abbrev pub found_native : World → Bool
found_native v = not (v.env.fails (v.tick + 8)) && v.env.flag (v.tick + 8)

-- Whether a start from `v` has to bring up the IPv6 path.
abbrev pub wants_ipv6 : TunIpv6 → World → Bool
wants_ipv6 off v = false
wants_ipv6 auto v = found_native v
wants_ipv6 always v = true

module _ (b : Host) where
  abbrev untouched_Undone : (e : Err) (w : World) → Untouched b w → Undone b e w
  untouched_Undone e w h r = h

  pub quiet :
      {A : Type 0} {m : M A} → Quiet m → Ensures (Untouched b) m (λ a. Untouched b) (Undone b)
  quiet k = Ensures-weaken (Quiet-Ensures b none k) (λ w h. h) (λ a w h. h) (λ e w h r. h)

  -- The start from `v` has made `n` calls, and changed nothing.
  abbrev After : World → ℕ → World → Type 0
  After v n w = Untouched b w × (w.env ≡ v.env) × (w.tick ≡ v.tick + n)

  answered :
      {A : Type 0} (v : World) (n : ℕ) (k : Call) (f : World → A)
      → Ensures (After v n) (answer k f) (λ a. After v (suc n)) (Undone b)
  unfolding answer
  answered v n k f = record { at = λ w h. ground arith }

  asked :
      (v : World) (n : ℕ) (k : Call) → Ensures (After v n) (ask k) (λ u. After v (suc n)) (Undone b)
  unfolding ask
  asked v n k = answered v n k (λ w. tt)

  reported :
      (v : World) (n : ℕ) (p : Phase)
      → Ensures (After v n) (report p) (λ u. After v (suc n)) (Undone b)
  unfolding report
  reported v n p = record { at = λ w h. ground arith }

  context_checked :
      (v : World) (n : ℕ) → Ensures (After v n) check_context (λ u. After v (suc n)) (Undone b)
  unfolding check_context
  context_checked v n = record { at = λ w h. ground arith }

  root_required : (v : World) (n : ℕ) → Ensures (After v n) require_root (λ u. After v n) (Undone b)
  unfolding require_root ◌>>=◌
  root_required v n = record { at = λ w h. ground arith }

  existing_refused :
      (v : World) (n : ℕ) (o : Option State)
      → Ensures (After v n) (refuse_existing o) (λ u. After v n) (Undone b)
  unfolding refuse_existing
  existing_refused v n none = record { at = λ w h. h }
  existing_refused v n (some s) = record { at = λ w h r. h.0 }

  loaded_at : (v : World) (n : ℕ) → Ensures (After v n) load (λ o. After v (suc n)) (Undone b)
  unfolding load
  loaded_at v n = answered v n _ _

  -- The configuration that a start goes on with, and whether it goes on with IPv6.
  abbrev Resolved : Config → World → Config × Resolution → Type 0
  Resolved c v p = Serves c p.0 × (p.1.effective ≡ wants_ipv6 c.tun_ipv6 v)

  resolved_as :
      (c c' : Config) (v : World) (t : TunIpv6)
      → Serves c c'
      → c.tun_ipv6 ≡ t
      → Ensures (After v 8) (resolve_as t c') (λ p w. Untouched b w × Resolved c v p) (Undone b)
  unfolding resolve_as detect_native resolve_auto resolve_always without_ipv6 ◌>>=◌
  resolved_as c c' v off s same = record { at = λ w h. ground arith }
  resolved_as c c' v auto s same = record { at = λ w h. ground arith }
  resolved_as c c' v always s same = record { at = λ w h. ground arith }

  resolved :
      (c : Config) (bundle : Option Bundle) (v : World)
      → Ensures
          (After v 8)
          (resolve_ipv6 (record c { bundle = bundle }))
          (λ p w. Untouched b w × Resolved c v p)
          (Undone b)
  unfolding resolve_ipv6
  resolved c bundle v =
      resolved_as c (record c { bundle = bundle }) v c.tun_ipv6 (ground arith) refl

  Quiet-require_root : Quiet require_root
  unfolding require_root
  Quiet-require_root = search quiet_rules

  Quiet-refuse_existing : (o : Option State) → Quiet (refuse_existing o)
  unfolding refuse_existing
  Quiet-refuse_existing none = Quiet-pure tt
  Quiet-refuse_existing (some s) = Quiet-raise state_exists

  checked_plan :
      (c : Config) (v : World) (p : Config × Resolution) (current : BootSession)
      → Resolved c v p
      → Ensures
          (Untouched b)
          (check_host p.0 p.1 current)
          (λ plan w. Untouched b w × Resolved c v (plan.config, plan.resolution))
          (Undone b)
  unfolding check_host
  checked_plan c v (c', r) current s =
      Ensures-bind (quiet (Quiet-when _ (Quiet-ask _) (Quiet-pure _))) λ u.
        Ensures-bind (quiet (Quiet-preflight c')) λ u. Ensures-bind (quiet (Quiet-report _)) λ u.
          Ensures-bind (quiet (Quiet-check_reservations c')) λ u. Ensures-pure _ _ (λ w h. (h, s))

  pub validate_start-Serves :
      (c : Config) (v : World)
      → Ensures
          (λ w. Untouched b w × (w ≡ v))
          (validate_start c)
          (λ plan w.
            Untouched b w
            × (Serves c plan.config × (plan.resolution.effective ≡ wants_ipv6 c.tun_ipv6 v)))
          (Undone b)
  unfolding validate_start
  validate_start-Serves c v =
      Ensures-weaken {P = After v 0}
        (Ensures-bind (context_checked v 0) λ u. Ensures-bind (reported v 1 _) λ u.
          Ensures-bind (root_required v 2) λ u. Ensures-bind (loaded_at v 2) λ existing.
            Ensures-bind (existing_refused v 3 existing) λ u.
              Ensures-bind (answered v 3 _ _) λ bundle. Ensures-bind (asked v 4 _) λ u.
                Ensures-bind (answered v 5 _ _) λ found. Ensures-bind (asked v 6 _) λ u.
                  Ensures-bind (reported v 7 _) λ u. Ensures-bind (resolved c found v) λ p.
                    Ensures-given λ good. Ensures-bind (quiet (Quiet-ask _)) λ u.
                      Ensures-bind (quiet (Quiet-answer _ _))
                        λ current. checked_plan c v p current good)
        (λ w h. (h.0, cc (h.1), ap (λ x. x.tick) h.1 ∙ omega arith)) (λ a w h. h) (λ e w h. h)
