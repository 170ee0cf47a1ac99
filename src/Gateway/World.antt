-- ===== src/Gateway/World.antt =====
-- The host that the gateway takes over, the state file beside it, and the dependencies of
-- `gatewayDeps` as operations on both.
--
-- A dependency answers as the world's environment says, a value for each call: whether it fails,
-- whether a failing change has taken effect all the same, and what it returns. Every call is
-- recorded in the trace, the latest first.
use opensurge_fnos.Base.{Bool, List, Option, if◌then◌else◌, none, some, suc, ℕ, ◌∷◌}
use opensurge_fnos.Exec.{Exec, err, ok}
use opensurge_fnos.Gateway.Types.{
  BootSession, Bundle, Call, Err, Phase, ProxySnapshot, Resolver, State, context_err, fault,
  load_state, progress, remove_state, save_state,
}
use opensurge_fnos.Text.{Text}

pub record Process : Type 0 where
  pub pid : ℕ
  pub digest : ℕ

-- The HTTP and HTTPS proxy of the host's network service: the user's, or mihomo's mixed port.
pub data Proxy : Type 0 where
  user : ProxySnapshot → Proxy
  mixed : ℕ → Proxy

pub record Host : Type 0 where
  pub mihomo_process : Option Process
  pub dnsmasq_process : Option Process
  pub packet_process : Option Process
  pub forwarding : ℕ  -- net.ipv4.ip_forward
  pub firewall : Bool  -- pf is enabled
  pub anchor : Bool  -- the gateway's rules are loaded
  pub alias : Bool  -- the downstream IPv6 gateway address is on the interface
  pub resolver : Resolver
  pub proxy : Proxy

pub record Iface : Type 0 where
  pub name : Text
  pub addrs : List (Option ℕ)  -- To4() of each address

-- What the dependencies will answer, at each call.
pub record Env : Type 0 where
  pub root : Bool
  pub boot : BootSession
  pub ifaces : List Iface
  pub fails : ℕ → Bool
  pub partly : ℕ → Bool
  pub flag : ℕ → Bool
  pub number : ℕ → ℕ
  pub digest : ℕ → ℕ
  pub profile : ℕ  -- config.MihomoProfileDigest
  pub resolvers : List Text
  pub domains : List Text
  pub prepared_bundle : Option Bundle  -- config.PrepareDevicePolicy
  pub resolved_bundle : Option Bundle  -- mihomo.PrepareDevicePolicy
  pub cancels : ℕ → Bool

pub record World : Type 0 where
  pub env : Env
  pub tick : ℕ
  pub trace : List Call
  pub host : Host
  pub file : Option State

abbrev pub M : Type 0 → Type 0
M A = Exec World Err A

abbrev pub called : Call → World → World
called c w = record w { tick = suc w.tick; trace = c ∷ w.trace }

-- A call that changes nothing of the host or the state file, and may fail.
unfoldable pub answer : {A : Type 0} → Call → (World → A) → M A
answer c f w = if w.env.fails w.tick then (err (fault c), called c w) else (ok (f w), called c w)

unfoldable pub ask : Call → M (Unit {0})
unfolding answer
ask c = answer c (λ w. tt)

-- A call that changes nothing and cannot fail.
unfoldable pub observe : {A : Type 0} → Call → (World → A) → M A
observe c f w = (ok (f w), called c w)

unfoldable pub report : Phase → M (Unit {0})
unfolding observe
report p = observe (progress p) (λ w. tt)

-- ctx.Err()
unfoldable pub check_context : M (Unit {0})
check_context w =
    if w.env.cancels w.tick
    then (err Err.cancelled, called context_err w)
    else (ok tt, called context_err w)

abbrev pub set_host : (Host → Host) → World → World
set_host f w = record w { host = f w.host }

-- A change of the host. One that fails may have taken effect all the same.
unfoldable pub change : Call → (Host → Host) → M (Unit {0})
change c f w =
    if w.env.fails w.tick
    then (err (fault c), called c (if w.env.partly w.tick then set_host f w else w))
    else (ok tt, called c (set_host f w))

-- runtime.LoadState, SaveState and RemoveState. A save that fails after the rename has written.
unfoldable pub load : M (Option State)
unfolding answer
load = answer load_state (λ w. w.file)

unfoldable pub save : State → M (Unit {0})
save s w =
    if w.env.fails w.tick
    then (
      err (fault (save_state s)),
      called (save_state s) (if w.env.partly w.tick then record w { file = some s } else w),
    )
    else (ok tt, called (save_state s) (record w { file = some s }))

unfoldable pub remove : M (Unit {0})
remove w =
    if w.env.fails w.tick
    then (err (fault remove_state), called remove_state w)
    else (ok tt, called remove_state (record w { file = none }))
