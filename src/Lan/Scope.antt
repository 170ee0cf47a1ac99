-- ===== src/Lan/Scope.antt =====
-- lan.Scope. An IPv4 address is a number below 2 ^ 32, a mask of `ones` bits drops the remainder
-- of a division by 2 ^ (32 - ones), and the arithmetic on uint32 is written out. A parser's
-- failure, of an address that is no IPv4 address, is `none`.
use opensurge_fnos.Base.{
  Bool, Option, false, if◌then◌else◌, leb, none, not, some, zero, ℕ, ◌%◌, ◌&&◌, ◌+◌, ◌-◌, ◌==◌, ◌^◌,
}
use opensurge_fnos.Device.Policy.{negsuc, pos, ℤ}
use opensurge_fnos.Exec.{Result, err, ok}

pub record Scope : Type 0 where
  pub gateway : ℕ
  pub ones : ℕ  -- of the mask

pub data ScopeErr : Type 0 where
  bad_gateway bad_prefix : ScopeErr

unfoldable pub prefix_len_or_default : ℤ → ℤ
prefix_len_or_default (pos zero) = pos 24
prefix_len_or_default n = n

unfoldable pub valid_prefix_len : ℤ → Bool
valid_prefix_len (pos n) = leb 8 n && leb n 30
valid_prefix_len (negsuc n) = false

unfoldable pub magnitude : ℤ → ℕ
magnitude (pos n) = n
magnitude (negsuc n) = 0

unfoldable pub new_scope : Option ℕ → ℤ → Result ScopeErr Scope
unfolding prefix_len_or_default valid_prefix_len magnitude
new_scope none prefix_len = err bad_gateway
new_scope (some gateway) prefix_len =
    let n = prefix_len_or_default prefix_len in
    if not (valid_prefix_len n)
    then err bad_prefix
    else ok (record { gateway = gateway; ones = magnitude n })

-- The number of addresses of the subnet.
unfoldable pub block : Scope → ℕ
block s = 2 ^ (32 - s.ones)

unfoldable pub masked : Scope → ℕ → ℕ
unfolding block
masked s ip = ip - ip % block s

unfoldable pub network : Scope → ℕ
unfolding masked
network s = masked s s.gateway

unfoldable pub contains_ip : Scope → ℕ → Bool
unfolding masked network
contains_ip s ip = masked s ip == masked s (network s)

unfoldable pub broadcast : Scope → ℕ
unfolding network block
broadcast s = network s + (block s - 1)

unfoldable pub usable_host : Scope → ℕ → Bool
unfolding contains_ip network broadcast
usable_host s ip =
    if not (contains_ip s ip) then false else not (ip == network s) && not (ip == broadcast s)

unfoldable pub host_count : Scope → ℕ
unfolding block
host_count s = block s - 2

unfoldable pub offset : Scope → ℕ → Option ℕ
unfolding contains_ip network
offset s ip = if not (contains_ip s ip) then none else some (ip - network s)

unfoldable pub host_at : Scope → ℕ → ℕ
unfolding network
host_at s n = (network s + n % 2 ^ 32) % 2 ^ 32
