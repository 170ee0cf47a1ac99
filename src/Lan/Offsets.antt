-- ===== src/Lan/Offsets.antt =====
-- Addresses of the subnet and their offsets.
use native.Mathlib.Nat.{
  div-add-mod', div-lt_iff_lt-mul, mod-lt, mod-eq_of_lt, mul_assoc, pow-suc, mul-add-mod_self_right,
  mul-le-mul_right, one-le-pow,
}
use opensurge_fnos.Base.{
  Bool, ap, arith, false, if◌then◌else◌, leb, not, refl, some, subst, suc, sym, true, zero, ℕ, ◌%◌,
  ◌&&◌, ◌*◌, ◌+◌, ◌-◌, ◌/◌, ◌<◌, ◌==◌, ◌^◌, ◌∙◌, ◌≡◌, ◌≤◌,
}
use opensurge_fnos.Device.Policy.{negsuc, pos, ℤ}
use opensurge_fnos.Exec.{err, ok, ok_injective}
use opensurge_fnos.Lan.Scope.{
  Scope, bad_prefix, block, broadcast, contains_ip, host_at, host_count, magnitude, masked, network,
  new_scope, offset, prefix_len_or_default, usable_host, valid_prefix_len,
}

pub record IsScope (s : Scope) : Type 0 where
  pub prefix_min : 8 ≤ s.ones
  pub prefix_max : s.ones ≤ 30
  pub gateway_bound : s.gateway < 2 ^ 32

pub new_scope-IsScope :
    (gateway : ℕ) (prefix_len : ℤ) (s : Scope)
    → gateway < 2 ^ 32
    → new_scope (some gateway) prefix_len ≡ ok s
    → IsScope s
unfolding new_scope
new_scope-IsScope gateway prefix_len s bound h = by_length (prefix_len_or_default prefix_len) h
  where
    by_test :
        (n : ℕ) (b : Bool)
        → (leb 8 n && leb n 30) ≡ b
        → (if not b then err bad_prefix else ok (record { gateway = gateway; ones = n })) ≡ ok s
        → IsScope s
    by_test n true e h = subst IsScope (ok_injective _ _ h) (record {
      prefix_min = ground (arith, e);
      prefix_max = ground (arith, e);
      gateway_bound = bound;
    })
    by_test n false e h = absurd cc

    by_length :
        (n : ℤ)
        → (if not (valid_prefix_len n)
            then err bad_prefix
            else ok (record { gateway = gateway; ones = magnitude n }))
          ≡ ok s
        → IsScope s
    by_length (pos n) h = by_test n _ refl h
    by_length (negsuc n) h = absurd cc

module _ (s : Scope) where
  pub block-positive : 0 < block s
  unfolding block
  block-positive = one-le-pow (32 - s.ones) 2 (omega arith)

  -- An address without the host bits is a multiple of the block.
  masked-div : (ip : ℕ) → masked s ip ≡ ip / block s * block s
  unfolding masked
  masked-div ip = omega (arith, div-add-mod' ip (block s))

  masked-split : (q n : ℕ) → n < block s → masked s (q * block s + n) ≡ q * block s
  unfolding masked
  masked-split q n bound = omega (arith, mul-add-mod_self_right q (block s) n, mod-eq_of_lt bound)

  network-div : network s ≡ s.gateway / block s * block s
  unfolding network
  network-div = masked-div s.gateway

  masked-network : masked s (network s) ≡ network s
  masked-network =
      let split = masked-split (s.gateway / block s) 0 block-positive in
      let whole : s.gateway / block s * block s + 0 ≡ network s = omega (arith, network-div) in
      cc (split, whole, network-div)

  -- The addresses of the subnet are those that the network address and a host part make up.
  pub contained : (ip : ℕ) → contains_ip s ip ≡ true → ip ≡ network s + ip % block s
  unfolding contains_ip
  contained ip h =
      let same : masked s ip ≡ masked s (network s) = ground (arith, h) in
      omega (arith, same, masked-network, masked-div ip, div-add-mod' ip (block s))

  pub contains-host : (n : ℕ) → n < block s → contains_ip s (network s + n) ≡ true
  unfolding contains_ip
  contains-host n bound =
      let split = masked-split (s.gateway / block s) n bound in
      let whole : s.gateway / block s * block s + n ≡ network s + n = omega (arith, network-div) in
      let same : masked s (network s + n) ≡ network s = cc (split, whole, network-div) in
      ground (arith, same, masked-network)

power_sum : (j k : ℕ) → 2 ^ j * 2 ^ k ≡ 2 ^ (j + k)
power_sum j zero =
    let whole : j + zero ≡ j = omega arith in
    let one : 2 ^ j * 1 ≡ 2 ^ j = omega arith in one ∙ ap (λ n. 2 ^ n) (sym whole)
power_sum j (suc k) =
    let last : j + suc k ≡ suc (j + k) = omega arith in
    let step : 2 ^ j * 2 ^ suc k ≡ 2 ^ j * 2 ^ k * 2 =
      ap (λ n. 2 ^ j * n) (pow-suc 2 k) ∙ sym (mul_assoc (2 ^ j) (2 ^ k) 2) in
    step ∙ ap (λ n. n * 2) (power_sum j k) ∙ sym (pow-suc 2 (j + k)) ∙ ap (λ n. 2 ^ n) (sym last)

-- The whole block of a subnet is below 2 ^ 32.
split_bits : (k : ℕ) → k ≤ 32 → 2 ^ (32 - k) * 2 ^ k ≡ 2 ^ 32
split_bits k bound =
    let sum : 32 - k + k ≡ 32 = omega arith in power_sum (32 - k) k ∙ ap (λ n. 2 ^ n) sum

block_fits : (s : Scope) → IsScope s → network s + block s ≤ 2 ^ 32
block_fits s scope =
    let whole : 2 ^ s.ones * block s ≡ 2 ^ 32 =
      unfold block in omega (arith, split_bits s.ones (omega (arith, scope.prefix_max))) in
    let below : s.gateway / block s < 2 ^ s.ones =
      (div-lt_iff_lt-mul (block-positive s)).1 (omega (arith, whole, scope.gateway_bound)) in
    let next : (s.gateway / block s + 1) * block s ≤ 2 ^ s.ones * block s =
      mul-le-mul_right (block s) (omega (arith, below)) in
    omega (arith, next, whole, network-div s)

host_at-sum : (s : Scope) (n : ℕ) → IsScope s → n < block s → host_at s n ≡ network s + n
unfolding host_at
host_at-sum s n scope bound =
    let fits = block_fits s scope in
    let small : n % 2 ^ 32 ≡ n = mod-eq_of_lt (omega (arith, fits, bound)) in
    let sum : (network s + n) % 2 ^ 32 ≡ network s + n =
      mod-eq_of_lt (omega (arith, fits, bound)) in
    cc (small, sum)

-- Every offset below the size of the subnet is the offset of its host address, and every address
-- of the subnet has an offset below that size, of which it is the host address.
pub offset-host_at :
    (s : Scope) (n ip : ℕ)
    → IsScope s
    → n < block s
    → contains_ip s ip ≡ true
    → (offset s (host_at s n) ≡ some n)
      × ((m : ℕ) × (offset s ip ≡ some m) × (m < block s) × (host_at s m ≡ ip))
unfolding offset
offset-host_at s n ip scope bound inside =
    let sum = host_at-sum s n scope bound in
    let there : contains_ip s (host_at s n) ≡ true =
      subst (λ ip. contains_ip s ip ≡ true) (sym sum) (contains-host s n bound) in
    let back : host_at s n - network s ≡ n = omega (arith, sum) in
    let split = contained s ip inside in
    let small : ip - network s < block s = omega (arith, split, mod-lt ip (block-positive s)) in
    let whole : network s + (ip - network s) ≡ ip = omega (arith, split) in
    (
      cc (there, back),
      (ip - network s, cc inside, small, host_at-sum s (ip - network s) scope small ∙ whole),
    )

two_hosts : (s : Scope) → IsScope s → 2 ≤ block s
unfolding block
two_hosts s scope =
    let whole : 32 - s.ones ≡ suc (31 - s.ones) = omega (arith, scope.prefix_max) in
    let more : 1 ≤ 2 ^ (31 - s.ones) = one-le-pow (31 - s.ones) 2 (omega arith) in
    subst (λ n. 2 ≤ 2 ^ n) (sym whole) (omega (arith, more, pow-suc 2 (31 - s.ones)))

between :
    (start size n : ℕ)
    → 2 ≤ size
    → n < size
    → (not (start + n == start) && not (start + n == start + (size - 1)))
      ≡ (leb 1 n && leb n (size - 2))
between start size n two bound = ground arith

-- The assignable hosts of a subnet are exactly the offsets from 1 to the host count: neither the
-- network address nor the broadcast address is one, and every other address is.
pub usable_host-host_at :
    (s : Scope) (n : ℕ)
    → IsScope s
    → n < block s
    → usable_host s (host_at s n) ≡ (leb 1 n && leb n (host_count s))
unfolding usable_host broadcast host_count
usable_host-host_at s n scope bound =
    let sum = host_at-sum s n scope bound in
    let inside = contains-host s n bound in
    let ends = between (network s) (block s) n (two_hosts s scope) bound in cc (sum, inside, ends)
