-- ===== src/Cpu/Frequency.antt =====
-- How exact the frequency of pkg/uefi/device/x86/cpu.go is.
use native.Mathlib.Nat.{mul-le-mul, div-mul-le_self, lt-div-mul-add}
use uki_stub.Common.{ℕ, ◌+◌, ◌-◌, ◌*◌, ◌/◌, ◌%◌, ◌^◌, ◌≤◌, ◌<◌, ◌≡◌, ◌≢◌, arith, le→leb, ==_ne}
use uki_stub.Cpu.{
  Registers, Cpu, time_stamp_counter, series_crystal, core_xtal_frequency, tsc_frequency,
  performance_counter_frequency,
}

-- `f` is a nearest whole number to `n / d`.
abbrev pub IsNearest : ℕ → ℕ → ℕ → Type 0
IsNearest f n d = (2 * (f * d) ≤ 2 * n + d) × (2 * n ≤ 2 * (f * d) + d)

divide-IsNearest : (n d : ℕ) → 0 < d → IsNearest ((n + d / 2) / d) n d
divide-IsNearest n d h =
    let m = n + d / 2 in
    (omega (arith, div-mul-le_self m d), omega (arith, lt-div-mul-add {a = m} h))

product_fits : (a b : ℕ) → a < 2 ^ 32 → b < 2 ^ 32 → a * b ≤ (2 ^ 32 - 1) * (2 ^ 32 - 1)
product_fits a b ha hb = mul-le-mul {n₂ = 2 ^ 32 - 1} {m₂ = 2 ^ 32 - 1} (omega arith) (omega arith)

core_xtal_frequency_fits : (c : Cpu) (ecx : ℕ) → ecx < 2 ^ 32 → core_xtal_frequency c ecx < 2 ^ 32
unfolding core_xtal_frequency series_crystal
core_xtal_frequency_fits c ecx h = ground arith

-- On a processor that has leaf 0x15, with registers of 32 bits, both parts of the ratio and a
-- crystal that is known, no product wraps and the result is a nearest whole number to the
-- frequency of the crystal times EBX over EAX.
pub performance_counter_frequency-IsNearest :
    (cpuid : ℕ → Registers) (c : Cpu)
    → time_stamp_counter ≤ c.max_cpuid_index
    → (cpuid time_stamp_counter).eax < 2 ^ 32
    → (cpuid time_stamp_counter).ebx < 2 ^ 32
    → (cpuid time_stamp_counter).ecx < 2 ^ 32
    → (cpuid time_stamp_counter).eax ≢ 0
    → (cpuid time_stamp_counter).ebx ≢ 0
    → core_xtal_frequency c (cpuid time_stamp_counter).ecx ≢ 0
    → IsNearest
        (performance_counter_frequency cpuid c)
        (core_xtal_frequency c (cpuid time_stamp_counter).ecx * (cpuid time_stamp_counter).ebx)
        (cpuid time_stamp_counter).eax
unfolding performance_counter_frequency tsc_frequency
performance_counter_frequency-IsNearest cpuid c has ha hb hc a0 b0 x0 =
    let r = cpuid time_stamp_counter in
    let x = core_xtal_frequency c r.ecx in
    let n = x * r.ebx in
    let small = product_fits x r.ebx (core_xtal_frequency_fits c r.ecx hc) hb in
    let e1 : n % 2 ^ 64 ≡ n = omega arith in
    let e2 : (n + r.eax / 2) % 2 ^ 64 ≡ n + r.eax / 2 = omega arith in
    rw (le→leb _ _ has, ==_ne _ _ a0, ==_ne _ _ b0, ==_ne _ _ x0, e1, e2)
      (divide-IsNearest n r.eax (omega arith))
