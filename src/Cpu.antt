-- ===== src/Cpu.antt =====
-- pkg/uefi/device/x86/cpu.go: the processor's vendor and family, and the frequency of its time stamp
-- counter. The instruction CPUID is a parameter: the registers that it leaves for an index.
pub mod Frequency
use uki_stub.Common.{ℕ, ◌+◌, ◌*◌, ◌/◌, ◌%◌, ◌^◌, Bool, ◌&&◌, ◌||◌, ◌==◌, if◌then◌else◌, leb}

pub record Registers : Type 0 where
  pub eax : ℕ
  pub ebx : ℕ
  pub ecx : ℕ
  pub edx : ℕ

-- CPUID_TIME_STAMP_COUNTER
abbrev pub time_stamp_counter : ℕ
time_stamp_counter = 0x15

abbrev pub cpu_family_intel_core : ℕ
cpu_family_intel_core = 6

-- The variables of the package, as `init` sets them.
pub record Cpu : Type 0 where
  pub max_cpuid_index : ℕ
  pub std_vendor_name0 : ℕ
  pub std_cpuid1 : Registers

unfoldable pub init : (ℕ → Registers) → Cpu
init cpuid = record {
  max_cpuid_index = (cpuid 0).eax;
  std_vendor_name0 = (cpuid 0).ebx;
  std_cpuid1 = cpuid 1;
}

-- A sum of two uint16.
unfoldable pub get_extended_cpu_family : Cpu → ℕ
get_extended_cpu_family c =
    let eax = c.std_cpuid1.eax in ((eax / 2 ^ 8) % 16 + (eax / 2 ^ 20) % 256) % 2 ^ 16

abbrev pub is_intel : Cpu → Bool
is_intel c = c.std_vendor_name0 == 0x756e6547

abbrev pub is_amd : Cpu → Bool
is_amd c = c.std_vendor_name0 == 0x68747541

unfoldable pub is_intel_family_core : Cpu → Bool
unfolding get_extended_cpu_family
is_intel_family_core c = is_intel c && get_extended_cpu_family c == cpu_family_intel_core

-- The switch over the processor series.
unfoldable pub series_crystal : ℕ → ℕ
series_crystal family =
    if family == 0x5F
    then 25000000
    else if family == 0x5C || family == 0x7A
    then 19200000
    else 24000000

-- The frequency of the crystal: that of CPUID, or that of the series, or 0, where the function
-- returns.
unfoldable pub core_xtal_frequency : Cpu → ℕ → ℕ
unfolding is_intel_family_core series_crystal
core_xtal_frequency c ecx =
    if ecx == 0
    then if is_intel_family_core c then series_crystal (get_extended_cpu_family c) else 0
    else ecx

-- CpuidCoreClockCalculateTscFrequency, in uint64.
unfoldable pub tsc_frequency : (ℕ → Registers) → Cpu → ℕ
unfolding core_xtal_frequency
tsc_frequency cpuid c =
    let r = cpuid time_stamp_counter in
    let xtal = core_xtal_frequency c r.ecx in
    if r.eax == 0 || r.ebx == 0
    then 0
    else if xtal == 0
    then 0
    else ((xtal * r.ebx % 2 ^ 64 + r.eax / 2) % 2 ^ 64) / r.eax

-- InternalGetPerformanceCounterFrequency
unfoldable pub performance_counter_frequency : (ℕ → Registers) → Cpu → ℕ
unfolding tsc_frequency
performance_counter_frequency cpuid c =
    if leb time_stamp_counter c.max_cpuid_index then tsc_frequency cpuid c else 0
