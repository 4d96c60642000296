-- ===== src/Metering/Rates.antt =====
-- `lookupSandboxRate`, `sizeOf`, `isFree` and the price of an interval.
use nimplex.Prelude.{
  ℕ, ◌+◌, ◌*◌, ◌/◌, String, Bool, true, false, not, Option, none, some, ◌==◌, str_eq,
}
use nimplex.Storage.Records.{Json, Members, null, boolean, number, non_finite, text, array, object}
use nimplex.Store.Members.{get_member}
use nimplex.Store.Records.{Sandbox, docker, e2b, SandboxSessionState}

pub record SandboxSize : Type 0 where
  pub cpu_count : Option ℕ
  pub memory_mb : Option ℕ
  pub custom_template : Bool

abbrev pub no_size : SandboxSize
no_size = record { cpu_count = none; memory_mb = none; custom_template = false }

-- Rates are in 1/1024 of a nano-dollar for a second, a unit in which the list prices are whole.
abbrev pub vcpu_second : ℕ
vcpu_second = 14000 * 1024

abbrev pub mib_second : ℕ
mib_second = 4500

-- the rate for a reported size, or for none: without one, a custom template cannot be priced
abbrev pub e2b_rate : Option ℕ → Option ℕ → Bool → Option ℕ
e2b_rate (some cpus) (some mib) custom = some (cpus * vcpu_second + mib * mib_second)
e2b_rate _ _ true = none
e2b_rate _ _ false = some (2 * vcpu_second + 512 * mib_second)

unfoldable pub lookup_sandbox_rate : Sandbox → SandboxSize → Option ℕ
lookup_sandbox_rate docker size = some 0
lookup_sandbox_rate e2b size = e2b_rate size.cpu_count size.memory_mb size.custom_template

abbrev pub is_free : Sandbox → Bool
unfolding lookup_sandbox_rate
is_free provider = elim (lookup_sandbox_rate provider no_size) [
  | none ↦ false
  | some rate ↦ rate == 0
]

-- `roundUsdPrecise(seconds * rate)`, in nano-dollars
unfoldable pub interval_cost : ℕ → ℕ → ℕ
interval_cost milliseconds rate = (milliseconds * rate + 512000) / 1024000

-- What a number's JSON text stands for, by the engine's parser.
module _ (number_value : String → ℕ) where
  abbrev pub as_number : Option Json → Option ℕ
  as_number (some (number n)) = some (number_value n)
  as_number _ = none

  -- JavaScript's `Boolean`
  abbrev pub is_truthy : Option Json → Bool
  is_truthy none = false
  is_truthy (some null) = false
  is_truthy (some (boolean b)) = b
  is_truthy (some (number n)) = not (number_value n == 0)
  is_truthy (some non_finite) = false
  is_truthy (some (text s)) = not (str_eq s "")
  is_truthy (some (array xs)) = true
  is_truthy (some (object ms)) = true

  abbrev pub size_in : Members → SandboxSize
  unfolding get_member
  size_in ms = record {
    cpu_count = as_number (get_member "cpuCount" ms);
    memory_mb = as_number (get_member "memoryMB" ms);
    custom_template = is_truthy (get_member "template" ms);
  }

  abbrev pub size_of_state : Json → SandboxSize
  size_of_state (object ms) = size_in ms
  size_of_state _ = no_size

  unfoldable pub size_of : Option SandboxSessionState → SandboxSize
  size_of none = no_size
  size_of (some s) = size_of_state s.provider_state
