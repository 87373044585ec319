-- ===== src/Base/Addresses.antt =====
-- `isAddress` (not strict) and `getAddress` of viem, which the program calls and this repository
-- does not hold: an interface.
use mathlib.Core.Bool.{Bool}
use mathlib.Core.Option.{Option, none, some}
use final_arc.Base.Tests.{if◌then◌else◌}
use final_arc.Base.Words.{Text}

pub record Addresses : Type 0 where
  pub is_address : Text → Bool
  pub get_address : Text → Text

-- `canonicalizeAddress` of `paymentPolicy.ts`, and `checksum` there.
unfoldable pub canonicalize_address : Addresses → Text → Option Text
canonicalize_address v value = if v.is_address value then some (v.get_address value) else none
