-- ===== src/Storage/Budget.antt =====
-- crates/garret-server/src/storage.rs: the upload budget in permits. A shift to the right is a division
-- by a power of two, and the low bits that a mask keeps are its remainder.
use garret.Common.{ℕ, zero, suc, ◌+◌, ◌/◌, ◌%◌, ◌^◌, if◌then◌else◌, ltb, ◌==◌, min, max}
pub mod Permits
mod Tests

-- `ilog2`, of a number below 2 ^ (fuel + 1).
abbrev pub ilog2 : ℕ → ℕ → ℕ
ilog2 zero n = 0
ilog2 (suc fuel) n = let more = ilog2 fuel (n / 2) in if ltb n 2 then 0 else suc more

abbrev pub trailing_zeros : ℕ → ℕ → ℕ
trailing_zeros zero n = 0
trailing_zeros (suc fuel) n =
    let more = trailing_zeros fuel (n / 2) in if n % 2 == 0 then suc more else 0

unfoldable pub units_ceil : ℕ → ℕ → ℕ
units_ceil bytes shift = bytes / 2 ^ shift + (if bytes % 2 ^ shift == 0 then 0 else 1)

-- `(part_size >> 8).clamp(1, 64 * 1024).ilog2()`.
abbrev pub shift_of : ℕ → ℕ
shift_of part_size = ilog2 16 (min (max (part_size / 256) 1) 65536)

pub record Budget : Type 0 where
  pub unit : ℕ
  pub part_units : ℕ
  pub total_units : ℕ

unfoldable pub budget : ℕ → ℕ → Budget
unfolding units_ceil
budget part_size max_in_flight_bytes =
    let shift = shift_of part_size in
    let part_units = units_ceil part_size shift in
    record {
      unit = 2 ^ shift;
      part_units = part_units;
      total_units = max (max_in_flight_bytes / 2 ^ shift) part_units;
    }

-- `clamp(1, part_units)`.
unfoldable pub units_for : ℕ → ℕ → ℕ → ℕ
unfolding units_ceil
units_for bytes unit part_units = min (max (units_ceil bytes (trailing_zeros 64 unit)) 1) part_units

-- `UploadLimits::acquire`: how many permits a buffer takes.
unfoldable pub permits : ℕ → ℕ → ℕ → ℕ
unfolding budget units_for
permits part_size max_bytes bytes =
    let b = budget part_size max_bytes in units_for bytes b.unit b.part_units
