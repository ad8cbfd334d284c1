-- ===== src/Storage/Budget/Tests.antt =====
-- The upload budget of crates/garret-server/src/storage.rs for parts of 8 MiB and a cap of 256 MiB.
use garret.Common.{ℕ, ◌*◌, ◌≤◌, ◌≡◌, refl, arith}
use garret.Storage.Budget.{budget, units_for}
use garret.Storage.Budget.Permits.{budget-units_for}

abbrev part : ℕ
part = 8388608

abbrev cap : ℕ
cap = 268435456

a_unit : (budget part cap).unit ≡ 32768
unfolding budget
a_unit = refl

budget-units_for_example :
    (1 ≤ units_for 40000 (budget part cap).unit (budget part cap).part_units)
    × (40000
        ≤ units_for 40000 (budget part cap).unit (budget part cap).part_units
          * (budget part cap).unit)
    × (units_for 40000 (budget part cap).unit (budget part cap).part_units
        ≤ (budget part cap).part_units)
    × ((budget part cap).part_units ≤ (budget part cap).total_units)
budget-units_for_example = budget-units_for part cap 40000 (omega arith) (omega arith)
