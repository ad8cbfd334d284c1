-- ===== src/Puller/Tests.antt =====
-- crates/garret-puller/src/main.rs: hits, run.
use garret.Common.{mem, ◌≡◌, ◌≤◌, ◌||◌, refl, false, List, [], ◌∷◌, text_eq, any}
use garret.Puller.{new_bumps, hit}
use garret.Puller.Queue.{Hit, hit_all, is_stale_hit, times, hit_all_lem}

abbrev burst : List Hit
burst =
    record { hash = 1 ∷ []; last_accessed_at = 0; now = 100 }
    ∷ record { hash = 1 ∷ []; last_accessed_at = 0; now = 101 }
    ∷ record { hash = 2 ∷ []; last_accessed_at = 99; now = 101 }
    ∷ []

one_write : (hit_all (new_bumps 60) burst).pending ≡ (1 ∷ []) ∷ []
unfolding hit text_eq
one_write = refl

hit_all_lem_example :
    (mem (1 ∷ []) (hit_all (new_bumps 60) burst).pending
      ≡ false || any (is_stale_hit 60 (1 ∷ [])) burst)
    × (0 ≤ 1 → times (1 ∷ []) (hit_all (new_bumps 60) burst).pending ≤ 1)
hit_all_lem_example = hit_all_lem (new_bumps 60) burst (1 ∷ [])
