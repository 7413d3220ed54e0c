-- ===== src/Process/Pids/Tests.antt =====
-- Process ids at concrete bitmaps.
use martian_os.Prelude.{ℕ, ◌<◌, ◌≡◌, ◌≢◌, refl, ◌⊎◌, List, [], ◌∷◌, get_or, set}
use martian_os.Prelude.Int.{pos, minus_one}
use martian_os.Process.Pids.{record_process}
use martian_os.Process.Pids.Laws.{record_process_lem}

-- Processes 0, 1 and 3 run.
abbrev three_run : List ℕ
three_run = 1 ∷ 1 ∷ 0 ∷ 1 ∷ 0 ∷ 0 ∷ []

next_is_two : (record_process three_run).0 ≡ pos 2
unfolding record_process
next_is_two = refl

record_process_lem_example :
    let r = record_process three_run in
    ((r ≡ (minus_one, three_run)) × ((j : ℕ) → j < 6 → get_or three_run j 0 ≢ 0))
    ⊎ ((m : ℕ) × (r ≡ (pos m, set three_run m 1))
        × (m < 6)
        × (get_or three_run m 0 ≡ 0)
        × ((j : ℕ) → j < m → get_or three_run j 0 ≢ 0))
record_process_lem_example = record_process_lem three_run refl
