-- ===== src/Chunker/Tests.antt =====
-- Runs of the chunker on concrete input.
use prosiak.Base.{[], ◌∷◌, ◌≡◌, refl, false, pos, get_or}
use prosiak.Chunker.{
  next_power_of_two, gear_table, roll, limits, Limits, read_loop, split, done, next,
}

power_runs : next_power_of_two 524_288 ≡ 524_288
unfolding next_power_of_two
power_runs = refl

limits_runs :
    limits (pos 100_000) ≡ record { min_size = 25_000; max_size = 400_000; mask = 131_071 }
unfolding limits
limits_runs = refl

gear_runs : get_or gear_table 0 0 ≡ 0x6e789e6aa1b965f4
unfolding gear_table
gear_runs = refl

abbrev small : Limits
small = record { min_size = 2; max_size = 4; mask = 1 }

split_runs :
    split 9 small false (1 ∷ 2 ∷ 3 ∷ 4 ∷ 5 ∷ 6 ∷ 7 ∷ [])
    ≡ next (1 ∷ 2 ∷ []) (next (3 ∷ 4 ∷ []) (next (5 ∷ 6 ∷ []) (next (7 ∷ []) done)))
unfolding split read_loop roll
split_runs = refl
