-- ===== src/Startup/Capacity.antt =====
-- The capacity of a node (cmd/backup-node/main.go: parseCapacity). Floating-point numbers are a
-- parameter; strings.ToUpper is taken on ASCII letters.
pub mod Units
use prosiak.Base.{
  cut_suffix, ℕ, ◌-◌, ◌^◌, ℤ, Text, text, List, [], ◌∷◌, map, Bool, ◌&&◌, Option, none, some, leb,
  if◌then◌else◌, eqb, trim_space,
}

-- The floats of strconv.ParseFloat: `positive x` is `x > 0` where x is a number, and `scaled x m` is
-- int64(x * float64(m)).
pub record Floats : Type 1 where
  pub Float : Type 0
  pub parse : Text → Option Float
  pub not_positive : Float → Bool
  pub scaled : Float → ℕ → ℤ

abbrev pub upper : ℕ → ℕ
upper c = if leb b'a' c && leb c b'z' then c - 32 else c

-- The suffixes with their multipliers, in the order of the tests.
abbrev pub units : List (Text × ℕ)
units =
    (text "TIB", 2 ^ 40)
    ∷ (text "TB", 2 ^ 40)
    ∷ (text "GIB", 2 ^ 30)
    ∷ (text "GB", 2 ^ 30)
    ∷ (text "MIB", 2 ^ 20)
    ∷ (text "MB", 2 ^ 20)
    ∷ (text "KIB", 2 ^ 10)
    ∷ (text "KB", 2 ^ 10)
    ∷ (text "B", 1)
    ∷ []

-- The number and the multiplier: the loop over the units.
unfoldable pub split_unit : List (Text × ℕ) → Text → Text × ℕ
split_unit [] raw = (raw, 1)
split_unit ((suffix, mul) ∷ us) raw =
    let rest = split_unit us raw in
    elim (cut_suffix suffix raw) [ none ↦ rest | some number ↦ (trim_space number, mul) ]

module _ (floats : Floats) where
  open floats use {parse, not_positive, scaled}

  -- parseCapacity
  unfoldable pub parse_capacity : Text → Option ℤ
  unfolding split_unit
  parse_capacity value =
      let raw = trim_space (map upper value) in
      let (number, mul) = split_unit units raw in
      if eqb raw [] then none else elim (parse number) [
        | none ↦ none
        | some parsed ↦ if not_positive parsed then none else some (scaled parsed mul)
      ]
