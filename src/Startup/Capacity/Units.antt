-- ===== src/Startup/Capacity/Units.antt =====
-- The units of a capacity (cmd/backup-node/main.go: parseCapacity).
use prosiak.Base.{
  ℕ, ◌^◌, Text, text, List, [], ◌∷◌, ◌++◌, Bool, true, ◌&&◌, ◌||◌, Option-cases, none, some,
  reverse, reverse-append, reverse-reverse, ◌≡◌, inl, inr, refl, ap, ◌∙◌, arith, leb, ◌==◌, All,
  trim_space, cut_prefix,
}
use prosiak.Startup.Capacity.{units, split_unit}

-- A character that ends a number.
abbrev pub numeral : ℕ → Bool
numeral c = (leb b'0' c && leb c b'9') || (c == b'.')

-- The loop on the reversed text.
unfoldable by_reversed : List (Text × ℕ) → Text → Text → Text × ℕ
by_reversed [] raw r = (raw, 1)
by_reversed ((suffix, mul) ∷ us) raw r =
    let rest = by_reversed us raw r in
    elim (cut_prefix (reverse suffix) r) [
      | none ↦ rest
      | some number ↦ (trim_space (reverse number), mul)
    ]

split_unit-reversed :
    (us : List (Text × ℕ)) (raw : Text) → split_unit us raw ≡ by_reversed us raw (reverse raw)
unfolding split_unit by_reversed
split_unit-reversed [] raw = refl
split_unit-reversed ((suffix, mul) ∷ us) raw =
    elim (Option-cases (cut_prefix (reverse suffix) (reverse raw))) [
      | inl other ↦ rw (split_unit, by_reversed, other) (split_unit-reversed us raw)
      | inr (rest, e) ↦ rw (split_unit, by_reversed, e) refl
    ]

module _ (n : Text) (c : ℕ) (h : numeral c ≡ true) where
  abbrev number : Text
  number = n ++ c ∷ []

  reverse-number : (suffix : Text) → reverse (number ++ suffix) ≡ reverse suffix ++ c ∷ reverse n
  reverse-number suffix =
      reverse-append number suffix ∙ ap (◌++◌ (reverse suffix)) (reverse-append n (c ∷ []))

  reverse-front : reverse (c ∷ reverse n) ≡ number
  reverse-front = reverse-append (c ∷ []) (reverse n) ∙ ap (λ s. s ++ c ∷ []) (reverse-reverse n)

  abbrev Split : Text × ℕ → Type 0
  Split (suffix, mul) = split_unit units (number ++ suffix) ≡ (trim_space number, mul)

  by_unit :
      (suffix : Text) (mul : ℕ)
      → by_reversed units (number ++ suffix) (reverse suffix ++ c ∷ reverse n)
        ≡ (trim_space (reverse (c ∷ reverse n)), mul)
      → Split (suffix, mul)
  by_unit suffix mul e =
      split_unit-reversed units (number ++ suffix)
      ∙ ap (by_reversed units (number ++ suffix)) (reverse-number suffix)
      ∙ e
      ∙ ap (λ s. (trim_space s, mul)) reverse-front

  bytes_unit :
      (raw : Text)
      → by_reversed units raw (b'B' ∷ c ∷ reverse n) ≡ (trim_space (reverse (c ∷ reverse n)), 1)
  unfolding by_reversed cut_prefix
  bytes_unit raw = ground (arith, h)

  -- The unit of a capacity is taken off whole: behind a text that ends in a digit or a point, each of
  -- the units stands for its own multiplier, and what is in front of it, less the spaces around it, is
  -- the number. So a longer unit is never taken for the shorter one that it ends in.
  pub split_unit-units :
      All (λ u. split_unit units (number ++ u.0) ≡ (trim_space number, u.1)) units
  unfolding by_reversed cut_prefix
  split_unit-units = (
    by_unit (text "TIB") (2 ^ 40) refl,
    (
      by_unit (text "TB") (2 ^ 40) refl,
      (
        by_unit (text "GIB") (2 ^ 30) refl,
        (
          by_unit (text "GB") (2 ^ 30) refl,
          (
            by_unit (text "MIB") (2 ^ 20) refl,
            (
              by_unit (text "MB") (2 ^ 20) refl,
              (
                by_unit (text "KIB") (2 ^ 10) refl,
                (
                  by_unit (text "KB") (2 ^ 10) refl,
                  (by_unit (text "B") 1 (bytes_unit (number ++ text "B")), tt),
                ),
              ),
            ),
          ),
        ),
      ),
    ),
  )
