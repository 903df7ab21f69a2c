-- ===== src/Chunker/Split.antt =====
-- A whole stream (internal/server/handlers.go: backupFile reading readContentDefinedChunk): its
-- chunks put together, and their sizes.
use prosiak.Base.{
  int64, ℕ, zero, suc, ℤ, pos, List, [], ◌∷◌, ◌++◌, Bool, false, Option, none, some, ◌*◌, ◌≤◌, ◌<◌,
  ◌≡◌, ap, sym, ◌∙◌, ◌⊎◌, inl, inr, arith, length, length-append, ltb_ℤ, pos_part, if◌then◌else◌,
}
use prosiak.Chunker.{
  Limits, limits, Read, chunk, eof, fault, read_loop, Chunks, done, broken, next, on_read, split,
  default_chunk_size, least_size, greatest_size,
}
use prosiak.Chunker.Cut.{Parts, Sized, read_loop-Parts, read_loop-Sized}

-- The chunks put together; `none` for a stream that breaks off.
unfoldable pub joined : Chunks → Option (List ℕ)
joined done = some []
joined broken = none
joined (next content cs) = elim (joined cs) [ none ↦ none | some bs ↦ some (content ++ bs) ]

next-joined :
    (content : List ℕ) (cs : Chunks) (bs : List ℕ)
    → joined cs ≡ some bs
    → joined (next content cs) ≡ some (content ++ bs)
unfolding joined
next-joined content cs bs h = ground arith

-- No chunk is empty or above the greatest size, and only the last may be below the least.
abbrev pub Lawful : Limits → Chunks → Type 0
Lawful lim done = Unit {0}
Lawful lim broken = Unit {0}
Lawful lim (next content cs) =
    (0 < length content)
    × (length content ≤ lim.max_size)
    × ((cs ≡ done) ⊎ (lim.min_size ≤ length content))
    × Lawful lim cs

module _ (lim : Limits) (ordered : lim.min_size ≤ lim.max_size) (roomy : 0 < lim.max_size) where
  -- A chunk takes at least one byte from the stream.
  pub shorter :
      (faulty : Bool) (bs content rest : List ℕ)
      → Parts faulty 0 bs (chunk content rest)
      → Sized lim 0 (chunk content rest)
      → length rest < length bs
  shorter faulty bs content rest p s =
      omega (arith, ap length p, length-append content rest, s.2 roomy)

  on_read-joined :
      (fuel : ℕ) (bs : List ℕ) (r : Read)
      → length bs ≤ fuel
      → Parts false 0 bs r
      → Sized lim 0 r
      → ((rest : List ℕ) → length rest < fuel → joined (split fuel lim false rest) ≡ some rest)
      → joined (on_read (split fuel lim false) r) ≡ some bs
  unfolding joined
  on_read-joined fuel bs (chunk content rest) h p s ih =
      next-joined content (split fuel lim false rest) rest
        (ih rest (omega (arith, shorter false bs content rest p s)))
      ∙ ap some p
  on_read-joined fuel bs eof h p s ih = ap some (sym p.0)
  on_read-joined fuel bs fault h p s ih = ground arith

  pub joined-split :
      (fuel : ℕ) (bs : List ℕ) → length bs < fuel → joined (split fuel lim false bs) ≡ some bs
  unfolding split
  joined-split zero bs h = absurd (omega arith)
  joined-split (suc fuel) bs h =
      on_read-joined fuel bs (read_loop lim false 0 0 bs) (omega arith)
        (read_loop-Parts lim false 0 0 bs) (read_loop-Sized lim false 0 0 bs ordered (omega arith))
        (joined-split fuel)

  split-empty : (fuel : ℕ) (bs : List ℕ) → bs ≡ [] → 0 < fuel → split fuel lim false bs ≡ done
  unfolding split read_loop
  split-empty zero bs e h = absurd (omega arith)
  split-empty (suc fuel) [] e h = ground arith
  split-empty (suc fuel) (b ∷ bs) e h = absurd (omega (arith, ap length e))

  on_read-Lawful :
      (fuel : ℕ) (bs : List ℕ) (r : Read)
      → length bs ≤ fuel
      → Parts false 0 bs r
      → Sized lim 0 r
      → ((rest : List ℕ) → length rest < fuel → Lawful lim (split fuel lim false rest))
      → Lawful lim (on_read (split fuel lim false) r)
  on_read-Lawful fuel bs (chunk content rest) h p s ih =
      let fewer = shorter false bs content rest p s in
      (
        omega (arith, s.2 roomy),
        omega arith,
        elim s.1 [
          | inl last ↦ inl (split-empty fuel rest last (omega arith))
          | inr full ↦ inr (omega arith)
        ],
        ih rest (omega arith),
      )
  on_read-Lawful fuel bs eof h p s ih = tt
  on_read-Lawful fuel bs fault h p s ih = tt

  pub split-Lawful :
      (fuel : ℕ) (bs : List ℕ) → length bs < fuel → Lawful lim (split fuel lim false bs)
  unfolding split
  split-Lawful zero bs h = absurd (omega arith)
  split-Lawful (suc fuel) bs h =
      on_read-Lawful fuel bs (read_loop lim false 0 0 bs) (omega arith)
        (read_loop-Parts lim false 0 0 bs) (read_loop-Sized lim false 0 0 bs ordered (omega arith))
        (split-Lawful fuel)

greatest_size-ordered :
    (low : ℕ) (high : ℤ) → 0 < low → (low ≤ greatest_size low high) × (0 < greatest_size low high)
unfolding greatest_size
greatest_size-ordered low high h = ground arith

least_size-pos : (target : ℕ) → 0 < least_size target
unfolding least_size
least_size-pos target = ground arith

-- The sizes are in order, whatever target is asked for.
pub limits_ordered :
    (target : ℤ)
    → ((limits target).min_size ≤ (limits target).max_size) × (0 < (limits target).max_size)
unfolding limits
limits_ordered target =
    let t = if ltb_ℤ (pos 0) target then pos_part target else default_chunk_size in
    greatest_size-ordered (least_size t) (int64 (t * 4)) (least_size-pos t)

-- The chunks that the server makes of a stream are the stream, in order and whole: with a round of
-- fuel for each byte and one more, whatever the target size, nothing is lost or added.
pub joined-split-limits :
    (target : ℤ) (fuel : ℕ) (bs : List ℕ)
    → length bs < fuel
    → joined (split fuel (limits target) false bs) ≡ some bs
joined-split-limits target fuel bs h =
    let sizes = limits_ordered target in joined-split (limits target) sizes.0 sizes.1 fuel bs h

-- Whatever the target size, with enough fuel no chunk of a stream is empty, none is longer than
-- the greatest size, and none but the last is shorter than the least size.
pub split-limits-Lawful :
    (target : ℤ) (fuel : ℕ) (bs : List ℕ)
    → length bs < fuel
    → Lawful (limits target) (split fuel (limits target) false bs)
split-limits-Lawful target fuel bs h =
    let sizes = limits_ordered target in split-Lawful (limits target) sizes.0 sizes.1 fuel bs h
