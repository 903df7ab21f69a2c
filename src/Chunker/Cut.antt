-- ===== src/Chunker/Cut.antt =====
-- One chunk: what `read_loop` takes from the stream, and how much of it.
use prosiak.Base.{
  ℕ, List, [], ◌∷◌, ◌++◌, Bool, true, false, Bool-cases, ◌&&◌, ◌+◌, ◌≤◌, ◌<◌, ◌≡◌, refl, ap, ◌⊎◌,
  inl, inr, arith, ltb, leb, ◌==◌, bit_and, length,
}
use prosiak.Chunker.{Limits, Read, chunk, eof, fault, with_byte, roll, read_loop}

-- A chunk and the rest make up the stream. Only an unbroken stream ends, with no byte read, and
-- only a broken one fails.
abbrev pub Parts : Bool → ℕ → List ℕ → Read → Type 0
Parts faulty len bs (chunk content rest) = content ++ rest ≡ bs
Parts faulty len bs eof = (bs ≡ []) × (len ≡ 0) × (faulty ≡ false)
Parts faulty len bs fault = faulty ≡ true

with_byte-Parts :
    (faulty : Bool) (len b : ℕ) (bs : List ℕ) (r : Read)
    → Parts faulty (len + 1) bs r
    → Parts faulty len (b ∷ bs) (with_byte b r)
with_byte-Parts faulty len b bs (chunk content rest) p = ap (◌∷◌ b) p
with_byte-Parts faulty len b bs eof p = absurd (omega (arith, p.1))
with_byte-Parts faulty len b bs fault p = p

pub read_loop-Parts :
    (lim : Limits) (faulty : Bool) (len hash : ℕ) (bs : List ℕ)
    → Parts faulty len bs (read_loop lim faulty len hash bs)
unfolding read_loop
read_loop-Parts lim faulty len hash [] = ground arith
read_loop-Parts lim faulty len hash (b ∷ bs) =
    let n = roll hash b in
    elim (Bool-cases (ltb len lim.max_size)) [
      | inl below ↦ elim (Bool-cases (leb lim.min_size (len + 1) && (bit_and n lim.mask == 0))) [
        | inl cut ↦ rw (below, cut) refl
        | inr on ↦
            rw (below, on)
              (with_byte-Parts faulty len b bs _ (read_loop-Parts lim faulty (len + 1) n bs))
      ]
      | inr full ↦ rw full refl
    ]

-- A chunk is no longer than the greatest size, and no shorter than the least unless it is the last.
abbrev pub Sized : Limits → ℕ → Read → Type 0
Sized lim len (chunk content rest) =
    (len + length content ≤ lim.max_size)
    × ((rest ≡ []) ⊎ (lim.min_size ≤ len + length content))
    × ((len < lim.max_size) → 0 < len + length content)
Sized lim len eof = Unit {0}
Sized lim len fault = Unit {0}

with_byte-Sized :
    (lim : Limits) (len b : ℕ) (r : Read) → Sized lim (len + 1) r → Sized lim len (with_byte b r)
with_byte-Sized lim len b (chunk content rest) s = ground arith
with_byte-Sized lim len b eof s = tt
with_byte-Sized lim len b fault s = tt

pub read_loop-Sized :
    (lim : Limits) (faulty : Bool) (len hash : ℕ) (bs : List ℕ)
    → lim.min_size ≤ lim.max_size
    → len ≤ lim.max_size
    → Sized lim len (read_loop lim faulty len hash bs)
unfolding read_loop
read_loop-Sized lim faulty len hash [] m h = ground arith
read_loop-Sized lim faulty len hash (b ∷ bs) m h =
    let n = roll hash b in
    elim (Bool-cases (ltb len lim.max_size)) [
      | inl below ↦ elim (Bool-cases (leb lim.min_size (len + 1) && (bit_and n lim.mask == 0))) [
        | inl cut ↦ rw (below, cut) (ground arith)
        | inr on ↦
            rw (below, on)
              (with_byte-Sized lim len b _
                (read_loop-Sized lim faulty (len + 1) n bs m (ground arith)))
      ]
      | inr full ↦ rw full (ground arith)
    ]
