-- ===== src/Chunker.antt =====
-- Content-defined chunking (internal/server/handlers.go): readContentDefinedChunk,
-- nextPowerOfTwo and makeGearTable. A reader is the bytes that are left and how they end.
pub mod Cut
pub mod Split
pub mod Power
pub mod Tests
use prosiak.Base.{
  ℕ, zero, suc, ℤ, pos, negsuc, pos_part, List, [], ◌∷◌, Bool, ◌&&◌, ◌+◌, ◌-◌, ◌*◌, ◌/◌, ◌%◌, ◌^◌,
  bit_and, bit_or, bit_xor, ltb, leb, ltb_ℤ, ◌==◌, if◌then◌else◌, get_or, word, int64,
}

abbrev pub default_chunk_size : ℕ
default_chunk_size = 512 * 1024

abbrev pub max_chunk_size : ℕ
max_chunk_size = 64 * 1024 * 1024

-- for shift := 1; shift < 64; shift *= 2 { value |= value >> shift }
unfoldable pub smear : ℕ → ℕ
smear v =
    let a = bit_or v (v / 2 ^ 1) in
    let b = bit_or a (a / 2 ^ 2) in
    let c = bit_or b (b / 2 ^ 4) in
    let d = bit_or c (c / 2 ^ 8) in let e = bit_or d (d / 2 ^ 16) in bit_or e (e / 2 ^ 32)

-- nextPowerOfTwo at a value that is not negative.
unfoldable pub next_power_of_two : ℕ → ℕ
unfolding smear
next_power_of_two v = if leb v 1 then 1 else smear (v - 1) + 1

-- One round of makeGearTable, which mixes the seed.
unfoldable pub mix : ℕ → ℕ
mix seed =
    let y = (bit_xor seed (seed / 2 ^ 30) * 0xbf58476d1ce4e5b9) % word in
    let z = (bit_xor y (y / 2 ^ 27) * 0x94d049bb133111eb) % word in bit_xor z (z / 2 ^ 31)

unfoldable pub gear_rows : ℕ → ℕ → List ℕ
unfolding mix
gear_rows zero seed = []
gear_rows (suc n) seed =
    let next = (seed + 0x9e3779b97f4a7c15) % word in mix next ∷ gear_rows n next

-- makeGearTable
unfoldable pub gear_table : List ℕ
unfolding gear_rows
gear_table = gear_rows 256 0x9e3779b97f4a7c15

-- hash = (hash << 1) + gearTable[b], on uint64.
unfoldable pub roll : ℕ → ℕ → ℕ
unfolding gear_table
roll hash b = (hash * 2 + get_or gear_table b 0) % word

-- The three numbers that the function computes from the target size.
pub record Limits : Type 0 where
  pub min_size : ℕ
  pub max_size : ℕ
  pub mask : ℕ

-- minSize
unfoldable pub least_size : ℕ → ℕ
least_size target = if ltb (target / 4) (8 * 1024) then 8 * 1024 else target / 4

-- maxSize, from minSize and the product that may have wrapped.
unfoldable pub greatest_size : ℕ → ℤ → ℕ
greatest_size low high = if ltb_ℤ high (pos low) then low else pos_part high

unfoldable pub limits : ℤ → Limits
unfolding next_power_of_two least_size greatest_size
limits requested =
    let target = if ltb_ℤ (pos 0) requested then pos_part requested else default_chunk_size in
    let m = next_power_of_two target - 1 in
    record {
      min_size = least_size target;
      max_size = greatest_size (least_size target) (int64 (target * 4));
      mask = if m == 0 then default_chunk_size - 1 else m;
    }

-- `faulty` tells a stream that breaks off with an error from one that ends.
pub record Reader : Type 0 where
  pub bytes : List ℕ
  pub faulty : Bool

pub data Read : Type 0 where
  chunk : List ℕ → List ℕ → Read
  eof fault : Read

abbrev pub with_byte : ℕ → Read → Read
with_byte b (chunk content rest) = chunk (b ∷ content) rest
with_byte b eof = eof
with_byte b fault = fault

abbrev pub at_end : ℕ → Bool → Read
at_end len faulty = if faulty then fault else if len == 0 then eof else chunk [] []

-- The loop: `len` bytes are read, `hash` is theirs, and the result holds what follows them.
unfoldable pub read_loop : Limits → Bool → ℕ → ℕ → List ℕ → Read
read_loop lim faulty len hash [] = if ltb len lim.max_size then at_end len faulty else chunk [] []
read_loop lim faulty len hash (b ∷ bs) =
    let next = roll hash b in
    let more = with_byte b (read_loop lim faulty (len + 1) next bs) in
    if ltb len lim.max_size
    then (if leb lim.min_size (len + 1) && (bit_and next lim.mask == 0)
        then chunk (b ∷ []) bs
        else more)
    else chunk [] (b ∷ bs)

-- readContentDefinedChunk
unfoldable pub read_content_defined_chunk : Reader → ℤ → Read
unfolding read_loop limits
read_content_defined_chunk r target = read_loop (limits target) r.faulty 0 0 r.bytes

pub data Chunks : Type 0 where
  done : Chunks
  broken : Chunks
  next : List ℕ → Chunks → Chunks

-- What the loop of backupFile does with the result of a read, but for its work on a chunk.
abbrev pub on_read : (List ℕ → Chunks) → Read → Chunks
on_read continue (chunk content rest) = next content (continue rest)
on_read continue eof = done
on_read continue fault = broken

-- The chunks of a stream: the reading loop of backupFile.
unfoldable pub split : ℕ → Limits → Bool → List ℕ → Chunks
split zero lim faulty bs = broken
split (suc fuel) lim faulty bs = on_read (split fuel lim faulty) (read_loop lim faulty 0 0 bs)
