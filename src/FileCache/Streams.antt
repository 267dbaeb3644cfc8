-- ===== src/FileCache/Streams.antt =====
-- framework/src/filecache/rw_utils.c over files of the operating system. A file that is written
-- has room for so many more bytes; fwrite takes what fits, and fails where nothing does. fread gives
-- what is left of a file, as <stdio.h> says.
pub mod Codec
use Prim.Native.Nat.{min, bit_or}
use cweb.Base.{
  ℕ, zero, suc, ◌+◌, ◌-◌, ◌*◌, ◌/◌, ◌%◌, ◌^◌, Bool, true, false, List, [], ◌∷◌, ◌++◌, Option, none,
  some, ltb, leb, ◌==◌, if◌then◌else◌, length, take, drop, reverse, Bytes, get_or, ◌>>=◌,
}

pub record OutFile : Type 0 where
  pub written : Bytes
  pub room : ℕ

-- What a writer leaves and whether it gave 0. `fault` is a read through NULL.
pub data Written : Type 0 where
  ok : OutFile → Written
  failed : OutFile → Written
  fault : Written

-- if (a != 0 || b != 0) return -1;
infixl 5 ◌then_write◌
abbrev pub ◌then_write◌ : Written → (OutFile → Written) → Written
ok f then_write k = k f
failed f then_write k = failed f
fault then_write k = fault

abbrev fwrite : Bytes → OutFile → ℕ × OutFile
fwrite buf f =
    let n = min (length buf) f.room in
    (n, record { written = f.written ++ take n buf; room = f.room - n })

-- Each turn writes a byte at least, so that the length of the buffer bounds the turns.
pub write_loop : ℕ → Bytes → OutFile → Written
write_loop zero buf f = ok f
write_loop (suc turns) buf f =
    let (n, f') = fwrite buf f in
    let more = write_loop turns (drop n buf) f' in
    if length buf == 0 then ok f else if n == 0 then failed f else more

unfoldable pub write_bytes : Bytes → OutFile → Written
unfolding write_loop
write_bytes buf f = write_loop (length buf) buf f

-- (uint8_t)(v >> (8 * k))
abbrev byte_of : ℕ → ℕ → ℕ
byte_of v k = v / 2 ^ (8 * k) % 256

pub u32_le : ℕ → Bytes
u32_le v = byte_of v 0 ∷ byte_of v 1 ∷ byte_of v 2 ∷ byte_of v 3 ∷ []

pub u64_le : ℕ → Bytes
u64_le v =
    byte_of v 0
    ∷ byte_of v 1
    ∷ byte_of v 2
    ∷ byte_of v 3
    ∷ byte_of v 4
    ∷ byte_of v 5
    ∷ byte_of v 6
    ∷ byte_of v 7
    ∷ []

unfoldable pub write_u32_le : ℕ → OutFile → Written
unfolding write_bytes u32_le
write_u32_le v f = write_bytes (u32_le v) f

unfoldable pub write_u64_le : ℕ → OutFile → Written
unfolding write_bytes u64_le
write_u64_le v f = write_bytes (u64_le v) f

-- A file that is read: the bytes before the position, the last one first, and those behind it.
pub record InFile : Type 0 where
  pub behind : Bytes
  pub ahead : Bytes

abbrev pub fread : ℕ → InFile → Bytes × InFile
fread n f = (
  take n f.ahead,
  record { behind = reverse (take n f.ahead) ++ f.behind; ahead = drop n f.ahead },
)

-- `none` is -1: the file ended too early.
pub read_bytes : ℕ → InFile → Option (Bytes × InFile)
read_bytes n f = let (got, f') = fread n f in if length got == n then some (got, f') else none

pub join_u32 : Bytes → ℕ
join_u32 b =
    let byte = λ (k : ℕ). get_or b k 0 * 2 ^ (8 * k) in
    bit_or (bit_or (bit_or (get_or b 0 0) (byte 1)) (byte 2)) (byte 3)

pub join_u64 : Bytes → ℕ
join_u64 b =
    let byte = λ (k : ℕ). get_or b k 0 * 2 ^ (8 * k) in
    let low = bit_or (bit_or (bit_or (get_or b 0 0) (byte 1)) (byte 2)) (byte 3) in
    bit_or (bit_or (bit_or (bit_or low (byte 4)) (byte 5)) (byte 6)) (byte 7)

pub read_u32_le : InFile → Option (ℕ × InFile)
unfolding read_bytes join_u32
read_u32_le f = read_bytes 4 f >>= λ r. some (join_u32 r.0, r.1)

pub read_u64_le : InFile → Option (ℕ × InFile)
unfolding read_bytes join_u64
read_u64_le f = read_bytes 8 f >>= λ r. some (join_u64 r.0, r.1)

-- fseek(f, (long)n, SEEK_CUR): from 2^63 on the offset is negative, and no file has a negative position.
unfoldable pub skip_bytes : ℕ → InFile → Option InFile
skip_bytes n f =
    let back = 2 ^ 64 - n in
    if ltb n (2 ^ 63)
    then some (fread n f).1
    else if leb back (length f.behind)
    then some
        (record { behind = drop back f.behind; ahead = reverse (take back f.behind) ++ f.ahead })
    else none
