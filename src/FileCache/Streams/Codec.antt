-- ===== src/FileCache/Streams/Codec.antt =====
-- What the readers of rw_utils.c get back of what its writers wrote.
use Prim.Native.Nat.{min, bit_or}
use cweb.Base.{
  ℕ, zero, suc, ◌+◌, ◌-◌, ◌*◌, ◌/◌, ◌%◌, ◌^◌, ◌<◌, ◌≡◌, refl, ap, sym, ◌∙◌, [], ◌∷◌, ◌++◌, some,
  length, take, drop, reverse, Bytes, ◌>>=◌, arith, append-nil, take-append, drop-append, take_all,
  drop_all, length-drop, ap₂,
}
use native.Mathlib.Nat.{le_refl}
use cweb.Base.Bits.{bit_or_high}
use cweb.FileCache.Streams.{
  OutFile, ok, failed, write_loop, write_bytes, u32_le, u64_le, InFile, read_bytes, join_u32,
  join_u64, read_u32_le, read_u64_le,
}

-- The next byte above those that are joined.
join_byte :
    (k v : ℕ) {a : ℕ}
    → a ≡ v % 2 ^ k
    → v % 2 ^ k < 2 ^ k
    → v % 2 ^ k + v / 2 ^ k % 256 * 2 ^ k ≡ v % 2 ^ (k + 8)
    → bit_or a (v / 2 ^ k % 256 * 2 ^ k) ≡ v % 2 ^ (k + 8)
join_byte k v e h s = rw e (bit_or_high k (v % 2 ^ k) (v / 2 ^ k % 256) h ∙ s)

first_byte : (v : ℕ) → v / 2 ^ 0 % 256 ≡ v % 2 ^ 8
first_byte v = omega arith

low_word : (v : ℕ) → join_u32 (u32_le v) ≡ v % 2 ^ 32
unfolding join_u32 u32_le
low_word v =
    join_byte 24 v
      (join_byte 16 v (join_byte 8 v (first_byte v) (omega arith) (omega arith)) (omega arith)
        (omega arith))
      (omega arith) (omega arith)

whole_word : (v : ℕ) → join_u64 (u64_le v) ≡ v % 2 ^ 64
unfolding join_u64 u64_le join_u32 u32_le
whole_word v =
    join_byte 56 v
      (join_byte 48 v
        (join_byte 40 v (join_byte 32 v (low_word v) (omega arith) (omega arith)) (omega arith)
          (omega arith))
        (omega arith) (omega arith))
      (omega arith) (omega arith)

-- The state of a file that has been read up to the end of `b`.
abbrev pub past : Bytes → Bytes → Bytes → InFile
past s b rest = record { behind = reverse s ++ b; ahead = rest }

pub read_bytes-append :
    (s b rest : Bytes)
    → read_bytes (length s) (record { behind = b; ahead = s ++ rest }) ≡ some (s, past s b rest)
unfolding read_bytes
read_bytes-append s b rest = rw (take-append s rest, drop-append s rest) (ground arith)

pub read_u32_le-append :
    (v : ℕ) (b rest : Bytes)
    → v < 2 ^ 32
    → read_u32_le (record { behind = b; ahead = u32_le v ++ rest })
      ≡ some (v, past (u32_le v) b rest)
unfolding read_u32_le u32_le
read_u32_le-append v b rest h =
    ap (λ o. o >>= λ r. some (join_u32 r.0, r.1)) (read_bytes-append (u32_le v) b rest)
    ∙ ap (λ n. some (n, past (u32_le v) b rest)) (low_word v ∙ omega arith)

pub read_u64_le-append :
    (v : ℕ) (b rest : Bytes)
    → v < 2 ^ 64
    → read_u64_le (record { behind = b; ahead = u64_le v ++ rest })
      ≡ some (v, past (u64_le v) b rest)
unfolding read_u64_le u64_le
read_u64_le-append v b rest h =
    ap (λ o. o >>= λ r. some (join_u64 r.0, r.1)) (read_bytes-append (u64_le v) b rest)
    ∙ ap (λ n. some (n, past (u64_le v) b rest)) (whole_word v ∙ omega arith)

write_loop_done : (turns : ℕ) (f : OutFile) → write_loop turns [] f ≡ ok f
unfolding write_loop
write_loop_done zero f = refl
write_loop_done (suc turns) f = refl

write_loop_full :
    (turns : ℕ) (s w : Bytes)
    → 0 < turns
    → 0 < length s
    → write_loop turns s (record { written = w; room = 0 })
      ≡ failed (record { written = w; room = 0 })
unfolding write_loop
write_loop_full zero s w h k = elim h [ ]
write_loop_full (suc turns) [] w h k = elim k [ ]
write_loop_full (suc turns) (c ∷ cs) w h k = ground arith

-- A file with room enough takes the whole buffer.
pub write_bytes_fits :
    (s w : Bytes) (room : ℕ)
    → write_bytes s (record { written = w; room = length s + room })
      ≡ ok (record { written = w ++ s; room = room })
unfolding write_bytes write_loop
write_bytes_fits [] w room =
    ap₂ (λ u (r : ℕ). ok (record { written = u; room = r })) (sym (append-nil w)) (omega arith)
write_bytes_fits (c ∷ cs) w room =
    let whole : min (suc (length cs)) (suc (length cs) + room) ≡ suc (length cs) = omega arith in
    let left : suc (length cs) + room - suc (length cs) ≡ room = omega arith in
    rw
      (
        whole,
        take_all (length cs) cs (le_refl _),
        drop_all (length cs) cs (le_refl _),
        left,
        write_loop_done (length cs),
      )
      (ground arith)

-- One that has not fails.
write_bytes_full :
    (s w : Bytes) (room : ℕ)
    → room < length s
    → write_bytes s (record { written = w; room = room })
      ≡ failed (record { written = w ++ take room s; room = 0 })
unfolding write_bytes write_loop
write_bytes_full [] w room h = elim h [ ]
write_bytes_full (c ∷ cs) w zero h =
    write_loop_full (suc (length cs)) (c ∷ cs) w (omega arith) (omega arith)
    ∙ ap (λ u. failed (record { written = u; room = 0 })) (sym (append-nil w))
write_bytes_full (c ∷ cs) w (suc room) h =
    let part : min (suc (length cs)) (suc room) ≡ suc room = omega arith in
    let none_left : suc room - suc room ≡ 0 = omega arith in
    rw
      (
        part,
        none_left,
        write_loop_full (length cs) (drop room cs) (w ++ c ∷ take room cs) (omega arith)
            (omega (arith, length-drop room cs)),
      )
      (ground arith)
