-- ===== src/Wal/Checksum.antt =====
-- `crc32.ChecksumIEEE` of hash/crc32, as internal/queue/wal.go uses it: bit by bit, reflected.
use gojobs.Prelude.{
  ℕ, zero, suc, ◌/◌, ◌%◌, ◌^◌, ◌<◌, ◌≡◌, refl, List, [], ◌∷◌, ◌==◌, if◌then◌else◌, arith,
}
use Prim.Native.Nat.{bit_xor}

-- The polynomial of IEEE 802.3, lowest bit first.
abbrev polynomial : ℕ
polynomial = 0xedb88320

shift_bits : ℕ → ℕ → ℕ
shift_bits zero c = c
shift_bits (suc n) c = shift_bits n (if c % 2 == 1 then bit_xor (c / 2) polynomial else c / 2)

update : ℕ → List ℕ → ℕ
update c [] = c
update c (b ∷ bs) = update (shift_bits 8 (bit_xor c b)) bs

unfoldable pub checksum_ieee : List ℕ → ℕ
unfolding update shift_bits
checksum_ieee record_bytes = bit_xor (update 0xffffffff record_bytes) 0xffffffff % 2 ^ 32

pub checksum_ieee-lt : (bs : List ℕ) → checksum_ieee bs < 2 ^ 32
unfolding checksum_ieee
checksum_ieee-lt bs = omega arith

-- The check value of the algorithm: "123456789".
check_value : checksum_ieee (49 ∷ 50 ∷ 51 ∷ 52 ∷ 53 ∷ 54 ∷ 55 ∷ 56 ∷ 57 ∷ []) ≡ 0xcbf43926
unfolding checksum_ieee
check_value = refl
