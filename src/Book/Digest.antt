-- ===== src/Book/Digest.antt =====
-- crates/domain/market-data/src/checksum.rs: the 64-bit FNV-1a digest.
use Prim.Native.Nat.{bit_xor}
use shinrai_trade.Common.{ℕ, suc, zero, ◌-◌, ◌*◌, ◌/◌, ◌%◌, [], ◌∷◌}
use shinrai_trade.Common.Int.{ℤ, pos, negsuc}
use shinrai_trade.Book.Levels.{Levels}

abbrev pub fnv_offset : ℕ
fnv_offset = 14695981039346656037

-- `wrapping_mul` by 2^40 + 2^8 + 0xb3.
unfoldable pub mix : ℕ → ℕ → ℕ
mix h byte = bit_xor h byte * 1099511628211 % 18446744073709551616

-- The eight bytes of a number, the lowest first.
unfoldable pub mix_bytes : ℕ → ℕ → ℕ → ℕ
unfolding mix
mix_bytes zero h v = h
mix_bytes (suc n) h v = mix_bytes n (mix h (v % 256)) (v / 256)

unfoldable pub mix_u64 : ℕ → ℕ → ℕ
unfolding mix_bytes
mix_u64 h v = mix_bytes 8 h v

-- `cast_unsigned`: two's complement.
abbrev pub cast_unsigned : ℤ → ℕ
cast_unsigned (pos n) = n
cast_unsigned (negsuc n) = 18446744073709551615 - n

unfoldable pub mix_i64 : ℕ → ℤ → ℕ
unfolding mix_u64
mix_i64 h v = mix_u64 h (cast_unsigned v)

unfoldable pub mix_levels : ℕ → Levels → ℕ
unfolding mix_i64
mix_levels h [] = h
mix_levels h ((price, qty) ∷ l) = mix_levels (mix_i64 (mix_i64 h price) qty) l
