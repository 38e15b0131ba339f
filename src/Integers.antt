-- ===== src/Integers.antt =====
-- Go's signed integers.
use fluxplane_system.Prelude.{ℕ, ◌%◌, ◌-◌, Bool, true, false, not, ltb, if◌then◌else◌}

pub data ℤ : Type 0 where
  pos negsuc : ℕ → ℤ

abbrev pub ltbℤ : ℤ → ℤ → Bool
ltbℤ (pos a) (pos b) = ltb a b
ltbℤ (pos a) (negsuc b) = false
ltbℤ (negsuc a) (pos b) = true
ltbℤ (negsuc a) (negsuc b) = ltb b a

-- A result of `int64` arithmetic, wrapped around.
unfoldable pub int64 : ℕ → ℤ
int64 n =
    let m = n % 0x10000000000000000 in
    if ltb m 0x8000000000000000 then pos m else negsuc (0xffffffffffffffff - m)

-- `v <= 0`
abbrev pub is_unset : ℤ → Bool
is_unset v = not (ltbℤ (pos 0) v)
