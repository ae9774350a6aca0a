-- ===== src/Bits.antt =====
-- server/game/game_helpers.go: getBit and modifyBit, on unsigned integers of width `w`.
use pacbot.Prelude.{ℕ, ◌+◌, ◌-◌, ◌/◌, ◌%◌, ◌^◌, Bool, ltb, ◌==◌, if◌then◌else◌}

-- `(num >> bitIdx) & 1 == 1`.
unfoldable pub get_bit : ℕ → ℕ → Bool
get_bit num i = num / 2 ^ i % 2 == 1

-- `num |= 1 << i` and `num &= ^(1 << i)`: the bit's place value is added or taken away, unless the
-- bit has the wanted value already or `1 << i` has left the width.
unfoldable pub modify_bit : ℕ → ℕ → ℕ → Bool → ℕ
unfolding get_bit
modify_bit w num i v =
    if ltb i w
    then (if v
        then (if get_bit num i then num else num + 2 ^ i)
        else (if get_bit num i then num - 2 ^ i else num))
    else num
