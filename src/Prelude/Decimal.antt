-- ===== src/Prelude/Decimal.antt =====
-- Numbers as texts: Python's `str` of a number, and the format `06d`.
use Prim.Native.Nat.{ℕ, zero, suc, ◌-◌, ◌/◌, ◌%◌}
use Prim.Native.String.{String, len, ◌++◌}
use infra_joint_planner.Prelude.Tests.{if◌then◌else◌, ltb, eqb}

digit : ℕ → String
digit n =
    if eqb n 0
    then "0"
    else if eqb n 1
    then "1"
    else if eqb n 2
    then "2"
    else if eqb n 3
    then "3"
    else if eqb n 4
    then "4"
    else if eqb n 5
    then "5"
    else if eqb n 6
    then "6"
    else if eqb n 7
    then "7"
    else if eqb n 8
    then "8"
    else "9"

-- The digits of a number; as many rounds as the number itself are enough.
digits_of : ℕ → ℕ → String
unfolding digit
digits_of zero n = digit (n % 10)
digits_of (suc rounds) n =
    let more = digits_of rounds (n / 10) in if ltb n 10 then digit n else more ++ digit (n % 10)

unfoldable pub decimal : ℕ → String
unfolding digits_of
decimal n = digits_of n n

zeros : ℕ → String
zeros zero = ""
zeros (suc n) = "0" ++ zeros n

-- `f"{n:06d}"`
unfoldable pub six_digits : ℕ → String
unfolding decimal zeros
six_digits n = let d = decimal n in zeros (6 - len d) ++ d
