-- ===== src/Base/Decimal.antt =====
-- Numbers in decimal, as a template literal writes them.
use Prim.Native.Nat.{ℕ, zero, suc, ◌+◌, ◌-◌, ◌*◌, ◌/◌, ◌%◌, ◌≤◌, ◌<◌}
use mathlib.Core.Path.{◌≡◌, refl, ap, sym, ◌∙◌}
use mathlib.Core.List.{[], ◌∷◌, ◌++◌}
use native.Mathlib.Omega.{arith}
use multimux.Base.Tests.{ltb, if◌then◌else◌}
use multimux.Base.Search.{All, All-append}
use multimux.Base.Strings.{Str}

decimal_go : ℕ → ℕ → Str
decimal_go zero n = []
decimal_go (suc fuel) n =
    let more = decimal_go fuel (n / 10) ++ (48 + n % 10) ∷ [] in
    if ltb n 10 then (48 + n) ∷ [] else more

unfoldable pub decimal : ℕ → Str
unfolding decimal_go
decimal n = decimal_go (suc n) n

-- The number that digits stand for.
read : ℕ → Str → ℕ
read acc [] = acc
read acc (c ∷ s) = read (acc * 10 + (c - 48)) s

read-append : (acc : ℕ) (s t : Str) → read acc (s ++ t) ≡ read (read acc s) t
unfolding read
read-append acc [] t = refl
read-append acc (c ∷ s) t = read-append (acc * 10 + (c - 48)) s t

read-decimal_go : (fuel n : ℕ) → n < fuel → read 0 (decimal_go fuel n) ≡ n
unfolding read decimal_go
read-decimal_go zero n h = absurd (omega arith)
read-decimal_go (suc fuel) n h = ground (
  arith,
  read-append 0 (decimal_go fuel (n / 10)) ((48 + n % 10) ∷ []),
  read-decimal_go fuel (n / 10),
)

-- Different numbers have different numerals.
pub decimal_inj : (m n : ℕ) → decimal m ≡ decimal n → m ≡ n
unfolding decimal
decimal_inj m n e =
    sym (read-decimal_go (suc m) m (omega arith))
    ∙ ap (read 0) e
    ∙ read-decimal_go (suc n) n (omega arith)

All-decimal_go : (fuel n : ℕ) → All (λ c. (48 ≤ c) × (c < 58)) (decimal_go fuel n)
unfolding decimal_go
All-decimal_go zero n = tt
All-decimal_go (suc fuel) n = ground (
  arith,
  All-append (λ c. (48 ≤ c) × (c < 58)) (decimal_go fuel (n / 10)) ((48 + n % 10) ∷ [])
      (All-decimal_go fuel (n / 10)) ((omega arith, omega arith), tt),
)

pub All-decimal : (n : ℕ) → All (λ c. (48 ≤ c) × (c < 58)) (decimal n)
unfolding decimal
All-decimal n = All-decimal_go (suc n) n
