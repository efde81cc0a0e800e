-- ===== src/Base/Decimal.antt =====
-- `'%d'` on a natural number.
use Prim.Native.Nat.{ℕ, zero, suc, ◌+◌, ◌/◌, ◌%◌}
use mathlib.Core.List.{[], ◌∷◌}
use nwtool.Base.Tests.{ltb, if◌then◌else◌}
use nwtool.Base.Strings.{Text}

digits_onto : ℕ → ℕ → Text → Text
digits_onto zero n acc = acc
digits_onto (suc f) n acc =
    let d = b'0' + n % 10 in
    let rest = digits_onto f (n / 10) (d ∷ acc) in if ltb n 10 then d ∷ acc else rest

-- A number has no more digits than its value plus one.
unfoldable pub show : ℕ → Text
unfolding digits_onto
show n = digits_onto (n + 1) n []
