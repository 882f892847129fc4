-- ===== src/Common/Bytes.antt =====
-- encoding/binary: the big-endian bytes of a 64-bit word.
use Prim.Native.Nat.{ℕ, ◌+◌, ◌*◌, ◌/◌, ◌%◌, ◌^◌, ◌≤◌, ◌<◌}
use mathlib.Core.Path.{◌≡◌, refl}
use mathlib.Core.Option.{Option, none, some}
use mathlib.Core.List.{List, [], ◌∷◌}
use native.Mathlib.Omega.{arith}
use orbstrike.Common.Lists.{length}

-- BigEndian.PutUint64
unfoldable pub put_uint64 : ℕ → List ℕ
put_uint64 n =
    n / 2 ^ 56 % 256
    ∷ n / 2 ^ 48 % 256
    ∷ n / 2 ^ 40 % 256
    ∷ n / 2 ^ 32 % 256
    ∷ n / 2 ^ 24 % 256
    ∷ n / 2 ^ 16 % 256
    ∷ n / 2 ^ 8 % 256
    ∷ n % 256
    ∷ []

-- BigEndian.Uint64 reads the first eight bytes, and panics (`none`) where there are fewer.
unfoldable pub uint64 : List ℕ → Option ℕ
uint64 (a ∷ b ∷ c ∷ d ∷ e ∷ f ∷ g ∷ h ∷ r) =
    some
      (a * 2 ^ 56 + b * 2 ^ 48 + c * 2 ^ 40 + d * 2 ^ 32 + e * 2 ^ 24 + f * 2 ^ 16 + g * 2 ^ 8 + h)
uint64 _ = none

pub uint64-put_uint64 : (n : ℕ) → n < 2 ^ 64 → uint64 (put_uint64 n) ≡ some n
unfolding put_uint64 uint64
uint64-put_uint64 n h = ground arith

pub uint64_total : (s : List ℕ) → 8 ≤ length s → (w : ℕ) × (uint64 s ≡ some w)
unfolding uint64
uint64_total (a ∷ b ∷ c ∷ d ∷ e ∷ f ∷ g ∷ h ∷ r) enough = (_, refl)
uint64_total _ enough = absurd (omega arith)
