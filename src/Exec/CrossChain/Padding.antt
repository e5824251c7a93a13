-- ===== src/Exec/CrossChain/Padding.antt =====
-- The receiver's address as thirty-two bytes.
use Prim.Native.Nat.{◌-◌}
use Prim.Native.String.{◌++◌ as ◌+++◌, len}
use text.Mathlib.TextPositions.{len-append}
use tapioca.Base.{ℕ, zero, suc, ◌+◌, ◌≤◌, String, ◌≡◌, refl, ap, ◌∙◌, some, arith}
use tapioca.Hre.Types.{Trace}
use tapioca.Hre.World.{World}
use tapioca.Hre.Task.{ok, ◌>>=◌}
use tapioca.Exec.CrossChain.{zeros, after_0x, pad_start, bytes32_of}

len-zeros : (n : ℕ) → len (zeros n) ≡ n
len-zeros zero = refl
len-zeros (suc n) = grind (arith, len-append "0" (zeros n), len-zeros n)

len-pad_start : (n : ℕ) (s : String) → len s ≤ n → len (pad_start n s) ≡ n
unfolding pad_start
len-pad_start n s h = grind (arith, len-append (zeros (n - len s)) s, len-zeros (n - len s))

-- For an address of at most 64 digits after its first "0x" the receiver is 66 characters long, and what stands before the digits is "0x" and zeros alone.
pub bytes32_of-length :
    (address digits : String) (w : World) (t : Trace)
    → after_0x address ≡ some digits
    → len digits ≤ 64
    → (to : String) × (bytes32_of address w t ≡ (ok to, t))
      × (len to ≡ 66)
      × (to ≡ "0x" +++ (zeros (64 - len digits) +++ digits))
unfolding bytes32_of ◌>>=◌ pad_start
bytes32_of-length address digits w t e h = (
  "0x" +++ pad_start 64 digits,
  rw e refl,
  len-append "0x" (pad_start 64 digits) ∙ ap (λ n. 2 + n) (len-pad_start 64 digits h),
  refl,
)
