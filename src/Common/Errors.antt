-- ===== src/Common/Errors.antt =====
-- Go's (value, error) pairs, with the errors that the packages tell apart.
use Prim.Native.Nat.{ℕ}
use mathlib.Core.Path.{◌≡◌, refl}
use mathlib.Core.Bool.{Bool, true, false}
use mathlib.Core.Logic.{◌⊎◌, inl, inr}

-- `malformed` is the `ErrMalformed` of each package.
pub data Error : Type 0 where
  malformed crc_mismatch hash_mismatch incomplete : Error
  bad_version too_long : ℕ → Error
  -- An error of the operating system or of a device.
  io_error : Error
  -- The modem does not answer in time, or answers with an error and its code.
  modem_timeout : Error
  modem_error : ℕ → Error
  -- A refusal with a message of its own.
  refused : Error

pub data Result {ℓ} (A : Type ℓ) : Type ℓ where
  ok : A → Result A
  err : Error → Result A

pub Result-cases {ℓ} :
    {A : Type ℓ} (outcome : Result A)
    → ((value : A) × (outcome ≡ ok value)) ⊎ ((e : Error) × (outcome ≡ err e))
Result-cases (ok value) = inl (value, refl)
Result-cases (err e) = inr (e, refl)

-- `if err != nil { return err }`, and what follows it.
infixl 5 ◌>>=◌ ◌>>◌
abbrev pub ◌>>=◌ {ℓ κ} : {V : Type ℓ} {W : Type κ} → Result V → (V → Result W) → Result W
ok value >>= next = next value
err failure >>= next = err failure

-- A call that returns nothing but an error.
abbrev pub ◌>>◌ {ℓ} : {W : Type ℓ} → Result (Unit {0}) → Result W → Result W
first >> next = first >>= λ nothing. next

-- An early return with an error.
abbrev pub fail_if : Bool → Error → Result (Unit {0})
fail_if true failure = err failure
fail_if false failure = ok tt

pub >>=-eq-ok {ℓ κ} :
    {V : Type ℓ} {W : Type κ} (first : Result V) (next : V → Result W) {out : W}
    → (first >>= next) ≡ ok out
    → (value : V) × (first ≡ ok value) × (next value ≡ ok out)
>>=-eq-ok (ok value) next e = (value, refl, e)
>>=-eq-ok (err failure) next e = cc
