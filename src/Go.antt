-- ===== src/Go.antt =====
-- Functions of the driver: they read and write the globals, return an error, or panic. `pending`
-- is the result of a call whose loop has not ended on the fuel that it was given.
-- What was changed before an error stays changed.
pub mod Frame
pub mod Keeps
pub mod Gives
pub mod Leads
pub mod Settles
pub mod Ends
pub mod Returns
pub mod Inversion
use csi_driver_flexblock.Prelude.{Bool, true, false, Option, none, some}
use csi_driver_flexblock.Env.{exist, not_exist, Globals, OsError}

-- gRPC status codes
pub data Code : Type 0 where
  invalid_argument not_found already_exists out_of_range : Code
  internal unimplemented aborted unavailable : Code

-- An error keeps its kind; its message is not modelled.
pub data Error : Type 0 where
  status : Code → Error
  os_error : OsError → Error
  plain : Error

pub data Result {ℓ} (A : Type ℓ) : Type ℓ where
  ok : A → Result A
  err : Error → Result A
  panic : Result A
  pending : Result A

abbrev pub Go {ℓ} : Type ℓ → Type ℓ
Go A = Globals → Result A × Globals

module _ {ℓ} {A : Type ℓ} where
  unfoldable pub pure : A → Go A
  pure a s = (ok a, s)

  unfoldable pub raise : Error → Go A
  raise e s = (err e, s)

  unfoldable pub crash : Go A
  crash s = (panic, s)

  unfoldable pub suspend : Go A
  suspend s = (pending, s)

  unfoldable pub gets : (Globals → A) → Go A
  gets f s = (ok (f s), s)

unfoldable pub modify : (Globals → Globals) → Go (Unit {0})
modify f s = (ok tt, f s)

module _ {ℓ κ} {A : Type ℓ} {B : Type κ} where
  abbrev pub continue : Result A → (A → Go B) → Go B
  continue (ok a) f s = f a s
  continue (err e) f s = (err e, s)
  continue panic f s = (panic, s)
  continue pending f s = (pending, s)

  infixl 5 ◌>>=◌
  unfoldable pub ◌>>=◌ : Go A → (A → Go B) → Go B
  ◌>>=◌ m f s = let (r, s') = m s in continue r f s'

module _ {ℓ} {B : Type ℓ} where
  infixl 5 ◌>>◌
  abbrev pub ◌>>◌ : Go (Unit {0}) → Go B → Go B
  m >> k = m >>= λ _. k

-- status.Errorf(code, …, err) in place of an error `err` of `m`
abbrev pub recode {ℓ} : {A : Type ℓ} → (Error → Error) → Result A → Result A
recode f (ok a) = ok a
recode f (err e) = err (f e)
recode f panic = panic
recode f pending = pending

unfoldable pub wrap {ℓ} : {A : Type ℓ} → Code → Go A → Go A
wrap c m s = let (r, s') = m s in (recode (λ _. status c) r, s')

-- `err := m()`, for a caller that goes on with the error in hand
abbrev pub error_of {ℓ} : {A : Type ℓ} → Result A → Result (Option Error)
error_of (ok a) = ok none
error_of (err e) = ok (some e)
error_of panic = panic
error_of pending = pending

unfoldable pub attempt : Go (Unit {0}) → Go (Option Error)
attempt m s = let (r, s') = m s in (error_of r, s')

-- `if !test { return err }`
unfoldable pub require : Bool → Error → Go (Unit {0})
unfolding pure raise
require true e = pure tt
require false e = raise e

-- a branch on a nil or a missing value
unfoldable pub maybe {ℓ κ} : {A : Type ℓ} {B : Type κ} → Option A → Go B → (A → Go B) → Go B
maybe none m f = m
maybe (some a) m f = f a

-- `v, err := m()`, for a caller that only asks whether err is nil
abbrev pub value_or_none {ℓ} : {A : Type ℓ} → Result A → Result (Option A)
value_or_none (ok a) = ok (some a)
value_or_none (err e) = ok none
value_or_none panic = panic
value_or_none pending = pending

unfoldable pub optional {ℓ} : {A : Type ℓ} → Go A → Go (Option A)
optional m s = let (r, s') = m s in (value_or_none r, s')

-- `if err != nil { … }` behind m, which may look at the error
abbrev pub handled {ℓ} : {A : Type ℓ} → (Error → Go A) → Result A → Go A
handled h (ok a) s = (ok a, s)
handled h (err e) s = h e s
handled h panic s = (panic, s)
handled h pending s = (pending, s)

unfoldable pub catch {ℓ} : {A : Type ℓ} → (Error → Go A) → Go A → Go A
catch h m s = let (r, s') = m s in handled h r s'

-- os.IsNotExist and os.IsExist of an error
abbrev pub says_not_exist : Error → Bool
says_not_exist (os_error not_exist) = true
says_not_exist _ = false

abbrev pub says_exist : Error → Bool
says_exist (os_error exist) = true
says_exist _ = false
