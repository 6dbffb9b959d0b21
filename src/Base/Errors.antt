-- ===== src/Base/Errors.antt =====
-- Go's `(value, error)` results, and `do` blocks over them.
use mathlib.Core.Path.{◌≡◌, refl, ap}
use mathlib.Core.Bool.{Bool, true, false}
use mathlib.Core.Logic.{◌⊎◌, inl, inr}
use mha_go.Base.Tests.{if◌then◌else◌}
use native.Mathlib.Omega.{arith}

-- What a function with an error result returns; on an error the value is not looked at.
pub data Result (Failure Value : Type 0) : Type 0 where
  err : Failure → Result Failure Value
  ok : Value → Result Failure Value

-- `if err != nil { return …, err }` behind a call, then the rest of the function.
infixl 5 ◌>>=◌
abbrev pub ◌>>=◌ : {F V W : Type 0} → Result F V → (V → Result F W) → Result F W
err failure >>= rest = err failure
ok value >>= rest = rest value

-- `fmt.Errorf("…: %w", err)`
abbrev pub map_err : {F G V : Type 0} → (F → G) → Result F V → Result G V
map_err wrap (err failure) = err (wrap failure)
map_err wrap (ok value) = ok value

-- A chain that returns a value has the first call's value.
pub >>=-eq-ok :
    {F V W : Type 0} (call : Result F V) (rest : V → Result F W) {w : W}
    → (call >>= rest) ≡ ok w
    → (v : V) × (call ≡ ok v) × (rest v ≡ ok w)
>>=-eq-ok (err failure) rest returned = cc
>>=-eq-ok (ok value) rest returned = (value, refl, returned)

pub ok-injective : {E A : Type 0} {a b : A} → Path (Result E A) (ok a) (ok b) → a ≡ b
ok-injective e = ground arith

-- A test that returns an error, passed.
pub test-eq-ok :
    {E A : Type 0} (b : Bool) (e : E) (m : Result E A) {a : A}
    → (if b then err e else m) ≡ ok a
    → (b ≡ false) × (m ≡ ok a)
test-eq-ok true e m h = cc
test-eq-ok false e m h = (refl, h)

-- An early return of a value.
pub return-eq-ok :
    {E A : Type 0} (b : Bool) (r : A) (m : Result E A) {a : A}
    → (if b then ok r else m) ≡ ok a
    → (r ≡ a) ⊎ (m ≡ ok a)
return-eq-ok true r m h = inl (ok-injective h)
return-eq-ok false r m h = inr h

-- A test that returns something, not met.
pub behind :
    {A : Type 0} (b : Bool) (x m : A) {r : A} → b ≡ false → (if b then x else m) ≡ r → m ≡ r
behind true x m e h = cc
behind false x m e h = h

pub behind_true :
    {A : Type 0} (b : Bool) (x m : A) {r : A} → b ≡ true → (if b then x else m) ≡ r → x ≡ r
behind_true true x m e h = h
behind_true false x m e h = cc

pub map_err-eq-ok :
    {E F A : Type 0} (wrap : E → F) (call : Result E A) {a : A}
    → map_err wrap call ≡ ok a
    → call ≡ ok a
map_err-eq-ok wrap (ok b) h = ap ok (ok-injective h)
map_err-eq-ok wrap (err e) h = cc
