-- ===== src/Pipeline/Results.antt =====
-- What a chain of guards that is passed has found at each of them.
use ldapium.Prelude.{◌≡◌, refl, Bool, true, false, ◌⊎◌, inl, inr}
use ldapium.Pipeline.{Refusal, Checked, denied, passed, ◌>>=◌, ◌>>◌, require}

pub >>=-passed :
    {A B : Type 0} {next : A → Checked B} {y : B} (step : Checked A)
    → (step >>= next) ≡ passed y
    → (x : A) × (next x ≡ passed y) × (step ≡ passed x)
>>=-passed (denied why) through = cc
>>=-passed (passed x) through = (x, through, refl)

pub require->> :
    {B : Type 0} {next : Checked B} {y : B} (t : Bool) (why : Refusal)
    → (require t why >> next) ≡ passed y
    → (t ≡ true) × (next ≡ passed y)
require->> false why through = cc
require->> true why through = (refl, through)

pub require-passed : (t : Bool) (why : Refusal) → require t why ≡ passed tt → t ≡ true
require-passed false why through = cc
require-passed true why through = refl

pub passed-injective : {A : Type 0} {x y : A} → passed x ≡ passed y → x ≡ y
passed-injective same = cc

pub Checked-cases :
    {A : Type 0} (c : Checked A) → ((why : Refusal) × (c ≡ denied why)) ⊎ ((x : A) × (c ≡ passed x))
Checked-cases (denied why) = inl (why, refl)
Checked-cases (passed x) = inr (x, refl)
