-- ===== src/Base/Checks.antt =====
-- A chain of checks, as the list of their results.
use Prim.Native.String.{String}
use mathlib.Core.Path.{◌≡◌, refl}
use mathlib.Core.Bool.{Bool, true, false}
use mathlib.Core.List.{List, [], ◌∷◌}
use lumi_eggcracker.Base.Results.{Result, ok, err, ◌>>◌, require}

-- Every check has passed.
abbrev pub AllOk : List (Result (Unit {0})) → Type 0
AllOk [] = Unit
AllOk (r ∷ rs) = (r ≡ ok tt) × AllOk rs

-- the checks in their order, then what follows them
abbrev pub run {ℓ} : {A : Type ℓ} → List (Result (Unit {0})) → Result A → Result A
run [] last = last
run (r ∷ rs) last = r >> run rs last

pub run-AllOk {ℓ} :
    {A : Type ℓ} (rs : List (Result (Unit {0}))) (last : Result A) {a : A}
    → run rs last ≡ ok a
    → AllOk rs × (last ≡ ok a)
run-AllOk [] last h = (tt, h)
run-AllOk (ok done ∷ rs) last h = let (others, e) = run-AllOk rs last h in ((refl, others), e)
run-AllOk (err message ∷ rs) last h = cc

pub AllOk-run {ℓ} :
    {A : Type ℓ} (rs : List (Result (Unit {0}))) (last : Result A) → AllOk rs → run rs last ≡ last
AllOk-run [] last h = refl
AllOk-run (ok done ∷ rs) last h = AllOk-run rs last h.1
AllOk-run (err message ∷ rs) last h = cc

-- A single test that has passed.
pub require-ok : (t : Bool) (message : String) → require t message ≡ ok tt → t ≡ true
require-ok true message h = refl
require-ok false message h = cc
