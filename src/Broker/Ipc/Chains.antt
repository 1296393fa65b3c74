-- ===== src/Broker/Ipc/Chains.antt =====
-- Chains of tests whose denials are all in a list of known codes.
use lumi_eggcracker.Base.{
  String, ◌≡◌, Bool, true, false, Option, none, some, List, elem, Result, ok, err, if◌then◌else◌,
}
use mathlib.Core.Path.{subst}

module _ (known : List String) where
  -- One test of a chain of denials.
  pub if_some :
      (t : Bool) (c : String) (rest : Option String) (code : String)
      → elem c known ≡ true
      → (rest ≡ some code → elem code known ≡ true)
      → (if t then some c else rest) ≡ some code
      → elem code known ≡ true
  if_some true c rest code here_ok later_ok h =
      subst (λ (z : String). elem z known ≡ true) (let e : c ≡ code = cc in e) here_ok
  if_some false c rest code here_ok later_ok h = later_ok h

  pub if_err :
      {A : Type 0} (t : Bool) (c : String) (rest : Result A) (code : String)
      → elem c known ≡ true
      → (rest ≡ err code → elem code known ≡ true)
      → (if t then err c else rest) ≡ err code
      → elem code known ≡ true
  if_err true c rest code here_ok later_ok h =
      subst (λ (z : String). elem z known ≡ true) (let e : c ≡ code = cc in e) here_ok
  if_err false c rest code here_ok later_ok h = later_ok h

  pub no_denial :
      (code : String) → ◌≡◌ {A = Option String} none (some code) → elem code known ≡ true
  no_denial code h = cc

  pub one_err :
      {A : Type 0} (t : Bool) (x : A) (c code : String)
      → elem c known ≡ true
      → (if t then ok x else err c) ≡ err code
      → elem code known ≡ true
  one_err true x c code here_ok h = cc
  one_err false x c code here_ok h =
      subst (λ (z : String). elem z known ≡ true) (let e : c ≡ code = cc in e) here_ok

  pub only_err :
      {A : Type 0} (c code : String)
      → elem c known ≡ true
      → ◌≡◌ {A = Result A} (err c) (err code)
      → elem code known ≡ true
  only_err c code here_ok h =
      subst (λ (z : String). elem z known ≡ true) (let e : c ≡ code = cc in e) here_ok
