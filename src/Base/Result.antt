-- ===== src/Base/Result.antt =====
-- Python's exceptions: a fallible function returns its value or the exception it raises.
-- platform/errors.py and platform/concurrency.py; the messages are not modelled, the rule id is.
use Prim.Native.Nat.{ℕ}
use mathlib.Core.Path.{◌≡◌, refl, ap}
use mathlib.Core.Bool.{Bool, true, false}
use mathlib.Core.List.{List, [], ◌∷◌}

-- The rule ids that `DomainRuleViolation` carries.
pub data Rule : Type 0 where
  br_w_01 br_w_03 br_w_04 br_w_05 br_w_06 br_w_09 br_w_13 br_w_14 br_w_16 br_w_19 : Rule
  br_p_01 br_p_02 br_p_03 br_p_06 br_p_07 : Rule
  br_d_01 br_d_02 br_d_04 br_d_06 : Rule
  br_c_01 br_c_02 br_c_03 br_c_04 br_c_07 br_c_09 br_c_10 : Rule
  br_i_05 br_g_01 br_ai_16 : Rule

pub data Resource : Type 0 where
  project milestone work work_assignment dependency commitment : Resource

pub data Error : Type 0 where
  domain_rule_violation : Rule → Error
  entity_not_found : Resource → ℕ → Error
  stale_version : Resource → ℕ → ℕ → Error
  authorization_error integrity_error agent_authority_error : Error

-- A call returns a value or raises.
pub data Result {ℓ} (Value : Type ℓ) : Type ℓ where
  ok : (value : Value) → Result Value
  err : (raised : Error) → Result Value

-- The next statement runs only if this one returned.
infixl 5 ◌>>=◌ ◌>>◌
abbrev pub ◌>>=◌ {ℓ κ} :
    {Value : Type ℓ} {Next : Type κ} (call : Result Value) (then_do : Value → Result Next)
    → Result Next
(err raised) >>= then_do = err raised
(ok value) >>= then_do = then_do value

abbrev pub ◌>>◌ {ℓ} : {Next : Type ℓ} (check : Result (Unit {0})) (rest : Result Next) → Result Next
check >> rest = check >>= λ _. rest

-- `if test: raise DomainRuleViolation(rule, ...)`
abbrev pub raise_if : Bool → Rule → Result (Unit {0})
raise_if true rule = err (domain_rule_violation rule)
raise_if false rule = ok tt

abbrev pub violation {ℓ} : {A : Type ℓ} → Rule → Result A
violation rule = err (domain_rule_violation rule)

-- `if test: check`
abbrev pub when : Bool → Result (Unit {0}) → Result (Unit {0})
when true check = check
when false check = ok tt

-- A sequence that returned: its first call returned, and so did the rest on that value.
pub returned {ℓ κ} :
    {Value : Type ℓ} {Next : Type κ} (call : Result Value) (then_do : Value → Result Next)
    {last : Next}
    → (call >>= then_do) ≡ ok last
    → (value : Value) × (call ≡ ok value) × (then_do value ≡ ok last)
returned (err raised) then_do h = absurd (cc h)
returned (ok value) then_do h = (value, refl, h)

-- The other way round: what runs after a call that returned, and after a check that was passed.
pub goes_on {ℓ κ} :
    {Value : Type ℓ} {Next : Type κ} {call : Result Value} {value : Value}
    (then_do : Value → Result Next)
    → call ≡ ok value
    → (call >>= then_do) ≡ then_do value
goes_on then_do e = ap (λ m. m >>= then_do) e

pub passes_on {ℓ} :
    {Next : Type ℓ} {check : Result (Unit {0})} (rest : Result Next)
    → check ≡ ok tt
    → (check >> rest) ≡ rest
passes_on rest e = ap (λ m. m >> rest) e

-- A check that was passed, and what came after it.
pub passed {ℓ} :
    {Next : Type ℓ} (check : Result (Unit {0})) (rest : Result Next) {last : Next}
    → (check >> rest) ≡ ok last
    → (check ≡ ok tt) × (rest ≡ ok last)
passed (err raised) rest h = absurd (cc h)
passed (ok u) rest h = (refl, h)

pub same_value {ℓ} : {Value : Type ℓ} {a b : Value} → ok a ≡ ok b → a ≡ b
same_value h = cc h

pub same_state {ℓ} :
    {Value State : Type ℓ} {pair : Value × State} {a : Value} {s : State}
    → ok pair ≡ ok (a, s)
    → pair.1 ≡ s
same_state h = ap (λ x. x.1) (same_value h)

-- A test that did not raise was false.
pub not_raised : (test : Bool) (rule : Rule) → raise_if test rule ≡ ok tt → test ≡ false
not_raised true rule h = absurd (cc h)
not_raised false rule h = refl

-- A check under a condition that was met.
pub when-passed :
    (test : Bool) (check : Result (Unit {0}))
    → when test check ≡ ok tt
    → test ≡ true
    → check ≡ ok tt
when-passed true check h met = h
when-passed false check h met = absurd (cc met)

-- `for x in xs: body(x)`, where each round goes on from the state that the one before left.
abbrev pub each {ℓ κ} :
    {A : Type ℓ} {State : Type κ} (xs : List A) (body : A → State → Result State)
    → State
    → Result State
each [] body s = ok s
each (x ∷ xs) body s = body x s >>= λ t. each xs body t
