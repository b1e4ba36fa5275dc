-- ===== src/Exec/Hoare.antt =====
-- Triples for `Exec`: from a state with `P`, a normal return leaves `Q` of the value and the
-- state, and a raise leaves `E` of the exception and the state. One rule for each way to build an action.
use kv_cache_tier_persistenc.Prelude.{◌≡◌, refl, Bool, true, false, if◌then◌else◌}
use kv_cache_tier_persistenc.Result.{Error, Result, ok, raise}
use kv_cache_tier_persistenc.Exec.{Exec, pure, throw, gets, continue, ◌>>=◌}

abbrev pub Outcome :
    {S A : Type 0} → (A → S → Type 0) → (Error → S → Type 0) → Result A × S → Type 0
Outcome Q E (ok a, s) = Q a s
Outcome Q E (raise e, s) = E e s

pub record Triple {S A : Type 0} (P : S → Type 0) (m : Exec S A) (Q : A → S → Type 0)
    (E : Error → S → Type 0) : Type 0 where
  pub at : (s : S) → P s → Outcome Q E (m s)

module _ {S A : Type 0} {P : S → Type 0} {E : Error → S → Type 0} where
  pub Triple-pure : (a : A) {Q : A → S → Type 0} → ((s : S) → P s → Q a s) → Triple P (pure a) Q E
  unfolding pure
  Triple-pure a h = record { at = h }

  pub Triple-throw :
      (e : Error) {Q : A → S → Type 0} → ((s : S) → P s → E e s) → Triple P (throw e) Q E
  unfolding throw
  Triple-throw e h = record { at = h }

  pub Triple-gets :
      (f : S → A) {Q : A → S → Type 0} → ((s : S) → P s → Q (f s) s) → Triple P (gets f) Q E
  unfolding gets
  Triple-gets f h = record { at = h }

  pub Triple-if :
      (b : Bool) (m n : Exec S A) {Q : A → S → Type 0}
      → (b ≡ true → Triple P m Q E)
      → (b ≡ false → Triple P n Q E)
      → Triple P (if b then m else n) Q E
  Triple-if true m n hm hn = hm refl
  Triple-if false m n hm hn = hn refl

module _ {S A B : Type 0} {E : Error → S → Type 0} where
  Outcome-continue :
      (r : Result A × S) (f : A → Exec S B) {R : A → S → Type 0} {Q : B → S → Type 0}
      → Outcome R E r
      → ((a : A) → Triple (R a) (f a) Q E)
      → Outcome Q E (continue r f)
  Outcome-continue (ok a, s) f h k = (k a).at s h
  Outcome-continue (raise e, s) f h k = h

  pub Triple-bind :
      {P : S → Type 0} (m : Exec S A) (f : A → Exec S B) (R : A → S → Type 0) {Q : B → S → Type 0}
      → Triple P m R E
      → ((a : A) → Triple (R a) (f a) Q E)
      → Triple P (m >>= f) Q E
  unfolding ◌>>=◌
  Triple-bind m f R hm hf = record { at = λ s h. Outcome-continue (m s) f {R = R} (hm.at s h) hf }

-- Where the postconditions speak of the state alone and agree, so does the outcome.
pub state_of_outcome :
    {S A : Type 0} (I : S → Type 0) (r : Result A × S) → Outcome (λ _. I) (λ _. I) r → I r.1
state_of_outcome I (ok a, s) h = h
state_of_outcome I (raise e, s) h = h

-- A weaker statement about raises.
pub Triple-raises :
    {S A : Type 0} {P : S → Type 0} {m : Exec S A} {Q : A → S → Type 0} {E : Error → S → Type 0}
    (F : Error → S → Type 0)
    → ((e : Error) (s : S) → E e s → F e s)
    → Triple P m Q E
    → Triple P m Q F
Triple-raises {S} {A} {m = m} {Q} {E} F w t = record { at = λ s h. weaken (m s) (t.at s h) }
  where
    weaken : (r : Result A × S) → Outcome Q E r → Outcome Q F r
    weaken (ok a, s) h = h
    weaken (raise e, s) h = w e s h

-- A statement about the state after an action, raising or not, as a triple.
pub Triple-state :
    {S A : Type 0} {I : S → Type 0} (x : Exec S A)
    → ((s : S) → I s → I (x s).1)
    → Triple I x (λ _. I) (λ _. I)
Triple-state {S} {I = I} x k = record { at = λ s h. outcome (x s) (k s h) }
  where
    outcome : {A : Type 0} (r : Result A × S) → I r.1 → Outcome (λ _. I) (λ _. I) r
    outcome (ok a, s) h = h
    outcome (raise e, s) h = h

-- A weaker statement about returns.
pub Outcome-returns :
    {S A : Type 0} {Q : A → S → Type 0} (E : Error → S → Type 0) (R : A → S → Type 0)
    (r : Result A × S)
    → ((a : A) (s : S) → Q a s → R a s)
    → Outcome Q E r
    → Outcome R E r
Outcome-returns E R (ok a, s) w h = w a s h
Outcome-returns E R (raise e, s) w h = h

pub Triple-returns :
    {S A : Type 0} {P : S → Type 0} {m : Exec S A} {Q : A → S → Type 0} {E : Error → S → Type 0}
    (R : A → S → Type 0)
    → ((a : A) (s : S) → Q a s → R a s)
    → Triple P m Q E
    → Triple P m R E
Triple-returns {m = m} {Q} {E} R w t = record {
  at = λ s h. Outcome-returns {Q = Q} E R (m s) w (t.at s h);
}
