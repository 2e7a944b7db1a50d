-- ===== src/Base/Command.antt =====
-- Imperative code as commands over a state. `fault` is undefined behaviour that stops the model (a
-- null pointer that is followed, an access outside an array), `hang` is a loop whose fuel ran out.
use mathlib.Core.Bool.{Bool, true, false}
use mathlib.Core.Option.{Option, none, some}
use course_pj.Base.Tests.{if◌then◌else◌}
use mathlib.Core.Path.{◌≡◌, refl}

pub data Res (S A : Type 0) : Type 0 where
  ok : A → S → Res S A
  fault : Res S A
  hang : Res S A

abbrev pub Cmd : Type 0 → Type 0 → Type 0
Cmd S A = S → Res S A

module _ {S : Type 0} where
  abbrev pub pure : {A : Type 0} → A → Cmd S A
  pure a s = ok a s

  abbrev pub and_then : {A B : Type 0} → Res S A → (A → Cmd S B) → Res S B
  and_then (ok a s) k = k a s
  and_then fault k = fault
  and_then hang k = hang

  infixl 5 ◌>>=◌ ◌>>◌
  abbrev pub ◌>>=◌ : {A B : Type 0} → Cmd S A → (A → Cmd S B) → Cmd S B
  ◌>>=◌ m k s = and_then (m s) k

  abbrev pub ◌>>◌ : {A B : Type 0} → Cmd S A → Cmd S B → Cmd S B
  ◌>>◌ m k s = and_then (m s) (λ _. k)

  abbrev pub crash : {A : Type 0} → Cmd S A
  crash s = fault

  abbrev pub spin : {A : Type 0} → Cmd S A
  spin s = hang

  abbrev pub gets : {A : Type 0} → (S → A) → Cmd S A
  gets f s = ok (f s) s

  -- A value that must be there.
  abbrev pub need : {A : Type 0} → Option A → Cmd S A
  need none = crash
  need (some a) = pure a

-- A command on a part of the state.
abbrev pub lift : {S T A : Type 0} → (S → T) → (T → S → S) → Cmd T A → Cmd S A
lift get put m s = elim (m (get s)) [ ok a t ↦ ok a (put t s) | fault ↦ fault | hang ↦ hang ]

pub lift_lem :
    {S T A : Type 0} (get : S → T) (put : T → S → S) (m : Cmd T A) (s : S) (a : A) (t : T)
    → m (get s) ≡ ok a t
    → lift get put m s ≡ ok a (put t s)
lift_lem get put m s a t e = rw (e, lift) refl

pub lift_fault :
    {S T A : Type 0} (get : S → T) (put : T → S → S) (m : Cmd T A) (s : S)
    → m (get s) ≡ fault
    → lift get put m s ≡ fault
lift_fault get put m s e = rw (e, lift) refl

pub lift_if :
    {S T A : Type 0} (get : S → T) (put : T → S → S) (m : Cmd T A) (s : S) (b : Bool) (a : A)
    (t : T)
    → m (get s) ≡ (if b then ok a t else fault)
    → lift get put m s ≡ (if b then ok a (put t s) else fault)
lift_if get put m s true a t e = lift_lem get put m s a t e
lift_if get put m s false a t e = lift_fault get put m s e

pub run_fault :
    {S A B : Type 0} (m : Cmd S A) (k : A → Cmd S B) (s : S) → m s ≡ fault → (m >>= k) s ≡ fault
run_fault m k s e = rw e refl

-- Three commands in a row, grouped either way.
pub and_then_assoc :
    {S A B C : Type 0} (x : Res S A) (k : A → Cmd S B) (l : B → Cmd S C)
    → and_then x (λ a. k a >>= l) ≡ and_then (and_then x k) l
and_then_assoc (ok a s) k l = refl
and_then_assoc fault k l = refl
and_then_assoc hang k l = refl

-- One command after another.
pub run_bind :
    {S A B : Type 0} (m : Cmd S A) (k : A → Cmd S B) (s s' : S) (a : A) (r : Res S B)
    → m s ≡ ok a s'
    → k a s' ≡ r
    → (m >>= k) s ≡ r
run_bind m k s s' a r e f = rw e f
