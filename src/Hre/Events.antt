-- ===== src/Hre/Events.antt =====
-- Invariants of the trace, and properties of the events that a task adds, in whichever way it ends.
use tapioca.Base.{◌≡◌, refl, String, Bool, true, false, Option, none, some, All, if◌then◌else◌}
use tapioca.Hre.Types.{
  Val, Call, Vm, Event, prompted, sent, vm_executed, vm_saved, vm_verified, Trace, Error,
}
use tapioca.Hre.World.{World}
use tapioca.Hre.Task.{
  Result, ok, err, Task, pure, throw, ask, require, ask_or, guard, emit_if, input, send,
  get_contract_factory, get_contract_at, view_text, new_vm, execute, save, verify, continue, ◌>>=◌,
}

-- In whichever way `m` ends, `Q` holds of the trace after it if it holds before.
pub record Keeps {ℓ} {A : Type ℓ} (Q : Trace → Type 0) (m : Task A) : Type ℓ where
  pub at : (w : World) (t : Trace) → Q t → Q (m w t).1

-- Each event that `m` adds satisfies `P`.
abbrev pub Adds {ℓ} : {A : Type ℓ} → (Event → Type 0) → Task A → Type ℓ
Adds P m = Keeps (All P) m

module _ {ℓ} {A : Type ℓ} {Q : Trace → Type 0} where
  pub pure-Keeps : (a : A) → Keeps Q (pure a)
  unfolding pure
  pure-Keeps a = record { at = λ w t h. h }

  pub throw-Keeps : (e : Error) → Keeps {A = A} Q (throw e)
  unfolding throw
  throw-Keeps e = record { at = λ w t h. h }

  pub ask-Keeps : (g : World → Trace → A) → Keeps Q (ask g)
  unfolding ask
  ask-Keeps g = record { at = λ w t h. h }

  pub require-Keeps : (e : Error) (o : Option A) → Keeps Q (require e o)
  unfolding require
  require-Keeps e none = record { at = λ w t h. h }
  require-Keeps e (some a) = record { at = λ w t h. h }

  pub ask_or-Keeps : (e : Error) (g : World → Trace → Option A) → Keeps Q (ask_or e g)
  unfolding ask_or
  ask_or-Keeps e g = record { at = λ w t h. (require-Keeps e (g w t)).at w t h }

  pub if-Keeps : (b : Bool) (m n : Task A) → Keeps Q m → Keeps Q n → Keeps Q (if b then m else n)
  if-Keeps true m n hm hn = hm
  if-Keeps false m n hm hn = hn

module _ {ℓ κ} {A : Type ℓ} {B : Type κ} {Q : Trace → Type 0} where
  rest :
      (g : A → Task B)
      → ((a : A) → Keeps Q (g a))
      → (w : World) (t : Trace) (r : Result A) → Q t
      → Q (continue r g w t).1
  rest g hg w t (ok a) h = (hg a).at w t h
  rest g hg w t (err e) h = h

  pub >>=-Keeps :
      (m : Task A) (g : A → Task B) → Keeps Q m → ((a : A) → Keeps Q (g a)) → Keeps Q (m >>= g)
  unfolding ◌>>=◌
  >>=-Keeps m g hm hg = record {
    at = λ w t h. let (r, t') = m w t in rest g hg w t' r (hm.at w t h);
  }

module _ {Q : Trace → Type 0} where
  pub guard-Keeps : (b : Bool) (e : Error) → Keeps Q (guard b e)
  unfolding guard
  guard-Keeps b e = record { at = λ w t h. h }

  pub get_contract_factory-Keeps : (name : String) → Keeps Q (get_contract_factory name)
  unfolding get_contract_factory
  get_contract_factory-Keeps name = >>=-Keeps _ _ (ask-Keeps _) λ b. guard-Keeps b _

  pub get_contract_at-Keeps : (artifact : String) (v : Val) → Keeps Q (get_contract_at artifact v)
  unfolding get_contract_at
  get_contract_at-Keeps artifact v = ask_or-Keeps _ _

  pub view_text-Keeps : (c : Call) → Keeps Q (view_text c)
  unfolding view_text
  view_text-Keeps c = ask_or-Keeps _ _

  pub new_vm-Keeps : (tag : String) → Keeps Q (new_vm tag)
  unfolding new_vm
  new_vm-Keeps tag = ask-Keeps _

emit_if-Adds :
    (P : Event → Type 0) (b : Bool) (e : Error) (ev : Event)
    → P ev
    → (w : World) (t : Trace) → All P t
    → All P (emit_if b e ev w t).1
unfolding emit_if
emit_if-Adds P true e ev p w t h = (p, h)
emit_if-Adds P false e ev p w t h = h

module _ {ℓ κ} {A : Type ℓ} {B : Type κ} {P : Event → Type 0} where
  rest_of :
      (m : Task A) (g : A → Task B) (w : World) (t s : Trace) (r : Result A)
      → m w t ≡ (r, s)
      → ((v : World) (x y : Trace) (a : A) → m v x ≡ (ok a, y) → Adds P (g a))
      → All P s
      → All P (continue r g w s).1
  rest_of m g w t s (ok a) e hg h = (hg w t s a e).at w s h
  rest_of m g w t s (err x) e hg h = h

  -- What follows `m` relies on what `m` returns.
  pub >>=-Keeps_of :
      (m : Task A) (g : A → Task B)
      → Adds P m
      → ((v : World) (x y : Trace) (a : A) → m v x ≡ (ok a, y) → Adds P (g a))
      → Adds P (m >>= g)
  unfolding ◌>>=◌
  >>=-Keeps_of m g hm hg = record {
    at = λ w t h. rest_of m g w t (m w t).1 (m w t).0 refl hg (hm.at w t h);
  }

module _ {P : Event → Type 0} where
  pub input-Adds : (name : String) → P (prompted name) → Adds P (input name)
  unfolding input
  input-Adds name p = record { at = λ w t h. (p, h) }

  pub send-Adds : (c : Call) → P (sent c) → Adds P (send c)
  unfolding send
  send-Adds c p = record { at = λ w t h. emit_if-Adds P (w.accepts t c) _ _ p w t h }

  pub execute-Adds : (vm : Vm) → P (vm_executed vm) → Adds P (execute vm)
  unfolding execute
  execute-Adds vm p = record { at = λ w t h. emit_if-Adds P (w.executes t vm) _ _ p w t h }

  pub save-Adds : (vm : Vm) → P (vm_saved vm) → Adds P (save vm)
  unfolding save
  save-Adds vm p = record { at = λ w t h. (p, h) }

  pub verify-Adds : (vm : Vm) → P (vm_verified vm) → Adds P (verify vm)
  unfolding verify
  verify-Adds vm p = record { at = λ w t h. emit_if-Adds P (w.verifies t vm) _ _ p w t h }

-- Rules for the parts that add no event.
pub ruleset keeps_rules = (
  pure-Keeps, throw-Keeps, ask-Keeps, require-Keeps, ask_or-Keeps, if-Keeps, >>=-Keeps, guard-Keeps,
  get_contract_factory-Keeps, get_contract_at-Keeps, view_text-Keeps, new_vm-Keeps,
)
