-- ===== src/Hre/Returns.antt =====
-- What it says of the parts of a task that the task returned.
use tapioca.Base.{
  Bool, Bool-cases, Option-cases, ◌⊎◌, inl, inr, String, ◌≡◌, refl, ap, true, Option, none, some,
  List, [], ◌∷◌, arith, sym,
}
use tapioca.Hre.Types.{
  rejected, Val, Call, sent, deployed, Trace, Error, Vm, vm_executed, vm_saved, vm_verified,
}
use tapioca.Hre.World.{World}
use tapioca.Hre.Task.{
  guard, confirm, emit_if, Result, ok, err, Task, pure, ask, require, ask_or, send, deploy,
  abi_encode, execute, save, verify, new_vm, encode_function_data, continue, ◌>>=◌, ◌>>◌,
}

module _ {ℓ κ} {A : Type ℓ} {B : Type κ} where
  continue-ok :
      (r : Result A) (f : A → Task B) (w : World) (t : Trace) {b : B} {t' : Trace}
      → continue r f w t ≡ (ok b, t')
      → (a : A) × (r ≡ ok a) × (f a w t ≡ (ok b, t'))
  continue-ok (ok a) f w t h = (a, refl, h)
  continue-ok (err e) f w t h = cc (ap (λ p. p.0) h)

  -- A bind that returns is a first part that returns and a second that goes on from there.
  pub >>=-ok :
      (m : Task A) (f : A → Task B) (w : World) (t : Trace) {b : B} {t' : Trace}
      → (m >>= f) w t ≡ (ok b, t')
      → (a : A) × (s : Trace) × (m w t ≡ (ok a, s)) × (f a w s ≡ (ok b, t'))
  unfolding ◌>>=◌
  >>=-ok m f w t h =
      let (a, e, k) = continue-ok (m w t).0 f w (m w t).1 h in
      (a, (m w t).1, ap (λ r. (r, (m w t).1)) e, k)

  -- And a bind whose first part throws is that error.
  pub >>=-err :
      (m : Task A) (f : A → Task B) (w : World) (t : Trace) {e : Error} {t' : Trace}
      → m w t ≡ (err e, t')
      → (m >>= f) w t ≡ (err e, t')
  unfolding ◌>>=◌
  >>=-err m f w t h = rw h

  -- A part that returns hands its value on.
  pub >>=-of_ok :
      (m : Task A) (f : A → Task B) (w : World) (t : Trace) (a : A) (s : Trace)
      → m w t ≡ (ok a, s)
      → (m >>= f) w t ≡ f a w s
  unfolding ◌>>=◌
  >>=-of_ok m f w t a s h = rw h

module _ {ℓ} {A : Type ℓ} where
  pub pure-ok :
      (a : A) (w : World) (t : Trace) {b : A} {t' : Trace}
      → pure a w t ≡ (ok b, t')
      → (a ≡ b) × (t ≡ t')
  unfolding pure
  pure-ok a w t h = ground arith

  pub ask-ok :
      (f : World → Trace → A) (w : World) (t : Trace) {a : A} {t' : Trace}
      → ask f w t ≡ (ok a, t')
      → (f w t ≡ a) × (t ≡ t')
  unfolding ask
  ask-ok f w t h = ground arith

  pub require-ok :
      (e : Error) (o : Option A) (w : World) (t : Trace) {a : A} {t' : Trace}
      → require e o w t ≡ (ok a, t')
      → (o ≡ some a) × (t ≡ t')
  unfolding require
  require-ok e none w t h = cc (ap (λ p. p.0) h)
  require-ok e (some x) w t h = ground arith

  pub ask_or-ok :
      (e : Error) (f : World → Trace → Option A) (w : World) (t : Trace) {a : A} {t' : Trace}
      → ask_or e f w t ≡ (ok a, t')
      → (f w t ≡ some a) × (t ≡ t')
  unfolding ask_or
  ask_or-ok e f w t h = require-ok e (f w t) w t h

-- A transaction that went through was accepted, and is the newest event.
pub send-ok :
    (c : Call) (w : World) (t : Trace) {u : Unit {0}} {t' : Trace}
    → send c w t ≡ (ok u, t')
    → (w.accepts t c ≡ true) × (t' ≡ sent c ∷ t)
unfolding send
send-ok c w t h = ground arith

pub execute-ok :
    (vm : Vm) (w : World) (t : Trace) {u : Unit {0}} {t' : Trace}
    → execute vm w t ≡ (ok u, t')
    → (w.executes t vm ≡ true) × (t' ≡ vm_executed vm ∷ t)
unfolding execute
execute-ok vm w t h = ground arith

pub save-ok :
    (vm : Vm) (w : World) (t : Trace) {u : Unit {0}} {t' : Trace}
    → save vm w t ≡ (ok u, t')
    → t' ≡ vm_saved vm ∷ t
unfolding save
save-ok vm w t h = ground arith

pub verify-ok :
    (vm : Vm) (w : World) (t : Trace) {u : Unit {0}} {t' : Trace}
    → verify vm w t ≡ (ok u, t')
    → t' ≡ vm_verified vm ∷ t
unfolding verify
verify-ok vm w t h = ground arith

-- A new deployer has an empty queue.
pub new_vm-ok :
    (tag : String) (w : World) (t : Trace) {vm : Vm} {t' : Trace}
    → new_vm tag w t ≡ (ok vm, t')
    → (vm.queue ≡ []) × (t' ≡ t)
unfolding new_vm
new_vm-ok tag w t h = let (e, s) = ask-ok _ w t h in (ap (λ vm. vm.queue) (sym e), sym s)

pub deploy-ok :
    (factory : String) (args : List Val) (w : World) (t : Trace) {a : String} {t' : Trace}
    → deploy factory args w t ≡ (ok a, t')
    → (w.deploys t factory args ≡ some a) × (t' ≡ deployed factory args a ∷ t)
unfolding deploy
deploy-ok factory args w t h = ground arith

pub abi_encode-ok :
    (types : List String) (args : List Val) (w : World) (t : Trace) {a : String} {t' : Trace}
    → abi_encode types args w t ≡ (ok a, t')
    → (w.abi_encode types args ≡ some a) × (t ≡ t')
unfolding abi_encode
abi_encode-ok types args w t h = ask_or-ok _ _ w t h

pub encode_function_data-ok :
    (fn : String) (args : List Val) (w : World) (t : Trace) {a : String} {t' : Trace}
    → encode_function_data fn args w t ≡ (ok a, t')
    → (w.encode_function_data fn args ≡ some a) × (t ≡ t')
unfolding encode_function_data
encode_function_data-ok fn args w t h = ask_or-ok _ _ w t h

pub confirm-ok :
    (name : String) (w : World) (t : Trace) {b : Bool} {t' : Trace}
    → confirm name w t ≡ (ok b, t')
    → w.confirm t name ≡ b
unfolding confirm
confirm-ok name w t h = ground arith

pub guard-ok :
    (b : Bool) (e : Error) (w : World) (t : Trace) {u : Unit {0}} {t' : Trace}
    → guard b e w t ≡ (ok u, t')
    → (b ≡ true) × (t' ≡ t)
unfolding guard
guard-ok b e w t h = ground arith

-- What each of these can come to.
pub send-cases :
    (c : Call) (w : World) (t : Trace)
    → (send c w t ≡ (ok tt, sent c ∷ t)) ⊎ (send c w t ≡ (err (rejected c.fn), t))
unfolding send emit_if
send-cases c w t = elim (Bool-cases (w.accepts t c)) [ inl e ↦ inl (rw e) | inr e ↦ inr (rw e) ]

pub deploy-cases :
    (factory : String) (args : List Val) (w : World) (t : Trace)
    → ((a : String) × (deploy factory args w t ≡ (ok a, deployed factory args a ∷ t)))
      ⊎ (deploy factory args w t ≡ (err (rejected factory), t))
unfolding deploy
deploy-cases factory args w t = elim (Option-cases (w.deploys t factory args)) [
  | inl e ↦ inr (rw (deploy, e))
  | inr (a, e) ↦ inl (a, rw (deploy, e))
]

pub abi_encode-cases :
    (types : List String) (args : List Val) (w : World) (t : Trace)
    → ((a : String) × (abi_encode types args w t ≡ (ok a, t)))
      ⊎ (abi_encode types args w t ≡ (err (rejected "encode"), t))
unfolding abi_encode ◌>>=◌
abi_encode-cases types args w t = elim (Option-cases (w.abi_encode types args)) [
  | inl e ↦ inr (rw e)
  | inr (a, e) ↦ inl (a, rw e)
]

-- The same as steps of a proof: what a part gave is handed on as a variable.
module _ {ℓ κ μ} {A : Type ℓ} {B : Type κ} {C : Type μ} where
  pub on_ok :
      (m : Task A) (f : A → Task B) (w : World) (t : Trace) {b : B} {t' : Trace}
      → (m >>= f) w t ≡ (ok b, t')
      → ((a : A) (s : Trace) → m w t ≡ (ok a, s) → f a w s ≡ (ok b, t') → C)
      → C
  on_ok m f w t h k = let (a, s, e, h') = >>=-ok m f w t h in k a s e h'

pub after_send {ℓ} :
    {B : Type ℓ} (c : Call) (k : Task B) (w : World) (t : Trace) {b : B} {t' : Trace}
    → (send c >> k) w t ≡ (ok b, t')
    → k w (sent c ∷ t) ≡ (ok b, t')
after_send c k w t h = on_ok (send c) (λ _. k) w t h λ _ s e h'. rw ((send-ok c w t e).1) at h'
