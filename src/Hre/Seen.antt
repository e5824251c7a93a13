-- ===== src/Hre/Seen.antt =====
-- What a part of the trace shows, and tasks that leave it alone.
use mathlib.Core.Path.{subst}
use tapioca.Base.{
  String, ◌≡◌, refl, sym, ap, ◌∙◌, Bool, true, false, Option, none, some, List, [], ◌∷◌, arith,
  first, if◌then◌else◌,
}
use tapioca.Hre.Types.{
  Val, TContract, Call, Vm, Event, prompted, sent, deployed, deployed_on, sent_on, vm_executed,
  vm_saved, vm_verified, Trace, Error, type_error,
}
use tapioca.Hre.World.{World}
use tapioca.Hre.Task.{
  Result, ok, err, Task, pure, throw, ask, require, ask_or, try_catch, guard, input, confirm,
  ask_for_tag, get_chain, get_local_contract, get_contract_at, view, view_text, view_length,
  encode_function_data, new_vm, execute, save, verify, try_verify, list, first_address, continue,
  ◌>>=◌,
}

-- The events that `f` picks, newest first.
abbrev pub seen : (Event → Bool) → Trace → Trace
seen f [] = []
seen f (e ∷ t) = let rest = seen f t in if f e then e ∷ rest else rest

-- All that happens outside the terminal.
abbrev pub is_effect : Event → Bool
is_effect (prompted _) = false
is_effect _ = true

-- What happens on the chain and not through the deployer: a transaction, or a deployment.
abbrev pub is_tx : Event → Bool
is_tx (sent _) = true
is_tx (deployed _ _ _) = true
is_tx (deployed_on _ _ _ _) = true
is_tx (sent_on _ _) = true
is_tx _ = false

-- All that changes the chain: those, and the execution of a deployer's queue.
abbrev pub is_act : Event → Bool
is_act (vm_executed _) = true
is_act e = is_tx e

-- Whether `m` returns or throws, it adds no event that `f` picks.
pub record IsSilent {ℓ} {A : Type ℓ} (f : Event → Bool) (m : Task A) : Type ℓ where
  pub at : (w : World) (t : Trace) → seen f (m w t).1 ≡ seen f t

pub seen-eq_of_silent {ℓ} :
    {A : Type ℓ} {f : Event → Bool} (m : Task A) (w : World) (t : Trace) {r : Result A} {t' : Trace}
    → IsSilent f m
    → m w t ≡ (r, t')
    → seen f t' ≡ seen f t
seen-eq_of_silent {f} m w t h e = ap (λ p. seen f p.1) (sym e) ∙ h.at w t

module _ {ℓ} {A : Type ℓ} {f : Event → Bool} where
  pub pure-IsSilent : (a : A) → IsSilent f (pure a)
  unfolding pure
  pure-IsSilent a = record { at = λ w t. refl }

  pub throw-IsSilent : (e : Error) → IsSilent {A = A} f (throw e)
  unfolding throw
  throw-IsSilent e = record { at = λ w t. refl }

  pub ask-IsSilent : (g : World → Trace → A) → IsSilent f (ask g)
  unfolding ask
  ask-IsSilent g = record { at = λ w t. refl }

  pub require-IsSilent : (e : Error) (o : Option A) → IsSilent f (require e o)
  unfolding require
  require-IsSilent e none = record { at = λ w t. refl }
  require-IsSilent e (some a) = record { at = λ w t. refl }

  pub ask_or-IsSilent : (e : Error) (g : World → Trace → Option A) → IsSilent f (ask_or e g)
  unfolding ask_or
  ask_or-IsSilent e g = record { at = λ w t. (require-IsSilent e (g w t)).at w t }

  pub if-IsSilent :
      (b : Bool) (m n : Task A) → IsSilent f m → IsSilent f n → IsSilent f (if b then m else n)
  if-IsSilent true m n hm hn = hm
  if-IsSilent false m n hm hn = hn

module _ {ℓ κ} {A : Type ℓ} {B : Type κ} {f : Event → Bool} where
  -- the part of `m >>= g` after `m`
  rest :
      (g : A → Task B)
      → ((a : A) → IsSilent f (g a))
      → (w : World) (t : Trace) (r : Result A) → seen f (continue r g w t).1 ≡ seen f t
  rest g hg w t (ok a) = (hg a).at w t
  rest g hg w t (err e) = refl

  -- What is quiet after `m` leaves what is seen of `m`.
  pub seen->>= :
      (m : Task A) (g : A → Task B) (w : World) (t : Trace)
      → ((a : A) → IsSilent f (g a))
      → seen f ((m >>= g) w t).1 ≡ seen f (m w t).1
  unfolding ◌>>=◌
  seen->>= m g w t hg = rest g hg w (m w t).1 (m w t).0

  pub >>=-IsSilent :
      (m : Task A) (g : A → Task B)
      → IsSilent f m
      → ((a : A) → IsSilent f (g a))
      → IsSilent f (m >>= g)
  unfolding ◌>>=◌
  >>=-IsSilent m g hm hg = record {
    at = λ w t. let (r, t') = m w t in rest g hg w t' r ∙ hm.at w t;
  }

module _ {f : Event → Bool} where
  pub guard-IsSilent : (b : Bool) (e : Error) → IsSilent f (guard b e)
  unfolding guard
  guard-IsSilent b e = record { at = λ w t. refl }

  pub get_chain-IsSilent : IsSilent f get_chain
  unfolding get_chain
  get_chain-IsSilent = ask_or-IsSilent _ _

  pub get_local_contract-IsSilent : (name tag : String) → IsSilent f (get_local_contract name tag)
  unfolding get_local_contract
  get_local_contract-IsSilent name tag = ask_or-IsSilent _ _

  pub get_contract_at-IsSilent :
      (artifact : String) (address : Val) → IsSilent f (get_contract_at artifact address)
  unfolding get_contract_at
  get_contract_at-IsSilent artifact address = ask_or-IsSilent _ _

  pub view-IsSilent : (c : Call) → IsSilent f (view c)
  unfolding view
  view-IsSilent c = ask_or-IsSilent _ _

  pub view_text-IsSilent : (c : Call) → IsSilent f (view_text c)
  unfolding view_text
  view_text-IsSilent c = ask_or-IsSilent _ _

  pub view_length-IsSilent : (c : Call) → IsSilent f (view_length c)
  unfolding view_length
  view_length-IsSilent c = ask_or-IsSilent _ _

  pub encode_function_data-IsSilent :
      (fn : String) (args : List Val) → IsSilent f (encode_function_data fn args)
  unfolding encode_function_data
  encode_function_data-IsSilent fn args = ask_or-IsSilent _ _

  pub new_vm-IsSilent : (tag : String) → IsSilent f (new_vm tag)
  unfolding new_vm
  new_vm-IsSilent tag = ask-IsSilent _

  pub list-IsSilent : (vm : Vm) → IsSilent f (list vm)
  unfolding list
  list-IsSilent vm = ask-IsSilent _

  pub first_address-IsSilent : (vm : Vm) → IsSilent f (first_address vm)
  unfolding first_address
  first_address-IsSilent vm = >>=-IsSilent _ _ (list-IsSilent vm) λ l.
      >>=-IsSilent _ _ (require-IsSilent (type_error "address") (first l))
        λ (c : TContract). pure-IsSilent c.address

  pub input-IsSilent : (name : String) → f (prompted name) ≡ false → IsSilent f (input name)
  unfolding input
  input-IsSilent name h = record { at = λ w t. rw h }

  pub confirm-IsSilent : (name : String) → f (prompted name) ≡ false → IsSilent f (confirm name)
  unfolding confirm
  confirm-IsSilent name h = record { at = λ w t. rw h }

  pub ask_for_tag-IsSilent : f (prompted "tag") ≡ false → IsSilent f ask_for_tag
  unfolding ask_for_tag
  ask_for_tag-IsSilent h = record { at = λ w t. rw h }

  pub execute-IsSilent : (vm : Vm) → f (vm_executed vm) ≡ false → IsSilent f (execute vm)
  unfolding execute
  execute-IsSilent vm h = record { at = λ w t. ground (arith, h) }

  pub save-IsSilent : (vm : Vm) → f (vm_saved vm) ≡ false → IsSilent f (save vm)
  unfolding save
  save-IsSilent vm h = record { at = λ w t. rw h }

  pub try_verify-IsSilent : (vm : Vm) → f (vm_verified vm) ≡ false → IsSilent f (try_verify vm)
  unfolding try_verify try_catch verify pure
  try_verify-IsSilent vm h = record { at = λ w t. ground (arith, h) }

-- Rules for the ways to build a task.
pub ruleset silent_rules = (
  refl, pure-IsSilent, throw-IsSilent, ask-IsSilent, require-IsSilent, ask_or-IsSilent, if-IsSilent,
  >>=-IsSilent, guard-IsSilent, get_chain-IsSilent, get_local_contract-IsSilent,
  get_contract_at-IsSilent, view-IsSilent, view_text-IsSilent, view_length-IsSilent,
  encode_function_data-IsSilent, new_vm-IsSilent, list-IsSilent, first_address-IsSilent,
  input-IsSilent, confirm-IsSilent, ask_for_tag-IsSilent, execute-IsSilent, save-IsSilent,
  try_verify-IsSilent,
)

-- What holds of the events that are seen before and after a quiet part, in whichever way the whole ends.
module _ {ℓ κ} {A : Type ℓ} {B : Type κ} {f : Event → Bool} where
  pub seen-after :
      (m : Task A) (g : A → Task B) (P : Trace → Type 0) (w : World) (t : Trace)
      → IsSilent f m
      → P (seen f t)
      → ((a : A) (s : Trace) → m w t ≡ (ok a, s) → P (seen f (g a w s).1))
      → P (seen f ((m >>= g) w t).1)
  unfolding ◌>>=◌
  seen-after m g P w t quiet before after = go (m w t).0 (m w t).1 refl
    where
      go : (r : Result A) (s : Trace) → m w t ≡ (r, s) → P (seen f (continue r g w s).1)
      go (ok a) s e = after a s e
      go (err x) s e = subst P (sym (seen-eq_of_silent m w t quiet e)) before
