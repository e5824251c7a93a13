-- ===== src/Hre/Obliging.antt =====
-- Tasks that return, and worlds in which nothing that is called fails.
use tapioca.Base.{
  ℕ, ◌≡◌, refl, ◌∙◌, arith, String, Bool, Bool-cases, inl, inr, true, false, Option, some, List,
  ◌∷◌, if◌then◌else◌,
}
use tapioca.Hre.Types.{Val, ChainInfo, Call, Vm, Trace, Error, Event, vm_verified, deployed}
use tapioca.Hre.World.{World}
use tapioca.Hre.Task.{
  ok, Task, pure, ask, require, ask_or, try_catch, guard, emit_if, input, confirm, ask_for_tag,
  send, deploy, get_chain, get_local_contract, get_contract_at, get_contract_factory, view,
  view_text, view_length, abi_encode, encode_function_data, new_vm, execute, save, verify,
  try_verify, list, ◌>>=◌,
}
use tapioca.Hre.Returns.{>>=-of_ok}

-- Whatever has happened before, `m` returns.
pub record Returns {ℓ} {A : Type ℓ} (w : World) (m : Task A) : Type ℓ where
  pub at : (t : Trace) → (a : A) × (s : Trace) × (m w t ≡ (ok a, s))

-- Every contract that is asked for is there, and every call of the chain, of ethers and of the deployer goes through.
pub record IsObliging (w : World) : Type 0 where
  pub chain : (c : ChainInfo) × (w.get_chain_by w.chain_id ≡ some c)
  pub has_local :
      (t : Trace) (name tag : String) → (a : String) × (w.local_contract t name tag ≡ some a)
  pub has_contract :
      (artifact : String) (v : Val) → (a : String) × (w.contract_at artifact v ≡ some a)
  pub factories : (name : String) → w.has_artifact name ≡ true
  pub views : (t : Trace) (c : Call) → (v : Val) × (w.view t c ≡ some v)
  pub text_views : (t : Trace) (c : Call) → (v : String) × (w.view_text t c ≡ some v)
  pub lengths : (t : Trace) (c : Call) → (n : ℕ) × (w.view_length t c ≡ some n)
  pub accepted : (t : Trace) (c : Call) → w.accepts t c ≡ true
  pub deployments :
      (t : Trace) (factory : String) (args : List Val)
      → (a : String) × (w.deploys t factory args ≡ some a)
  pub data_encoded :
      (fn : String) (args : List Val) → (s : String) × (w.encode_function_data fn args ≡ some s)
  pub abi_encoded :
      (types : List String) (args : List Val) → (s : String) × (w.abi_encode types args ≡ some s)
  pub executed : (t : Trace) (vm : Vm) → w.executes t vm ≡ true
  pub verified : (t : Trace) (vm : Vm) → w.verifies t vm ≡ true

module _ {ℓ} {A : Type ℓ} {w : World} where
  pub pure-Returns : (a : A) → Returns w (pure a)
  unfolding pure
  pure-Returns a = record { at = λ t. (a, t, refl) }

  pub ask-Returns : (g : World → Trace → A) → Returns w (ask g)
  unfolding ask
  ask-Returns g = record { at = λ t. (g w t, t, refl) }

  pub ask_or-Returns :
      (e : Error) (g : World → Trace → Option A)
      → ((t : Trace) → (a : A) × (g w t ≡ some a))
      → Returns w (ask_or e g)
  unfolding ask_or require
  ask_or-Returns e g h = record { at = λ t. let (a, q) = h t in (a, t, rw q refl) }

  pub require-Returns :
      (e : Error) (o : Option A) → ((a : A) × (o ≡ some a)) → Returns w (require e o)
  unfolding require
  require-Returns e o (a, q) = record { at = λ t. (a, t, rw q refl) }

  pub some-Returns : (e : Error) (a : A) → Returns w (require e (some a))
  unfolding require
  some-Returns e a = record { at = λ t. (a, t, refl) }

  pub if-Returns :
      (b : Bool) (m n : Task A) → Returns w m → Returns w n → Returns w (if b then m else n)
  if-Returns true m n hm hn = hm
  if-Returns false m n hm hn = hn

module _ {ℓ κ} {A : Type ℓ} {B : Type κ} {w : World} where
  pub >>=-Returns_of :
      (m : Task A) (g : A → Task B)
      → Returns w m
      → ((t s : Trace) (a : A) → m w t ≡ (ok a, s) → Returns w (g a))
      → Returns w (m >>= g)
  >>=-Returns_of m g hm hg = record {
    at = λ t.
        let (a, s, e) = hm.at t in
        let (b, s', e') = (hg t s a e).at s in (b, s', >>=-of_ok m g w t a s e ∙ e');
  }

  pub >>=-Returns :
      (m : Task A) (g : A → Task B)
      → Returns w m
      → ((a : A) → Returns w (g a))
      → Returns w (m >>= g)
  >>=-Returns m g hm hg = >>=-Returns_of m g hm λ t s a e. hg a

module _ {ℓ κ} {A : Type ℓ} {B : Type κ} {w : World} where
  -- A read, of which the rest knows the value.
  pub ask->>=-Returns :
      (g : World → Trace → A) (k : A → Task B)
      → ((t : Trace) → Returns w (k (g w t)))
      → Returns w (ask g >>= k)
  unfolding ◌>>=◌
  ask->>=-Returns g k h = record { at = λ t. (h t).at t }

emit_if-returns :
    (b : Bool) (e : Error) (ev : Event) (w : World) (t : Trace)
    → b ≡ true
    → (u : Unit {0}) × (s : Trace) × (emit_if b e ev w t ≡ (ok u, s))
unfolding emit_if
emit_if-returns b e ev w t h = (tt, ev ∷ t, rw h refl)

module _ {w : World} where
  pub input-Returns : (name : String) → Returns w (input name)
  unfolding input
  input-Returns name = record { at = λ t. (_, _, refl) }

  pub confirm-Returns : (name : String) → Returns w (confirm name)
  unfolding confirm
  confirm-Returns name = record { at = λ t. (_, _, refl) }

  pub ask_for_tag-Returns : Returns w ask_for_tag
  unfolding ask_for_tag
  ask_for_tag-Returns = record { at = λ t. (_, _, refl) }

  pub new_vm-Returns : (tag : String) → Returns w (new_vm tag)
  unfolding new_vm
  new_vm-Returns tag = ask-Returns _

  pub list-Returns : (vm : Vm) → Returns w (list vm)
  unfolding list
  list-Returns vm = ask-Returns _

  pub save-Returns : (vm : Vm) → Returns w (save vm)
  unfolding save
  save-Returns vm = record { at = λ t. (_, _, refl) }

  pub guard-Returns : (b : Bool) (e : Error) → b ≡ true → Returns w (guard b e)
  unfolding guard
  guard-Returns b e h = record { at = λ t. (tt, t, rw h refl) }

  pub try_verify-Returns : (vm : Vm) → Returns w (try_verify vm)
  unfolding try_verify try_catch verify emit_if pure
  try_verify-Returns vm = record {
    at = λ t. elim (Bool-cases (w.verifies t vm)) [
      | inl e ↦ (tt, vm_verified vm ∷ t, ground (arith, e))
      | inr e ↦ (tt, t, ground (arith, e))
    ];
  }

module _ {w : World} (o : IsObliging w) where
  pub get_chain-Returns : Returns w get_chain
  unfolding get_chain
  get_chain-Returns = ask_or-Returns _ _ λ t. o.chain

  pub get_local_contract-Returns : (name tag : String) → Returns w (get_local_contract name tag)
  unfolding get_local_contract
  get_local_contract-Returns name tag = ask_or-Returns _ _ λ t. o.has_local t name tag

  pub get_contract_at-Returns :
      (artifact : String) (v : Val) → Returns w (get_contract_at artifact v)
  unfolding get_contract_at
  get_contract_at-Returns artifact v = ask_or-Returns _ _ λ t. o.has_contract artifact v

  pub get_contract_factory-Returns : (name : String) → Returns w (get_contract_factory name)
  unfolding get_contract_factory ◌>>=◌ guard
  get_contract_factory-Returns name = record { at = λ t. (tt, t, rw (o.factories name) refl) }

  pub view-Returns : (c : Call) → Returns w (view c)
  unfolding view
  view-Returns c = ask_or-Returns _ _ λ t. o.views t c

  pub view_text-Returns : (c : Call) → Returns w (view_text c)
  unfolding view_text
  view_text-Returns c = ask_or-Returns _ _ λ t. o.text_views t c

  pub view_length-Returns : (c : Call) → Returns w (view_length c)
  unfolding view_length
  view_length-Returns c = ask_or-Returns _ _ λ t. o.lengths t c

  pub encode_function_data-Returns :
      (fn : String) (args : List Val) → Returns w (encode_function_data fn args)
  unfolding encode_function_data
  encode_function_data-Returns fn args = ask_or-Returns _ _ λ t. o.data_encoded fn args

  pub abi_encode-Returns :
      (types : List String) (args : List Val) → Returns w (abi_encode types args)
  unfolding abi_encode
  abi_encode-Returns types args = ask_or-Returns _ _ λ t. o.abi_encoded types args

  pub send-Returns : (c : Call) → Returns w (send c)
  unfolding send
  send-Returns c = record { at = λ t. emit_if-returns _ _ _ w t (o.accepted t c) }

  pub execute-Returns : (vm : Vm) → Returns w (execute vm)
  unfolding execute
  execute-Returns vm = record { at = λ t. emit_if-returns _ _ _ w t (o.executed t vm) }

  pub verify-Returns : (vm : Vm) → Returns w (verify vm)
  unfolding verify
  verify-Returns vm = record { at = λ t. emit_if-returns _ _ _ w t (o.verified t vm) }

  pub deploy-Returns : (factory : String) (args : List Val) → Returns w (deploy factory args)
  unfolding deploy
  deploy-Returns factory args = record {
    at = λ t.
        let (a, e) = o.deployments t factory args in
        (a, deployed factory args a ∷ t, rw (deploy, e) refl);
  }

-- Rules for the parts that return, in an obliging world.
pub ruleset returns_rules = (
  pure-Returns, some-Returns, ask-Returns, if-Returns, >>=-Returns, input-Returns, confirm-Returns,
  ask_for_tag-Returns, new_vm-Returns, list-Returns, save-Returns, try_verify-Returns,
  get_chain-Returns, get_local_contract-Returns, get_contract_at-Returns,
  get_contract_factory-Returns, view-Returns, view_text-Returns, view_length-Returns,
  encode_function_data-Returns, abi_encode-Returns, send-Returns, execute-Returns, verify-Returns,
  deploy-Returns,
)
