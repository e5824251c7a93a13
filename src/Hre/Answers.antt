-- ===== src/Hre/Answers.antt =====
-- What the answers are that a task has read, and at which point.
use tapioca.Base.{String, ◌≡◌, sym, ap, ◌∙◌, some, ◌∷◌, arith}
use tapioca.Hre.Types.{Val, Call, ChainInfo, prompted, Trace}
use tapioca.Hre.World.{World}
use tapioca.Hre.Task.{
  ok, ask_for_tag, get_chain, get_local_contract, get_contract_at, view, view_text,
}
use tapioca.Hre.Returns.{ask_or-ok}

-- What was read later is what stood at the start, where nothing has happened in between.
pub at_start {ℓ} :
    {A : Type ℓ} (f : Trace → String → A) {r s : Trace} {tag tag' : String} {a : A}
    → r ≡ s
    → tag ≡ tag'
    → f s tag ≡ a
    → f r tag' ≡ a
at_start f {s = s} {tag' = tag'} q g h = ap (λ x. f x tag') q ∙ ap (f s) (sym g) ∙ h

pub ask_for_tag-ok :
    (w : World) (t : Trace) {tag : String} {t' : Trace}
    → ask_for_tag w t ≡ (ok tag, t')
    → (tag ≡ w.ask_for_tag t) × (prompted "tag" ∷ t ≡ t')
unfolding ask_for_tag
ask_for_tag-ok w t h = ground arith

pub get_chain-ok :
    (w : World) (t : Trace) {c : ChainInfo} {t' : Trace}
    → get_chain w t ≡ (ok c, t')
    → (w.get_chain_by w.chain_id ≡ some c) × (t ≡ t')
unfolding get_chain
get_chain-ok w t h = ask_or-ok _ _ w t h

pub get_local_contract-ok :
    (name tag : String) (w : World) (t : Trace) {c : String} {t' : Trace}
    → get_local_contract name tag w t ≡ (ok c, t')
    → (w.local_contract t name tag ≡ some c) × (t ≡ t')
unfolding get_local_contract
get_local_contract-ok name tag w t h = ask_or-ok _ _ w t h

pub get_contract_at-ok :
    (artifact : String) (v : Val) (w : World) (t : Trace) {a : String} {t' : Trace}
    → get_contract_at artifact v w t ≡ (ok a, t')
    → (w.contract_at artifact v ≡ some a) × (t ≡ t')
unfolding get_contract_at
get_contract_at-ok artifact v w t h = ask_or-ok _ _ w t h

pub view-ok :
    (c : Call) (w : World) (t : Trace) {v : Val} {t' : Trace}
    → view c w t ≡ (ok v, t')
    → (w.view t c ≡ some v) × (t ≡ t')
unfolding view
view-ok c w t h = ask_or-ok _ _ w t h

pub view_text-ok :
    (c : Call) (w : World) (t : Trace) {v : String} {t' : Trace}
    → view_text c w t ≡ (ok v, t')
    → (w.view_text t c ≡ some v) × (t ≡ t')
unfolding view_text
view_text-ok c w t h = ask_or-ok _ _ w t h
