-- ===== src/Utils/Ownership.antt =====
-- `transferOwnership` of Tapioca-bar/tasks/utils.ts
use mathlib.Core.Path.{subst}
use tapioca.Base.{String, ◌≡◌, refl, sym, ap, ◌∙◌, Option, none, some, List, [], ◌∷◌, arith}
use tapioca.Hre.Types.{TContract, Build, Call, sent, Trace}
use tapioca.Hre.World.{World}
use tapioca.Hre.Task.{ok, ask, ◌>>=◌, get_contract_at}
use tapioca.Hre.Returns.{on_ok, send-ok, pure-ok, require-ok}
use tapioca.Hre.Sends.{reverse_onto}
use tapioca.Utils.{
  find_prefixed, address_of, get_local_contract, ownership, transfer_one, transfer_ownership,
}

-- The call hands the contract of a build to the multisig: the one that the local list has under
-- the first entry whose name starts with the build's.
abbrev pub HandsOver : World → Trace → String → String → String → Build → Call → Type 0
HandsOver w t tag chain_id multisig d c =
    let entry = find_prefixed d.deployment_name (w.load_local t tag chain_id) in
    (contract : String) × (w.contract_at d.deployment_name (address_of entry) ≡ some contract)
    × (c ≡ ownership multisig contract)

get_local_contract-ok :
    (name : String) (o : Option TContract) (w : World) (t : Trace) {c : String} {t' : Trace}
    → get_local_contract name o w t ≡ (ok (some c), t')
    → (w.contract_at name (address_of o) ≡ some c) × (t' ≡ t)
unfolding get_local_contract get_contract_at ◌>>=◌
get_local_contract-ok name none w t h = ground arith
get_local_contract-ok name (some e) w t h = ground arith

locals-ok :
    (tag chain_id : String) (w : World) (t : Trace) {l : List TContract} {t' : Trace}
    → ask (λ w t. w.load_local t tag chain_id) w t ≡ (ok l, t')
    → (w.load_local t tag chain_id ≡ l) × (t' ≡ t)
unfolding ◌>>=◌
locals-ok tag chain_id w t h = ground arith

transfer_one-ok :
    (tag chain_id multisig : String) (d : Build) (w : World) (t : Trace) {u : Unit {0}} {t' : Trace}
    → transfer_one tag chain_id multisig d w t ≡ (ok u, t')
    → (c : Call) × HandsOver w t tag chain_id multisig d c × (t' ≡ sent c ∷ t)
unfolding transfer_one
transfer_one-ok tag chain_id multisig d w t h = on_ok _ _ w t h λ locals t1 e1 h1.
    on_ok _ _ w t1 h1 λ found t2 e2 h2. on_ok _ _ w t2 h2 λ contract t3 e3 h3.
      let read = locals-ok tag chain_id w t e1 in
      let present = require-ok _ _ w t2 e3 in
      let entry = find_prefixed d.deployment_name locals in
      let lookup =
        get_local_contract-ok d.deployment_name entry w t1 (
          subst (λ f. get_local_contract d.deployment_name entry w t1 ≡ (ok f, t2)) present.0 e2) in
      let c = ownership multisig contract in
      (
        c,
        (
          contract,
          ap (λ l. w.contract_at d.deployment_name (address_of (find_prefixed d.deployment_name l)))
                read.0
              ∙ lookup.0,
          refl,
        ),
        (send-ok c w t3 h3).1 ∙ ap (λ x. sent c ∷ x) (sym present.1 ∙ lookup.1 ∙ read.1),
      )

-- One call for each build of the queue, in its order. The lists are read again before each, after
-- the calls before it.
abbrev pub HandOvers : World → Trace → String → String → String → List Build → List Call → Type 0
HandOvers w t tag chain_id multisig [] [] = Unit
HandOvers w t tag chain_id multisig (d ∷ ds) (c ∷ cs) =
    HandsOver w t tag chain_id multisig d c × HandOvers w (sent c ∷ t) tag chain_id multisig ds cs
HandOvers w t tag chain_id multisig _ _ = ⊥

-- A handover that returns has sent one `transferOwnership` to the multisig for each build of the
-- queue, in its order, each to the contract that the local list has for that build, and has done
-- nothing else.
pub transfer_ownership-order :
    (tag chain_id multisig : String) (ds : List Build) (w : World) (t : Trace) {t' : Trace}
    → transfer_ownership tag chain_id multisig ds w t ≡ (ok tt, t')
    → (cs : List Call) × HandOvers w t tag chain_id multisig ds cs × (t' ≡ reverse_onto cs t)
unfolding transfer_ownership
transfer_ownership-order tag chain_id multisig [] w t h = ([], tt, sym (pure-ok tt w t h).1)
transfer_ownership-order tag chain_id multisig (d ∷ ds) w t {t'} h = on_ok _ _ w t h λ _ s e k.
    let (c, over, one) = transfer_one-ok tag chain_id multisig d w t e in
    let (cs, overs, more) =
      transfer_ownership-order tag chain_id multisig ds w (sent c ∷ t)
        (subst (λ x. transfer_ownership tag chain_id multisig ds w x ≡ (ok tt, t')) one k) in
    (c ∷ cs, (over, overs), more)
