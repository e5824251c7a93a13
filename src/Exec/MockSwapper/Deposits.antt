-- ===== src/Exec/MockSwapper/Deposits.antt =====
-- The deposits for the MockSwapper, on this chain and on the main chain.
use tapioca.Base.{
  ℕ, ◌+◌, String, ◌==◌, Bool, Bool-cases, Option-cases, false, first, filter, ◌≡◌, ◌⊎◌, inl, inr,
  refl, sym, ap, ◌∙◌, Option, none, some, List, [], ◌∷◌, arith,
}
use tapioca.Hre.Types.{
  Val, Call, str, num, bool, TContract, ChainInfo, Event, Error, rejected, sent, sent_on, Trace,
}
use tapioca.Hre.World.{World}
use tapioca.Hre.Task.{
  Result, ok, err, try_catch, Task, pure, throw, view, ask_or, require, ask, ◌>>=◌,
}
use mathlib.Core.Path.{subst}
use tapioca.Hre.Seen.{
  IsSilent, silent_rules, seen, is_tx, seen-eq_of_silent, ask-IsSilent, confirm-IsSilent,
}
use tapioca.Hre.Returns.{on_ok, >>=-of_ok, >>=-err, ask-ok, require-ok, pure-ok, send-ok}
use tapioca.Setups.{tx}
use tapioca.Utils.{find_named}
use tapioca.Exec.CrossChain.{send_from_call, bytes32_of}
use tapioca.Exec.CrossChain.Order.{solidity_pack-IsSilent, bytes32_of-ok, solidity_pack-ok, fee-ok}
use tapioca.Exec.MockSwapper.{
  number_of, equals, send_on, host_test, is_host, linked, deposit_here, deposit_there, send_over,
}

host_test-IsSilent : (toft : String) (info : ChainInfo) → IsSilent is_tx (host_test toft info)
unfolding host_test
host_test-IsSilent toft info = search silent_rules

caught :
    (m : Task Bool) (w : World) (t : Trace) (r : Result Bool) (t' : Trace)
    → m w t ≡ (r, t')
    → (try_catch m (pure false) w t).1 ≡ t'
unfolding try_catch pure
caught m w t (ok a) t' e = rw (try_catch, ap (λ p. p.0) e) (ap (λ p. p.1) e)
caught m w t (err x) t' e = rw (try_catch, ap (λ p. p.0) e) (ap (λ p. p.1) e)

pub is_host-IsSilent : (toft : String) (info : ChainInfo) → IsSilent is_tx (is_host toft info)
unfolding is_host
is_host-IsSilent toft info = record {
  at = λ w t.
      ap (seen is_tx) (caught (host_test toft info) w t _ _ refl)
      ∙ (host_test-IsSilent toft info).at w t;
}

abbrev answered : Option Val → Option ℕ
answered none = none
answered (some v) = number_of v

abbrev same_number : Option ℕ → Option ℕ → Bool
same_number none m = false
same_number (some n) m = equals n m

-- Does the TOFT answer that this chain is its host? An answer that cannot be had or is no number is none.
abbrev pub hosts : World → Trace → String → ChainInfo → Bool
hosts w t toft info =
    same_number (answered (w.view t (tx toft "hostChainID" []))) (w.parse_int info.chain_id)

tried_ok :
    (m : Task Bool) (w : World) (t : Trace) (b : Bool)
    → m w t ≡ (ok b, t)
    → try_catch m (pure false) w t ≡ (ok b, t)
unfolding try_catch pure
tried_ok m w t b e =
    ap (λ (p : Result Bool × Trace). elim p.0 [ ok a ↦ (ok a, p.1) | err _ ↦ (ok false, p.1) ]) e

tried_err :
    (m : Task Bool) (w : World) (t : Trace) (x : Error)
    → m w t ≡ (err x, t)
    → try_catch m (pure false) w t ≡ (ok false, t)
unfolding try_catch pure
tried_err m w t x e =
    ap (λ (p : Result Bool × Trace). elim p.0 [ ok a ↦ (ok a, p.1) | err _ ↦ (ok false, p.1) ]) e

is_host-hosts :
    (toft : String) (info : ChainInfo) (w : World) (t : Trace)
    → is_host toft info w t ≡ (ok (hosts w t toft info), t)
unfolding is_host host_test view ask_or require ask pure ◌>>=◌
is_host-hosts toft info w t =
    let c = tx toft "hostChainID" [] in
    elim (Option-cases (w.view t c)) [
      | inl e ↦
          tried_err (host_test toft info) w t _
            (>>=-err (view c) _ w t (ap (λ o. require (rejected c.fn) o w t) e))
          ∙ ap (λ o. (ok (same_number (answered o) (w.parse_int info.chain_id)), t)) (sym e)
      | inr (v, e) ↦
          let d = >>=-of_ok (view c) _ w t v t (ap (λ o. require (rejected c.fn) o w t) e) in
          elim (Option-cases (number_of v)) [
            | inl q ↦
                tried_err (host_test toft info) w t _ (
                  d
                  ∙ >>=-err (require (rejected "toNumber") (number_of v)) _ w t
                      (ap (λ o. require (rejected "toNumber") o w t) q))
                ∙ ap (λ o. (ok (same_number o (w.parse_int info.chain_id)), t)) (sym q)
                ∙ ap (λ o. (ok (same_number (answered o) (w.parse_int info.chain_id)), t)) (sym e)
            | inr (n, q) ↦
                tried_ok (host_test toft info) w t (equals n (w.parse_int info.chain_id)) (
                  d
                  ∙ >>=-of_ok (require (rejected "toNumber") (number_of v)) _ w t n t
                      (ap (λ o. require (rejected "toNumber") o w t) q))
                ∙ ap (λ o. (ok (same_number o (w.parse_int info.chain_id)), t)) (sym q)
                ∙ ap (λ o. (ok (same_number (answered o) (w.parse_int info.chain_id)), t)) (sym e)
          ]
    ]

pub is_host-ok :
    (toft : String) (info : ChainInfo) (w : World) (t : Trace) {b : Bool} {t' : Trace}
    → is_host toft info w t ≡ (ok b, t')
    → (hosts w t toft info ≡ b) × (t ≡ t')
unfolding pure
is_host-ok toft info w t h =
    pure-ok (hosts w t toft info) w t (sym (is_host-hosts toft info w t) ∙ h)

-- The TOFT of the main chain that goes by the name of this chain's.
abbrev pub IsLinked : World → Trace → String → String → ChainInfo → TContract → Type 0
IsLinked w t toft tag info c =
    (e : TContract) × (first
        (filter (λ x. x.address == toft) (w.load_global t tag "tapiocaz" info.chain_id))
      ≡ some e)
    × (find_named e.name (w.load_global t tag "tapiocaz" w.arbitrum_goerli) ≡ some c)

linked-ok :
    (entry : Option TContract) (list : List TContract) (w : World) (t : Trace)
    {o : Option TContract} {t' : Trace}
    → linked entry list w t ≡ (ok o, t')
    → (t ≡ t')
      × ((c : TContract)
          → o ≡ some c
          → (e : TContract) × (entry ≡ some e) × (find_named e.name list ≡ some c))
unfolding linked throw
linked-ok entry [] w t h = let p = pure-ok none w t h in (p.1, λ c e. cc (p.0, e))
linked-ok none (c ∷ cs) w t h = cc (ap (λ r. r.0) h)
linked-ok (some x) (c ∷ cs) w t h =
    let p = pure-ok (find_named x.name (c ∷ cs)) w t h in (p.1, λ d e. (x, refl, p.0 ∙ e))

linked-IsSilent :
    (entry : Option TContract) (list : List TContract) → IsSilent is_tx (linked entry list)
unfolding linked
linked-IsSilent entry [] = search silent_rules
linked-IsSilent none (c ∷ cs) = search silent_rules
linked-IsSilent (some e) (c ∷ cs) = search silent_rules

send_on-ok :
    (network : String) (c : Call) (w : World) (t : Trace) {t' : Trace}
    → send_on network c w t ≡ (ok tt, t')
    → t' ≡ sent_on network c ∷ t
unfolding send_on
send_on-ok network c w t h = ground arith

abbrev pub approval : String → String → ℕ → Call
approval toft yield_box amount = tx toft "approve" (str yield_box ∷ num amount ∷ [])

abbrev pub deposit : String → String → String → String → ℕ → Call
deposit yield_box asset_id owner swapper amount =
    tx yield_box "depositAsset" (str asset_id ∷ str owner ∷ str swapper ∷ num amount ∷ num 0 ∷ [])

-- The YieldBox and the MockSwapper of the local list of a chain, after these transactions.
abbrev pub AreLocal : World → String → String → Trace → String → String → Type 0
AreLocal w tag chain before yield_box swapper =
    (r : Trace) × (y : TContract) × (m : TContract) × (seen is_tx r ≡ before)
    × (find_named "YieldBox" (w.load_local r tag chain) ≡ some y)
    × (find_named "MockSwapper" (w.load_local r tag chain) ≡ some m)
    × (yield_box ≡ y.address)
    × (swapper ≡ m.address)

-- The YieldBox of the chain was approved, and the amount deposited there for its MockSwapper.
abbrev pub Deposited :
    World → String → ChainInfo → String → String → String → ℕ → Trace → Trace → Type 0
Deposited w tag info toft asset_id owner amount before after =
    (yield_box : String) × (swapper : String) × AreLocal w tag info.chain_id before yield_box
      swapper
    × (after
        ≡ sent (deposit yield_box asset_id owner swapper amount)
          ∷ sent (approval toft yield_box amount)
          ∷ before)

-- The fee that the TOFT estimates at this point for sending the amount to the owner's address on the main chain.
abbrev pub IsFee : World → Trace → String → String → ℕ → String → ℕ → Type 0
IsFee w r toft owner amount to fee =
    (gas : String) × (answer : Val) × (bytes32_of owner w r ≡ (ok to, r))
    × (w.view r (
          tx toft "estimateSendFee"
            (w.lz_of_chain w.arbitrum_goerli ∷ str to ∷ num amount ∷ bool false ∷ str gas ∷ []))
        ≡ some answer)
    × (number_of answer ≡ some fee)

-- What the deposit on the main chain goes by.
pub record Target (w : World) (tag : String) (c : TContract) (before : Trace) : Type 0 where
  pub info : ChainInfo
  pub key : String
  pub yield_box : String
  pub swapper : String
  pub is_main : w.get_chain_by w.arbitrum_goerli ≡ some info
  pub has_key : w.private_key ≡ some key
  pub are_local : AreLocal w tag info.chain_id before yield_box swapper

-- The approval and the deposit on the main chain, by the wallet of the key.
abbrev pub target_events :
    (w : World) (tag asset_id : String) (amount : ℕ) (c : TContract) (before : Trace)
    → Target w tag c before
    → Trace
target_events w tag asset_id amount c before k =
    sent_on k.info.name (deposit k.yield_box asset_id (w.wallet_address k.key) k.swapper amount)
    ∷ sent_on k.info.name (approval c.address k.yield_box amount)
    ∷ before

-- The amount was sent to the main chain, for twice the fee, and deposited there.
abbrev pub SentOver :
    World → String → ChainInfo → String → String → String → ℕ → Trace → Trace → Type 0
SentOver w tag info toft asset_id owner amount before after =
    (to : String) × (params : String) × (fee : ℕ) × (c : TContract) × ((r : Trace) × (seen is_tx r
        ≡ before)
      × IsFee w r toft owner amount to fee
      × IsLinked w r toft tag info c)
    × (let sending =
          sent (
            send_from_call toft owner (w.lz_of_chain w.arbitrum_goerli) to (num amount) params
              (num (fee + fee)))
          ∷ before in
        (k : Target w tag c sending) × (after ≡ target_events w tag asset_id amount c sending k))

pub deposit_here-ok :
    (toft asset_id tag signer : String) (info : ChainInfo) (amount : ℕ) (w : World) (t : Trace)
    {t' : Trace}
    → deposit_here toft asset_id tag signer info amount w t ≡ (ok tt, t')
    → Deposited w tag info toft asset_id signer amount (seen is_tx t) (seen is_tx t')
unfolding deposit_here
deposit_here-ok toft asset_id tag signer info amount w t h = on_ok _ _ w t h λ found t1 e1 h1.
    on_ok _ _ w t1 h1 λ swapper t2 e2 h2. on_ok _ _ w t2 h2 λ found' t3 e3 h3.
      on_ok _ _ w t3 h3 λ yield_box t4 e4 h4. on_ok _ _ w t4 h4 λ _ t5 e5 h5.
        let k1 =
          ask-ok (λ v x. find_named "MockSwapper" (v.load_local x tag info.chain_id)) w t e1 in
        let k2 = require-ok _ found w t1 e2 in
        let k3 = ask-ok (λ v x. find_named "YieldBox" (v.load_local x tag info.chain_id)) w t2 e3 in
        let k4 = require-ok _ found' w t3 e4 in
        let q2 : t ≡ t2 = k1.1 ∙ k2.1 in
        (
          yield_box.address,
          swapper.address,
          (
            t,
            yield_box,
            swapper,
            refl,
            ap (λ x. find_named "YieldBox" (w.load_local x tag info.chain_id)) q2 ∙ k3.0 ∙ k4.0,
            k1.0 ∙ k2.0,
            refl,
            refl,
          ),
          ap (seen is_tx) (
                (send-ok _ w t5 h5).1
                ∙ ap
                    (λ x.
                      sent (deposit yield_box.address asset_id signer swapper.address amount) ∷ x)
                    (send-ok _ w t4 e5).1)
              ∙ ap
                  (λ x.
                    sent (deposit yield_box.address asset_id signer swapper.address amount)
                    ∷ sent (approval toft yield_box.address amount)
                    ∷ seen is_tx x)
                  (sym (q2 ∙ k3.1 ∙ k4.1)),
        )

deposit_there-ok :
    (target : Option TContract) (asset_id tag : String) (amount : ℕ) (w : World) (t : Trace)
    {t' : Trace}
    → deposit_there target asset_id tag amount w t ≡ (ok tt, t')
    → (c : TContract) × (target ≡ some c)
      × (k : Target w tag c (seen is_tx t)) × (seen is_tx t'
          ≡ target_events w tag asset_id amount c (seen is_tx t) k)
unfolding deposit_there
deposit_there-ok target asset_id tag amount w t h = on_ok _ _ w t h λ main t1 e1 h1.
    on_ok _ _ w t1 h1 λ found t2 e2 h2. on_ok _ _ w t2 h2 λ private t3 e3 h3.
      on_ok _ _ w t3 h3 λ key t4 e4 h4. on_ok _ _ w t4 h4 λ info t5 e5 h5.
        on_ok _ _ w t5 h5 λ wallet t6 e6 h6. on_ok _ _ w t6 h6 λ c t7 e7 h7.
          on_ok _ _ w t7 h7 λ box t8 e8 h8. on_ok _ _ w t8 h8 λ found' t9 e9 h9.
            on_ok _ _ w t9 h9 λ swapper t10 e10 h10. on_ok _ _ w t10 h10 λ yield_box t11 e11 h11.
              on_ok _ _ w t11 h11 λ _ t12 e12 h12.
                let k1 = ask-ok (λ v _. v.arbitrum_goerli) w t e1 in
                let k2 = ask-ok (λ v _. v.get_chain_by main) w t1 e2 in
                let k3 = ask-ok (λ v _. v.private_key) w t2 e3 in
                let k4 = require-ok _ private w t3 e4 in
                let k5 = require-ok _ found w t4 e5 in
                let k6 = ask-ok (λ v _. v.wallet_address key) w t5 e6 in
                let k7 = require-ok _ target w t6 e7 in
                let k8 =
                  ask-ok (λ v x. find_named "YieldBox" (v.load_local x tag info.chain_id)) w t7
                    e8 in
                let k9 =
                  ask-ok (λ v x. find_named "MockSwapper" (v.load_local x tag info.chain_id)) w t8
                    e9 in
                let k10 = require-ok _ found' w t9 e10 in
                let k11 = require-ok _ box w t10 e11 in
                let q7 : t ≡ t7 = k1.1 ∙ k2.1 ∙ k3.1 ∙ k4.1 ∙ k5.1 ∙ k6.1 ∙ k7.1 in
                let last : String → Event = λ o.
                  sent_on info.name (deposit yield_box.address asset_id o swapper.address amount) in
                let before = sent_on info.name (approval c.address yield_box.address amount) in
                (
                  c,
                  k7.0,
                  record {
                    info = info;
                    key = key;
                    yield_box = yield_box.address;
                    swapper = swapper.address;
                    is_main = ap w.get_chain_by k1.0 ∙ k2.0 ∙ k5.0;
                    has_key = k3.0 ∙ k4.0;
                    are_local = (
                      t7,
                      yield_box,
                      swapper,
                      ap (seen is_tx) (sym q7),
                      k8.0 ∙ k11.0,
                      ap (λ x. find_named "MockSwapper" (w.load_local x tag info.chain_id)) k8.1
                          ∙ k9.0
                          ∙ k10.0,
                      refl,
                      refl,
                    );
                  },
                  ap (seen is_tx) (
                        send_on-ok _ _ w t12 h12
                        ∙ ap (λ x. last wallet ∷ x) (send_on-ok _ _ w t11 e12))
                      ∙ ap (λ o. last o ∷ before ∷ seen is_tx t11) (sym k6.0)
                      ∙ ap (λ x. last (w.wallet_address key) ∷ before ∷ seen is_tx x)
                          (sym (q7 ∙ k8.1 ∙ k9.1 ∙ k10.1 ∙ k11.1)),
                )

pub send_over-ok :
    (toft asset_id tag signer : String) (info : ChainInfo) (amount : ℕ) (w : World) (t : Trace)
    {t' : Trace}
    → send_over toft asset_id tag signer info amount w t ≡ (ok tt, t')
    → (seen is_tx t' ≡ seen is_tx t)
      ⊎ SentOver w tag info toft asset_id signer amount (seen is_tx t) (seen is_tx t')
unfolding send_over
send_over-ok toft asset_id tag signer info amount w t {t' = t'} h =
    on_ok _ _ w t h λ entries t1 e1 h1. on_ok _ _ w t1 h1 λ main t2 e2 h2.
      on_ok _ _ w t2 h2 λ main_entries t3 e3 h3. on_ok _ _ w t3 h3 λ target t4 e4 h4.
        on_ok _ _ w t4 h4 λ lz t5 e5 h5. on_ok _ _ w t5 h5 λ to t6 e6 h6.
          on_ok _ _ w t6 h6 λ gas t7 e7 h7. on_ok _ _ w t7 h7 λ answer t8 e8 h8.
            on_ok _ _ w t8 h8 λ fee t9 e9 h9. on_ok _ _ w t9 h9 λ want t10 e10 h10.
              let k1 = ask-ok (λ v x. v.load_global x tag "tapiocaz" info.chain_id) w t e1 in
              let k2 = ask-ok (λ v _. v.arbitrum_goerli) w t1 e2 in
              let k3 = ask-ok (λ v x. v.load_global x tag "tapiocaz" main) w t2 e3 in
              let (k4, k4') = linked-ok _ main_entries w t3 e4 in
              let k5 = ask-ok (λ v _. v.lz_of_chain main) w t4 e5 in
              let k6 = bytes32_of-ok signer w t5 e6 in
              let k7 = solidity_pack-ok _ _ w t6 e7 in
              let k8 = fee-ok toft lz to (num amount) gas w t7 e8 in
              let k9 = require-ok _ (number_of answer) w t8 e9 in
              let q2 : t ≡ t2 = k1.1 ∙ k2.1 in
              let q7 : t ≡ t7 = q2 ∙ k3.1 ∙ k4 ∙ k5.1 ∙ k6.1 ∙ k7 in
              let lz_is : w.lz_of_chain w.arbitrum_goerli ≡ lz = ap w.lz_of_chain k2.0 ∙ k5.0 in
              let quiet : seen is_tx t10 ≡ seen is_tx t =
                seen-eq_of_silent _ w t9 (confirm-IsSilent _ refl) e10
                ∙ ap (seen is_tx) (sym (q7 ∙ k8.1 ∙ k9.1)) in
              elim (Bool-cases want) [
                | inr q ↦ inl (ap (seen is_tx) (sym (pure-ok tt w t10 (rw q at h10)).1) ∙ quiet)
                | inl q ↦ on_ok _ _ w t10 (rw q at h10) λ min_gas t11 e11 h11.
                    on_ok _ _ w t11 h11 λ params t12 e12 h12. on_ok _ _ w t12 h12 λ _ t13 e13 h13.
                      let call : Val → Call = λ z.
                        send_from_call toft signer z to (num amount) params (num (fee + fee)) in
                      let (c, is_target, there, events) =
                        deposit_there-ok target asset_id tag amount w t13 h13 in
                      let (e, is_entry, is_linked) = k4' c is_target in
                      let sending : seen is_tx t13
                          ≡ sent (call (w.lz_of_chain w.arbitrum_goerli)) ∷ seen is_tx t =
                        ap (seen is_tx) (send-ok (call lz) w t12 e13).1
                        ∙ ap (λ x. sent (call lz) ∷ x)
                            (seen-eq_of_silent _ w t11 (solidity_pack-IsSilent _ _) e12
                              ∙ seen-eq_of_silent _ w t10 (ask-IsSilent _) e11
                              ∙ quiet)
                        ∙ ap (λ z. sent (call z) ∷ seen is_tx t) (sym lz_is) in
                      inr (
                        to,
                        params,
                        fee,
                        c,
                        (
                          t,
                          refl,
                          (
                            gas,
                            answer,
                            k6.0 t,
                            ap
                                  (λ z. w.view t (
                                    tx toft "estimateSendFee"
                                      (z ∷ str to ∷ num amount ∷ bool false ∷ str gas ∷ [])))
                                  lz_is
                                ∙ ap
                                    (λ x. w.view x (
                                      tx toft "estimateSendFee"
                                        (lz ∷ str to ∷ num amount ∷ bool false ∷ str gas ∷ [])))
                                    q7
                                ∙ k8.0,
                            k9.0,
                          ),
                          (
                            e,
                            ap (λ l. first (filter (λ x. x.address == toft) l)) k1.0 ∙ is_entry,
                            ap (λ m. find_named e.name (w.load_global t tag "tapiocaz" m)) k2.0
                                ∙ ap (λ x. find_named e.name (w.load_global x tag "tapiocaz" main))
                                    q2
                                ∙ ap (find_named e.name) k3.0
                                ∙ is_linked,
                          ),
                        ),
                        subst
                            (λ x.
                              (k : Target w tag c x) × (seen is_tx t'
                                ≡ target_events w tag asset_id amount c x k))
                            sending (there, events),
                      )
              ]
