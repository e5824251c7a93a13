-- ===== src/Exec/RegisterYbAssets/Order.antt =====
-- What registerYbAssets.ts registers.
use tapioca.Base.{
  String, ◌≡◌, refl, sym, ap, ◌∙◌, Option, none, some, true, List, [], ◌∷◌, map, filter, arith,
}
use tapioca.Hre.Types.{Val, str, TContract, ChainInfo, sent, Trace}
use tapioca.Hre.World.{World}
use tapioca.Hre.Task.{ok, get_contract_at, ◌>>=◌}
use tapioca.Hre.Seen.{
  IsSilent, seen, seen-eq_of_silent, is_tx, silent_rules, get_chain-IsSilent, ask_for_tag-IsSilent,
  require-IsSilent, ask-IsSilent, confirm-IsSilent, guard-IsSilent,
}
use tapioca.Hre.Returns.{
  guard-ok, confirm-ok, on_ok, send-ok, ask_or-ok, pure-ok, encode_function_data-ok,
}
use tapioca.Setups.{MultiCall, tx, is_strategy, asset_args, register_calls, build_yield_box_assets}
use tapioca.Utils.{find_named, address_of, address_or_throw}
use tapioca.Deploy.Stack.{multicall_args}
use tapioca.Deploy.Silent.{global_or_local-IsSilent}
use tapioca.Exec.RegisterYbAssets.{
  find_strategies, filter_strategies, asset_deps, register_yb_assets,
}

-- Each call is on the YieldBox, and its data is the encoded registration of one strategy.
pub record Registers (w : World) (yield_box : String) (deps strats : List TContract)
    (calls : List MultiCall) : Type 0 where
  pub encoded :
      map (λ (c : MultiCall). some c.call_data) calls
      ≡ map (λ s. w.encode_function_data "registerAsset" (asset_args deps s)) strats
  pub targets : map (λ (c : MultiCall). c.target) calls ≡ map (λ _. yield_box) strats

register_calls-ok :
    (yield_box : String) (deps strats : List TContract) (w : World) (t : Trace)
    {calls : List MultiCall} {t' : Trace}
    → register_calls yield_box deps strats w t ≡ (ok calls, t')
    → Registers w yield_box deps strats calls × (t' ≡ t)
unfolding register_calls
register_calls-ok yield_box deps [] w t h =
    let p = pure-ok [] w t h in
    (
      record {
        encoded = ap (map (λ (c : MultiCall). some c.call_data)) (sym p.0);
        targets = ap (map (λ (c : MultiCall). c.target)) (sym p.0);
      },
      sym p.1,
    )
register_calls-ok yield_box deps (x ∷ xs) w t h = on_ok _ _ w t h λ call_data t1 e1 h1.
    on_ok _ _ w t1 h1 λ calls t2 e2 h2.
      let encoded = encode_function_data-ok _ _ w t e1 in
      let (r, same) = register_calls-ok yield_box deps xs w t1 e2 in
      let p = pure-ok _ w t2 h2 in
      (
        record {
          encoded =
              ap (map (λ (c : MultiCall). some c.call_data)) (sym p.0) ∙ cc (encoded.0, r.encoded);
          targets =
              ap (map (λ (c : MultiCall). c.target)) (sym p.0) ∙ ap (λ l. yield_box ∷ l) r.targets;
        },
        sym p.1 ∙ same ∙ sym encoded.1,
      )

address_or_throw-ok :
    (name : String) (o : Option TContract) (w : World) (t : Trace) {a : String} {t' : Trace}
    → address_or_throw name o w t ≡ (ok a, t')
    → (address_of o ≡ str a) × (t' ≡ t)
unfolding ◌>>=◌
address_or_throw-ok name none w t h = ground arith
address_or_throw-ok name (some e) w t h = ground arith

get_contract_at-trace :
    (artifact : String) (v : Val) (w : World) (t : Trace) {a : String} {t' : Trace}
    → get_contract_at artifact v w t ≡ (ok a, t')
    → t' ≡ t
unfolding get_contract_at
get_contract_at-trace artifact v w t h = sym (ask_or-ok _ _ w t h).1

-- The builder reads, and gives one call for each entry that serves a token, on the YieldBox of
-- the list.
pub build_yield_box_assets-ok :
    (deps : List TContract) (w : World) (t : Trace) {calls : List MultiCall} {t' : Trace}
    → build_yield_box_assets deps w t ≡ (ok calls, t')
    → (yield_box : String) × (address_of (find_named "YieldBox" deps) ≡ str yield_box)
      × Registers w yield_box deps (filter is_strategy deps) calls
      × (t' ≡ t)
unfolding build_yield_box_assets
build_yield_box_assets-ok deps w t h = on_ok _ _ w t h λ yield_box t1 e1 h1.
    on_ok _ _ w t1 h1 λ contract t2 e2 h2.
      let found = address_or_throw-ok _ _ w t e1 in
      let (registers, same) = register_calls-ok yield_box deps _ w t2 h2 in
      (yield_box, found.0, registers, same ∙ get_contract_at-trace _ _ w t1 e2 ∙ found.1)

find_strategies-IsSilent :
    (names : Option (List String)) (tag : String) (c : ChainInfo)
    → IsSilent is_tx (find_strategies names tag c)
unfolding find_strategies
find_strategies-IsSilent names tag c = search silent_rules

filter_strategies-IsSilent : (l : List TContract) → IsSilent is_tx (filter_strategies l)
unfolding filter_strategies
filter_strategies-IsSilent l = search silent_rules

asset_deps-IsSilent :
    (tag : String) (c : ChainInfo) (l : List TContract) (y : TContract)
    → IsSilent is_tx (asset_deps tag c l y)
unfolding asset_deps
asset_deps-IsSilent tag c l y = search silent_rules

-- The entries that the strategies, the user's filter and the tokens' lists give.
abbrev pub AreDeps : World → Option (List String) → List TContract → Type 0
AreDeps w names deps =
    (tag : String) × (chain_info : ChainInfo) × (found : List TContract) × (strats : List TContract)
    × (yield_box : TContract) × (s : Trace) × (s1 : Trace) × (s2 : Trace) × (s3 : Trace)
    × (find_strategies names tag chain_info w s ≡ (ok found, s1))
    × (filter_strategies found w s1 ≡ (ok strats, s2))
    × (asset_deps tag chain_info strats yield_box w s2 ≡ (ok deps, s3))

-- A registration that returns was confirmed by the user, and has made one transaction: a
-- multicall that registers, on the YieldBox of the entries that were found, each of these that
-- serves a token, and nothing else.
pub register_yb_assets-order :
    (names : Option (List String)) (w : World) (t : Trace) {t' : Trace}
    → register_yb_assets names w t ≡ (ok tt, t')
    → (s : Trace) × (multicall : String) × (deps : List TContract) × (yield_box : String)
      × (calls : List MultiCall) × AreDeps w names deps
      × (w.confirm s "confirm" ≡ true)
      × (address_of (find_named "YieldBox" deps) ≡ str yield_box)
      × Registers w yield_box deps (filter is_strategy deps) calls
      × (seen is_tx t' ≡ sent (tx multicall "multicall" (multicall_args calls)) ∷ seen is_tx t)
unfolding register_yb_assets
register_yb_assets-order names w t h = on_ok _ _ w t h λ chain_info t1 e1 h1.
    on_ok _ _ w t1 h1 λ tag t2 e2 h2. on_ok _ _ w t2 h2 λ yb t3 e3 h3.
      on_ok _ _ w t3 h3 λ entry t4 e4 h4. on_ok _ _ w t4 h4 λ found t5 e5 h5.
        on_ok _ _ w t5 h5 λ strats t6 e6 h6. on_ok _ _ w t6 h6 λ deps t7 e7 h7.
          on_ok _ _ w t7 h7 λ calls t8 e8 h8. on_ok _ _ w t8 h8 λ confirmed t9 e9 h9.
            on_ok _ _ w t9 h9 λ _ t10 e10 h10. on_ok _ _ w t10 h10 λ multicall t11 e11 h11.
              let (yield_box, at_yb, registers, same) = build_yield_box_assets-ok deps w t7 e8 in
              let quiet =
                seen-eq_of_silent _ w t10 (ask-IsSilent _) e11
                ∙ seen-eq_of_silent _ w t9 (guard-IsSilent _ _) e10
                ∙ seen-eq_of_silent _ w t8 (confirm-IsSilent _ refl) e9
                ∙ ap (seen is_tx) same
                ∙ seen-eq_of_silent _ w t6 (asset_deps-IsSilent _ _ _ _) e7
                ∙ seen-eq_of_silent _ w t5 (filter_strategies-IsSilent _) e6
                ∙ seen-eq_of_silent _ w t4 (find_strategies-IsSilent _ _ _) e5
                ∙ seen-eq_of_silent _ w t3 (require-IsSilent _ _) e4
                ∙ seen-eq_of_silent _ w t2 (global_or_local-IsSilent _ _ _ _) e3
                ∙ seen-eq_of_silent _ w t1 (ask_for_tag-IsSilent refl) e2
                ∙ seen-eq_of_silent _ w t get_chain-IsSilent e1 in
              (
                t8,
                multicall,
                deps,
                yield_box,
                calls,
                (tag, chain_info, found, strats, entry, t4, t5, t6, t7, e5, e6, e7),
                confirm-ok _ w t8 e9 ∙ (guard-ok confirmed _ w t9 e10).0,
                at_yb,
                registers,
                ap (seen is_tx) (send-ok _ w t11 h11).1
                    ∙ ap (λ x. sent (tx multicall "multicall" (multicall_args calls)) ∷ x) quiet,
              )
