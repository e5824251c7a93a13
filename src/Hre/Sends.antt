-- ===== src/Hre/Sends.antt =====
-- Transactions sent one after the other.
use tapioca.Base.{◌≡◌, refl, sym, ap, ◌∙◌, ◌⊎◌, inl, inr, false, Bool-cases, List, [], ◌∷◌, ◌++◌}
use tapioca.Hre.Types.{Call, sent, Trace, rejected}
use tapioca.Hre.World.{World}
use tapioca.Hre.Task.{Result, ok, err, send, send_all, emit_if, ◌>>=◌}
use tapioca.Hre.Returns.{>>=-ok, send-ok, pure-ok}

-- The events of a list of transactions that begins at `t`.
abbrev pub reverse_onto : List Call → Trace → Trace
reverse_onto [] t = t
reverse_onto (c ∷ cs) t = reverse_onto cs (sent c ∷ t)

-- `send_all` that returns has sent every call, in order.
pub send_all-ok :
    (cs : List Call) (w : World) (t : Trace) {u : Unit {0}} {t' : Trace}
    → send_all cs w t ≡ (ok u, t')
    → t' ≡ reverse_onto cs t
unfolding send_all
send_all-ok [] w t h = sym (pure-ok tt w t h).1
send_all-ok (c ∷ cs) w t h =
    let (_, s, e, k) = >>=-ok (send c) (λ _. send_all cs) w t h in
    send_all-ok cs w s k ∙ ap (reverse_onto cs) (send-ok c w t e).1

-- The first call of the list that is refused, and what was sent before it.
pub record Refusal (cs : List Call) (w : World) (t : Trace) (r : Result (Unit {0}) × Trace)
    : Type 0 where
  pub before : List Call
  pub call : Call
  pub after : List Call
  pub split : cs ≡ before ++ call ∷ after
  pub refused : w.accepts (reverse_onto before t) call ≡ false
  pub outcome : r ≡ (err (rejected call.fn), reverse_onto before t)

later :
    (c : Call) (cs : List Call) (w : World) (t : Trace) {r : Result (Unit {0}) × Trace}
    → Refusal cs w (sent c ∷ t) r
    → Refusal (c ∷ cs) w t r
later c cs w t r = record {
  before = c ∷ r.before;
  call = r.call;
  after = r.after;
  split = ap (λ l. c ∷ l) r.split;
  refused = r.refused;
  outcome = r.outcome;
}

-- Either all are sent, or all before the first that is refused.
pub send_all-outcome :
    (cs : List Call) (w : World) (t : Trace)
    → (send_all cs w t ≡ (ok tt, reverse_onto cs t)) ⊎ Refusal cs w t (send_all cs w t)
unfolding send_all send emit_if ◌>>=◌
send_all-outcome [] w t = inl refl
send_all-outcome (c ∷ cs) w t = elim (Bool-cases (w.accepts t c)) [
  | inl e ↦ elim (send_all-outcome cs w (sent c ∷ t)) [
    | inl h ↦ inl (rw e h)
    | inr r ↦ inr (rw e (later c cs w t r))
  ]
  | inr e ↦
      inr (record {
        before = [];
        call = c;
        after = cs;
        split = refl;
        refused = e;
        outcome = rw e refl;
      })
]
