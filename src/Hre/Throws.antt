-- ===== src/Hre/Throws.antt =====
-- Tasks that cannot return in a given world.
use tapioca.Base.{◌≡◌, refl, Option, none, some, inl, inr, Option-cases}
use tapioca.Hre.Types.{Trace, Error, ChainInfo}
use tapioca.Hre.World.{World}
use tapioca.Hre.Task.{Result, ok, err, Task, ask, require, get_chain, continue, ◌>>=◌}

-- Whatever has happened before, `m` ends with an error.
pub record Throws {ℓ} {A : Type ℓ} (w : World) (m : Task A) : Type ℓ where
  pub at : (t : Trace) (a : A) → (m w t).0 ≡ ok a → ⊥

module _ {ℓ κ} {A : Type ℓ} {B : Type κ} {w : World} where
  rest :
      (g : A → Task B)
      → ((a : A) → Throws w (g a))
      → (t : Trace) (r : Result A) (b : B) → (continue r g w t).0 ≡ ok b
      → ⊥
  rest g hg t (ok a) b h = (hg a).at t b h
  rest g hg t (err e) b h = cc

  -- What follows throws.
  pub >>=-Throws : (m : Task A) (g : A → Task B) → ((a : A) → Throws w (g a)) → Throws w (m >>= g)
  unfolding ◌>>=◌
  >>=-Throws m g hg = record { at = λ t b h. rest g hg (m w t).1 (m w t).0 b h }

  -- A lookup that finds nothing, and is required.
  pub require_missing-Throws :
      (f : World → Trace → Option A) (e : Error) (k : A → Task B)
      → ((t : Trace) → f w t ≡ none)
      → Throws w (ask f >>= λ o. require e o >>= k)
  unfolding ◌>>=◌
  require_missing-Throws f e k h = record { at = λ t b. rw h (λ p. cc p) }

module _ {ℓ κ} {A : Type ℓ} {B : Type κ} (w : World) where
  continue-returned :
      (r : Result A) (g : A → Task B) (t : Trace) (b : B)
      → (continue r g w t).0 ≡ ok b
      → (a : A) × (r ≡ ok a) × Unit {0}
  continue-returned (ok a) g t b h = (a, refl, tt)
  continue-returned (err e) g t b h = cc

  stops :
      (g : A → Task B) (t : Trace) (r : Result A)
      → ((a : A) → r ≡ ok a → ⊥)
      → (continue r g w t).1 ≡ t
  stops g t (ok a) h = absurd (h a refl)
  stops g t (err e) h = refl

module _ {ℓ κ} {A : Type ℓ} {B : Type κ} {w : World} where
  -- What stands behind a task that throws does nothing, and the whole throws.
  pub Throws->>= : (m : Task A) (g : A → Task B) → Throws w m → Throws w (m >>= g)
  unfolding ◌>>=◌
  Throws->>= m g h = record {
    at = λ t b k. let (a, e, _) = continue-returned w (m w t).0 g (m w t).1 b k in h.at t a e;
  }

  pub trace_of_Throws :
      (m : Task A) (g : A → Task B) (t : Trace) → Throws w m → ((m >>= g) w t).1 ≡ (m w t).1
  unfolding ◌>>=◌
  trace_of_Throws m g t h = stops w g (m w t).1 (m w t).0 (h.at t)

-- The chain's entry is known to the rest.
pub get_chain-Throws {ℓ} :
    {B : Type ℓ} {w : World} (k : ChainInfo → Task B)
    → ((c : ChainInfo) → w.get_chain_by w.chain_id ≡ some c → Throws w (k c))
    → Throws w (get_chain >>= k)
unfolding get_chain ◌>>=◌
get_chain-Throws {w} k h = record {
  at = λ t b. elim (Option-cases (w.get_chain_by w.chain_id)) [
    | inl e ↦ rw e (λ p. cc p)
    | inr (c, e) ↦ rw e ((h c e).at t b)
  ];
}
