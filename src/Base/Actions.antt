-- ===== src/Base/Actions.antt =====
-- Code that acts on a world: what it returns, and the world that it leaves. The world `W` is a
-- parameter everywhere: an action of another process may change it within any call.
use mathlib.Core.Bool.{Bool, true, false}
use agentic_tenancy.Base.Tests.{if◌then◌else◌}
use agentic_tenancy.Base.Errors.{Result, ok, err, Error}

abbrev pub Action {ℓ} : Type ℓ → Type ℓ → Type ℓ
Action W A = W → A × W

module _ {ℓ} {W A : Type ℓ} where
  abbrev pub pure : A → Action W A
  pure a w = (a, w)

module _ {ℓ} {W A B : Type ℓ} where
  infixl 10 ◌>>=◌ ◌>>◌
  abbrev pub ◌>>=◌ : Action W A → (A → Action W B) → Action W B
  ◌>>=◌ m f w = let (a, w') = m w in f a w'

  abbrev pub ◌>>◌ : Action W A → Action W B → Action W B
  ◌>>◌ m k w = let (a, w') = m w in k w'

-- `if err != nil { return …, fmt.Errorf("…: %w", err) }`, and on with the value.
abbrev pub on_ok {ℓ} :
    {W A B : Type ℓ} → (Error → Error) → (A → Action W (Result B)) → Result A → Action W (Result B)
on_ok wrapped k (ok a) w = k a w
on_ok wrapped k (err e) w = (err (wrapped e), w)

-- `defer last()` before `body`.
abbrev pub deferred {ℓ} : {W A B : Type ℓ} → Action W B → Action W A → Action W A
deferred last body w = let (a, w') = body w in let (_, w'') = last w' in (a, w'')

-- Actions that move the world along a preorder `R`, which is reflexive and transitive.
pub record Preorder {ℓ} {W : Type ℓ} (R : W → W → Type ℓ) : Type ℓ where
  pub stay : (w : W) → R w w
  pub chain : (w1 w2 w3 : W) → R w1 w2 → R w2 w3 → R w1 w3

abbrev pub Moves {ℓ} : {W A : Type ℓ} → (W → W → Type ℓ) → Action W A → Type ℓ
Moves {W = W} R m = (w : W) → R w (m w).1

pub if-Moves {ℓ} :
    {W A : Type ℓ} (R : W → W → Type ℓ) (b : Bool) (m n : Action W A)
    → Moves R m
    → Moves R n
    → Moves R (if b then m else n)
if-Moves R true m n h k = h
if-Moves R false m n h k = k

pub on_ok-Moves {ℓ} :
    {W A B : Type ℓ} (R : W → W → Type ℓ) (g : Error → Error) (k : A → Action W (Result B))
    (m : Action W (Result A))
    → Preorder R
    → Moves R m
    → ((a : A) → Moves R (k a))
    → Moves R (m >>= on_ok g k)
on_ok-Moves {A = A} {B = B} R g k m p h next w = then_next (m w).0 (h w)
  where
    then_next : (r : Result A) → R w (m w).1 → R w (on_ok g k r (m w).1).1
    then_next (ok a) first = p.chain _ _ _ first (next a (m w).1)
    then_next (err e) first = first
