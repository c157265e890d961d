-- ===== src/Prelude/Failure.antt =====
-- What a piece of the C code does: it returns, it ends the process by `exit(EXIT_FAILURE)` after
-- a `[FATAL ...]` message, or the C standard gives it no meaning (an access outside an
-- allocation, a division by zero). `diverged` is a loop that outlasted the fuel that its model has.
use mathlib.Core.Path.{◌≡◌, refl, subst}
use Prim.Native.Nat.{ℕ}

pub data Result {ℓ} (A : Type ℓ) : Type ℓ where
  ok : A → Result A
  fatal : ℕ → Result A
  undefined : Result A
  diverged : Result A

infixl 5 ◌>>=◌
abbrev pub ◌>>=◌ {ℓ κ} : {A : Type ℓ} {B : Type κ} → Result A → (A → Result B) → Result B
ok a >>= k = k a
fatal code >>= k = fatal code
undefined >>= k = undefined
diverged >>= k = diverged

-- A fact about what a result returns, if it returns.
abbrev pub Ensures {ℓ} : {A : Type ℓ} → (A → Type 0) → Result A → Type 0
Ensures P (ok a) = P a
Ensures P _ = Unit

pub Ensures-fatal {ℓ} :
    {A : Type ℓ} (P : A → Type 0) (r : Result A) (code : ℕ) → r ≡ fatal code → Ensures P r
Ensures-fatal P (ok a) code h = absurd (cc)
Ensures-fatal P (fatal c) code h = tt
Ensures-fatal P undefined code h = tt
Ensures-fatal P diverged code h = tt

-- What holds of each value that a chain can return holds of the one that it has returned.
pub Ensures-map :
    {A B : Type 0} (P : A → Type 0) (Q : B → Type 0) (r : Result A) (f : A → B) (b : B)
    → Ensures P r
    → ((a : A) → P a → Q (f a))
    → (r >>= λ a. ok (f a)) ≡ ok b
    → Q b
Ensures-map P Q (ok a) f b p k h = subst Q (cc) (k a p)
Ensures-map P Q (fatal c) f b p k h = absurd (cc)
Ensures-map P Q undefined f b p k h = absurd (cc)
Ensures-map P Q diverged f b p k h = absurd (cc)

module _ {ℓ κ} {A : Type ℓ} {B : Type κ} where
  -- What returned went through its first part.
  pub bind_inversion :
      (first : Result A) (k : A → Result B) {b : B}
      → (first >>= k) ≡ ok b
      → (mid : A) × (first ≡ ok mid) × (k mid ≡ ok b)
  bind_inversion undefined k h = cc
  bind_inversion diverged k h = cc
  bind_inversion (fatal code) k h = cc
  bind_inversion (ok mid) k h = (mid, refl, h)

-- Three parts of a chain, put together from either side.
module _ {ℓ κ μ} {P : Type ℓ} {Q : Type κ} {R : Type μ} (second : P → Result Q)
    (third : Q → Result R) where
  pub nested_chain :
      (first : Result P) → (first >>= second >>= third) ≡ (first >>= λ p. second p >>= third)
  nested_chain undefined = refl
  nested_chain diverged = refl
  nested_chain (ok p) = refl
  nested_chain (fatal number) = refl

-- What the parts of a chain ensure.
pub Ensures-bind {ℓ κ} :
    {A : Type ℓ} {B : Type κ} (P : A → Type 0) (Q : B → Type 0) (r : Result A) (k : A → Result B)
    → Ensures P r
    → ((a : A) → P a → Ensures Q (k a))
    → Ensures Q (r >>= k)
Ensures-bind P Q (ok a) k p h = h a p
Ensures-bind P Q (fatal code) k p h = tt
Ensures-bind P Q undefined k p h = tt
Ensures-bind P Q diverged k p h = tt

pub Ensures-any {ℓ κ} :
    {A : Type ℓ} {B : Type κ} (Q : B → Type 0) (r : Result A) (k : A → Result B)
    → ((a : A) → Ensures Q (k a))
    → Ensures Q (r >>= k)
Ensures-any Q (ok a) k h = h a
Ensures-any Q (fatal code) k h = tt
Ensures-any Q undefined k h = tt
Ensures-any Q diverged k h = tt

pub Ensures-ok {ℓ} :
    {A : Type ℓ} (P : A → Type 0) (r : Result A) (a : A) → Ensures P r → r ≡ ok a → P a
Ensures-ok P (ok b) a p h = subst P (cc) p
Ensures-ok P (fatal code) a p h = absurd (cc)
Ensures-ok P undefined a p h = absurd (cc)
Ensures-ok P diverged a p h = absurd (cc)
