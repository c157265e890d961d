-- ===== src/Server/Cuts.antt =====
-- `take` and `skip`, which cut the texts of src/server.c.
use cortex_vm.Prelude.{
  ℕ, zero, suc, ◌+◌, ◌-◌, ◌≤◌, ◌≡◌, refl, sym, ap, ◌∙◌, List, [], ◌∷◌, ◌++◌, length, arith,
}
use cortex_vm.Server.Text.{take}
use cortex_vm.Server.Session.{skip}

pub take_nil : (n : ℕ) → take n [] ≡ []
unfolding take
take_nil zero = refl
take_nil (suc n) = refl

pub take-add : (n m : ℕ) (s : List ℕ) → take (n + m) s ≡ take n s ++ take m (skip n s)
unfolding take skip
take-add zero m s = ap (λ k. take k s) (omega arith)
take-add (suc n) m [] = take_nil (suc n + m) ∙ sym (take_nil m)
take-add (suc n) m (c ∷ s) =
    let e : suc n + m ≡ suc (n + m) = omega arith in
    ap (λ k. take k (c ∷ s)) e ∙ ap (λ t. c ∷ t) (take-add n m s)

pub length-skip : (n : ℕ) (s : List ℕ) → length (skip n s) ≡ length s - n
unfolding skip
length-skip zero s = omega arith
length-skip (suc n) [] = omega arith
length-skip (suc n) (c ∷ s) = omega (arith, length-skip n s)

pub take-enough : (n : ℕ) (s : List ℕ) → length s ≤ n → take n s ≡ s
unfolding take
take-enough n [] h = take_nil n
take-enough zero (c ∷ s) h = absurd (omega arith)
take-enough (suc n) (c ∷ s) h = ap (λ t. c ∷ t) (take-enough n s (omega arith))

pub split : (n : ℕ) (s : List ℕ) → take n s ++ skip n s ≡ s
unfolding take skip
split zero s = refl
split (suc n) [] = refl
split (suc n) (c ∷ s) = ap (λ t. c ∷ t) (split n s)

pub length-take_most : (n : ℕ) (s : List ℕ) → length (take n s) ≤ n
unfolding take
length-take_most zero s = omega arith
length-take_most (suc n) [] = omega arith
length-take_most (suc n) (c ∷ s) = omega (arith, length-take_most n s)
