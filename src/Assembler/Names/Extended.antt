-- ===== src/Assembler/Names/Extended.antt =====
-- The extensions that the names of the instructions ask for, in src/assembler.c.
use cortex_vm.Prelude.{
  ℕ, ◌<◌, Bool, true, false, if◌then◌else◌, arith, List, [], ◌∷◌, length, ok, Ensures,
}
use cortex_vm.Assembler.{cmp_chars, skip_chars}
use cortex_vm.Assembler.Names.{
  Code, Named, op_failure, named, name_a, name_o, name_x, name_s, name_sr, name_j, name_l, name_b,
  name_h, name_n,
}
use cortex_vm.Assembler.Names.Extensions.{
  bare, name_m, name_m_kind, name_d, name_d_kind, name_r, name_r_kind, name_f, name_i, name_u,
  get_name,
}

-- A name asks for no more than the two extensions that there are.
unfoldable pub AsksFor : Named → Type 0
AsksFor r = Ensures (λ (code, rest). code.ext < 4) r

AsksFor-if : (b : Bool) (x y : Named) → AsksFor x → AsksFor y → AsksFor (if b then x else y)
AsksFor-if true x y px py = px
AsksFor-if false x y px py = py

AsksFor-ok : (code : Code) (rest : List ℕ) → code.ext < 4 → AsksFor (ok (code, rest))
unfolding AsksFor
AsksFor-ok code rest h = h

AsksFor-failure : AsksFor op_failure
unfolding AsksFor
AsksFor-failure = tt

AsksFor-named :
    (head text : List ℕ) (code : Code) (other : Named)
    → code.ext < 4
    → AsksFor other
    → AsksFor (named head text code other)
unfolding named
AsksFor-named head text code other h p =
    AsksFor-if (cmp_chars head text) (ok (code, skip_chars (length text) head)) other
      (AsksFor-ok code (skip_chars (length text) head) h) p

-- The name alone, with a separator behind it.
AsksFor-bare : (head : List ℕ) (code : Code) → code.ext < 4 → AsksFor (bare head code)
unfolding bare
AsksFor-bare [] code h = AsksFor-failure
AsksFor-bare (c ∷ head) code h = search (AsksFor-if, AsksFor-ok, AsksFor-failure)

ruleset asking = (AsksFor-if, AsksFor-ok, AsksFor-failure, AsksFor-named, AsksFor-bare, arith)

name_a-AsksFor : (head : List ℕ) → AsksFor (name_a head)
unfolding name_a
name_a-AsksFor [] = AsksFor-failure
name_a-AsksFor (c ∷ head) = search (asking)

name_o-AsksFor : (head : List ℕ) → AsksFor (name_o head)
unfolding name_o
name_o-AsksFor head = search (asking)

name_x-AsksFor : (head : List ℕ) → AsksFor (name_x head)
unfolding name_x
name_x-AsksFor head = search (asking)

name_sr-AsksFor : (head : List ℕ) → AsksFor (name_sr head)
unfolding name_sr
name_sr-AsksFor [] = AsksFor-failure
name_sr-AsksFor (c ∷ head) = search (asking)

name_s-AsksFor : (head : List ℕ) → AsksFor (name_s head)
unfolding name_s
name_s-AsksFor [] = AsksFor-failure
name_s-AsksFor (c ∷ head) = search (asking, name_sr-AsksFor)

name_j-AsksFor : (head : List ℕ) → AsksFor (name_j head)
unfolding name_j
name_j-AsksFor head = search (asking)

name_l-AsksFor : (head : List ℕ) → AsksFor (name_l head)
unfolding name_l
name_l-AsksFor head = search (asking)

name_b-AsksFor : (head : List ℕ) → AsksFor (name_b head)
unfolding name_b
name_b-AsksFor [] = AsksFor-failure
name_b-AsksFor (c ∷ head) = search (asking)

name_h-AsksFor : (head : List ℕ) → AsksFor (name_h head)
unfolding name_h
name_h-AsksFor head = search (asking)

name_n-AsksFor : (head : List ℕ) → AsksFor (name_n head)
unfolding name_n
name_n-AsksFor head = search (asking)

name_m_kind-AsksFor : (head : List ℕ) → AsksFor (name_m_kind head)
unfolding name_m_kind
name_m_kind-AsksFor head = search (asking)

name_m-AsksFor : (head : List ℕ) → AsksFor (name_m head)
unfolding name_m
name_m-AsksFor head = search (asking, name_m_kind-AsksFor)

name_d_kind-AsksFor : (head : List ℕ) → AsksFor (name_d_kind head)
unfolding name_d_kind
name_d_kind-AsksFor head = search (asking)

name_d-AsksFor : (head : List ℕ) → AsksFor (name_d head)
unfolding name_d
name_d-AsksFor head = search (asking, name_d_kind-AsksFor)

name_r_kind-AsksFor : (head : List ℕ) → AsksFor (name_r_kind head)
unfolding name_r_kind
name_r_kind-AsksFor head = search (asking)

name_r-AsksFor : (head : List ℕ) → AsksFor (name_r head)
unfolding name_r
name_r-AsksFor head = search (asking, name_r_kind-AsksFor)

name_f-AsksFor : (head : List ℕ) → AsksFor (name_f head)
unfolding name_f
name_f-AsksFor [] = AsksFor-failure
name_f-AsksFor (c ∷ head) = search (asking)

name_i-AsksFor : (head : List ℕ) → AsksFor (name_i head)
unfolding name_i
name_i-AsksFor head = search (asking)

name_u-AsksFor : (head : List ℕ) → AsksFor (name_u head)
unfolding name_u
name_u-AsksFor head = search (asking)

pub get_name-AsksFor : (head : List ℕ) → AsksFor (get_name head)
unfolding get_name
get_name-AsksFor [] = AsksFor-failure
get_name-AsksFor (c ∷ head) = search (
  asking, name_a-AsksFor, name_o-AsksFor, name_x-AsksFor, name_s-AsksFor, name_j-AsksFor,
  name_l-AsksFor, name_b-AsksFor, name_h-AsksFor, name_n-AsksFor, name_m-AsksFor, name_d-AsksFor,
  name_r-AsksFor, name_f-AsksFor, name_i-AsksFor, name_u-AsksFor,
)
