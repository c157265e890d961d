-- ===== src/Assembler/DataRounds.antt =====
-- How many lines the data section has in `disassemble` of src/disassembler.c.
use native.Mathlib.Decide.{dec_lt}
use mathlib.Core.Path.{subst}
use cortex_vm.Prelude.{
  ℕ, zero, suc, ◌+◌, ◌-◌, ◌*◌, ◌≤◌, ◌<◌, ◌≡◌, refl, arith, ltb, lt→ltb, le→ltb, Option, none, some,
  List, [], ◌∷◌, length, ok, bind_inversion,
}
use cortex_vm.Assembler.DataLines.{line_rounds, string_at-Found, when_true, when_false, data_next}
use cortex_vm.Assembler.Listings.{ok_injective}
use cortex_vm.Disassembler.Program.{string_at, string_line, number_line, data_lines}

pub line_rounds-length :
    (lines : List (List ℕ)) (spare : ℕ) → line_rounds lines spare ≡ 2 * length lines + suc spare
line_rounds-length [] spare = omega arith
line_rounds-length (line ∷ lines) spare = omega (arith, line_rounds-length lines spare)

module _ (buff : ℕ → ℕ) (file_length : ℕ) where
  abbrev FewFrom : (i : ℕ) → List (List ℕ) → Type 0
  FewFrom i lines = length lines ≤ file_length - i

  FewFrom-next :
      (fuel i : ℕ) (lines : List (List ℕ)) (o : Option ℕ)
      → i < file_length
      → string_at buff file_length i ≡ o
      → ((j : ℕ) (more : List (List ℕ))
          → i ≤ j
          → data_lines buff fuel file_length (suc j) ≡ ok more
          → FewFrom (suc j) more)
      → data_next buff fuel file_length i o ≡ ok lines
      → FewFrom i lines
  FewFrom-next fuel i lines none inside at later made =
      let (more, made', joined) =
        bind_inversion (data_lines buff fuel file_length (suc i)) _ made in
      let few = later i more (omega arith) made' in
      subst (FewFrom i) (ok_injective (number_line buff i ∷ more) lines joined) (omega arith)
  FewFrom-next fuel i lines (some j) inside at later made =
      let order = (string_at-Found buff file_length i j at).behind in
      let (line, printed, others) = bind_inversion (string_line buff i j) _ made in
      let (more, made', joined) =
        bind_inversion (data_lines buff fuel file_length (suc j)) _ others in
      let few = later j more order made' in
      subst (FewFrom i) (ok_injective (line ∷ more) lines joined) (omega arith)

  pub data_lines-few :
      (fuel i : ℕ) (lines : List (List ℕ))
      → data_lines buff fuel file_length i ≡ ok lines
      → FewFrom i lines
  unfolding data_lines
  data_lines-few zero i lines made = absurd (cc)
  data_lines-few (suc fuel) i lines made = elim (dec_lt i file_length) [
    | yes inside ↦
        FewFrom-next fuel i lines (string_at buff file_length i) inside refl
          (λ j more lo. data_lines-few fuel (suc j) more)
          (when_true (ltb i file_length) _ _ (lt→ltb i file_length inside) made)
    | no outside ↦
        subst (FewFrom i)
          (ok_injective [] lines
            (when_false (ltb i file_length) _ _ (le→ltb i file_length (omega arith)) made))
          (omega arith)
  ]
