-- ===== src/Disassembler/Ends.antt =====
-- The loops and the failures of `disassemble` in src/disassembler.c.
use cortex_vm.Prelude.{
  ℕ, zero, suc, ◌+◌, ◌-◌, ◌≤◌, ◌<◌, ◌≡◌, ◌≢◌, ltb, refl, arith, Bool, true, false, if◌then◌else◌,
  Option, none, some, List, [], ◌∷◌, length, codes, Result, ok, fatal, undefined, diverged, ◌>>=◌,
}
use cortex_vm.Header.{Header, header_validate}
use cortex_vm.Disassembler.Mnemonics.{
  mnemonic_r, mnemonic_i, mnemonic_b, mnemonic_sys, mnemonic_fr, mnemonic_fb, mnemonic_mr,
  mnemonic_mi,
}
use cortex_vm.Disassembler.Lines.{
  dis_op_r, dis_op_i, dis_op_s, dis_op_l, dis_op_b, dis_op_sys, dis_op_fr, dis_op_fb, dis_op_mr,
  dis_op_mi,
}
use cortex_vm.Disassembler.Floats.{dis_op_fi}
use cortex_vm.Disassembler.Listing.{dis_word}
use cortex_vm.Disassembler.Program.{
  escaped, string_end, string_body, string_line, string_at, data_lines, number_line, code_lines,
  data_part, disassemble,
}

-- A value, or `exit` with a message.
data Settles {A : Type 0} : Result A → Type 0 where
  returns : (a : A) → Settles (ok a)
  exits : (code : ℕ) → Settles (fatal code)

Settles-ends : {A : Type 0} (r : Result A) → Settles r → r ≢ diverged
Settles-ends (ok a) (returns _) h = cc
Settles-ends (fatal code) (exits _) h = cc
Settles-ends undefined s h = elim s [ ]
Settles-ends diverged s h = elim s [ ]

Settles-bind :
    {A B : Type 0} (r : Result A) (k : A → Result B)
    → Settles r
    → ((a : A) → Settles (k a))
    → Settles (r >>= k)
Settles-bind (ok a) k p h = h a
Settles-bind (fatal code) k p h = exits code
Settles-bind undefined k p h = elim p [ ]
Settles-bind diverged k p h = elim p [ ]

Settles-if :
    {A : Type 0} (b : Bool) (x y : Result A) → Settles x → Settles y → Settles (if b then x else y)
Settles-if true x y px py = px
Settles-if false x y px py = py

Settles-test :
    {A : Type 0} (b : Bool) (x y : Result A)
    → (b ≡ true → Settles x)
    → Settles y
    → Settles (if b then x else y)
Settles-test true x y px py = px refl
Settles-test false x y px py = py

Settles-elim :
    {A B : Type 0} (o : Option A) (n : Result B) (f : A → Result B)
    → Settles n
    → ((a : A) → o ≡ some a → Settles (f a))
    → Settles (elim o [ none ↦ n | some a ↦ f a ])
Settles-elim none n f pn pf = pn
Settles-elim (some a) n f pn pf = pf a refl

ruleset settling = (Settles-if, returns, exits, Settles-bind)

mnemonic_r-Settles : (fn fl : ℕ) → Settles (mnemonic_r fn fl)
unfolding mnemonic_r
mnemonic_r-Settles fn fl = search (settling) depth 16

mnemonic_i-Settles : (fn fl : ℕ) → Settles (mnemonic_i fn fl)
unfolding mnemonic_i
mnemonic_i-Settles fn fl = search (settling) depth 16

mnemonic_b-Settles : (fn : ℕ) → Settles (mnemonic_b fn)
unfolding mnemonic_b
mnemonic_b-Settles fn = search (settling) depth 16

mnemonic_sys-Settles : (fn : ℕ) → Settles (mnemonic_sys fn)
unfolding mnemonic_sys
mnemonic_sys-Settles fn = search (settling) depth 16

mnemonic_fr-Settles : (fn : ℕ) → Settles (mnemonic_fr fn)
unfolding mnemonic_fr
mnemonic_fr-Settles fn = search (settling) depth 16

mnemonic_fb-Settles : (fn : ℕ) → Settles (mnemonic_fb fn)
unfolding mnemonic_fb
mnemonic_fb-Settles fn = search (settling) depth 16

mnemonic_mr-Settles : (fn : ℕ) → Settles (mnemonic_mr fn)
unfolding mnemonic_mr
mnemonic_mr-Settles fn = search (settling) depth 16

mnemonic_mi-Settles : (fn : ℕ) → Settles (mnemonic_mi fn)
unfolding mnemonic_mi
mnemonic_mi-Settles fn = search (settling) depth 16

dis_op_fi-Settles :
    (format_g : ℕ → List ℕ) (widen : ℕ → ℕ) (w : ℕ) (rest : List ℕ)
    → Settles (dis_op_fi format_g widen w rest)
unfolding dis_op_fi
dis_op_fi-Settles format_g widen w rest = search (settling) depth 16

ruleset printing = (
  settling, mnemonic_r-Settles, mnemonic_i-Settles, mnemonic_b-Settles, mnemonic_sys-Settles,
  mnemonic_fr-Settles, mnemonic_fb-Settles, mnemonic_mr-Settles, mnemonic_mi-Settles,
  dis_op_fi-Settles,
)

dis_word-Settles :
    (format_g : ℕ → List ℕ) (widen : ℕ → ℕ) (w : ℕ) (rest : List ℕ)
    → Settles (dis_word format_g widen w rest)
unfolding dis_word dis_op_r dis_op_i dis_op_s dis_op_l dis_op_b dis_op_sys dis_op_fr dis_op_fb
    dis_op_mr dis_op_mi
dis_word-Settles format_g widen w rest = search (printing) depth 16

header_validate-Settles : (size : ℕ) (h : Header) → Settles (header_validate size h)
unfolding header_validate
header_validate-Settles size h = search (settling) depth 16

module _ (buff : ℕ → ℕ) where
  string_body-Settles : (left k pos : ℕ) → Settles (string_body buff left k pos)
  unfolding string_body
  string_body-Settles zero k pos = search (settling) depth 16
  string_body-Settles (suc left) k pos =
      search (settling, string_body-Settles left (suc k) (pos + length (escaped (buff k)))) depth 16

  string_line-Settles : (i j : ℕ) → Settles (string_line buff i j)
  unfolding string_line
  string_line-Settles i j = search (settling, string_body-Settles)

  -- A string ends where it starts or behind.
  string_end-lower : (left i j : ℕ) → string_end buff left i ≡ some j → i ≤ j
  unfolding string_end
  string_end-lower zero i j h = absurd (cc)
  string_end-lower (suc left) i j h = ground (arith, string_end-lower left (suc i) j)

  string_at-lower : (file_length i j : ℕ) → string_at buff file_length i ≡ some j → i ≤ j
  unfolding string_at
  string_at-lower file_length i j h = ground (arith, string_end-lower (file_length - i) i j)

  data_lines-Settles :
      (fuel file_length i : ℕ)
      → 0 < fuel
      → file_length < i + fuel
      → Settles (data_lines buff fuel file_length i)
  unfolding data_lines
  data_lines-Settles zero file_length i some_fuel enough = absurd (omega arith)
  data_lines-Settles (suc fuel) file_length i some_fuel enough =
      Settles-test (ltb i file_length) _ (ok [])
        (λ inside.
          let next = λ (j : ℕ) (behind : i ≤ j).
            data_lines-Settles fuel file_length (suc j) (ground arith) (ground arith) in
          Settles-elim (string_at buff file_length i) _ _
            (Settles-bind (data_lines buff fuel file_length (suc i)) _ (next i (omega arith))
              λ lines. returns (number_line buff i ∷ lines))
            λ j found. Settles-bind (string_line buff i j) _ (string_line-Settles i j) λ line.
              Settles-bind (data_lines buff fuel file_length (suc j)) _
                (next j (string_at-lower file_length i j found)) λ lines. returns (line ∷ lines))
        (returns [])

  module _ (format_g : ℕ → List ℕ) (widen : ℕ → ℕ) where
    code_lines-Settles :
        (offset left i : ℕ) → Settles (code_lines buff format_g widen offset left i)
    unfolding code_lines
    code_lines-Settles offset zero i = returns []
    code_lines-Settles offset (suc left) i =
        search
          (
            settling,
            dis_word-Settles format_g widen (buff i) [],
            code_lines-Settles offset left (suc i),
          )
          depth 16

    data_part-Settles : (h : Header) → Settles (data_part buff format_g widen h)
    unfolding data_part
    data_part-Settles h =
        Settles-if (ltb 0 h.data_offset) _ (ok [])
          (Settles-bind
            (data_lines buff (suc (h.file_length - h.data_offset)) h.file_length h.data_offset) _
            (data_lines-Settles (suc (h.file_length - h.data_offset)) h.file_length h.data_offset
              (omega arith) (omega arith))
            λ lines. returns (codes ".data\n" ∷ lines))
          (returns [])

    disassemble-Settles : Settles (disassemble buff format_g widen)
    unfolding disassemble
    disassemble-Settles =
        search (settling, header_validate-Settles, code_lines-Settles, data_part-Settles) depth 16

    -- Whatever the words, the loops of `disassemble` end: the one over the data section needs no
    -- more rounds than the section has words, and one more.
    pub disassemble-ne-diverged : disassemble buff format_g widen ≢ diverged
    disassemble-ne-diverged = Settles-ends (disassemble buff format_g widen) disassemble-Settles
