-- ===== src/Assembler/Invariant.antt =====
-- The lists of `assemble` in src/assembler.c while it reads the source.
use cortex_vm.Prelude.{
  ℕ, zero, suc, ◌+◌, ◌≤◌, ◌<◌, ◌≡◌, ◌==◌, refl, ap, bit_or, arith, Bool, true, false, if◌then◌else◌,
  Option, none, some, List, [], ◌∷◌, ◌++◌, length, codes, Result, fatal, Ensures, Ensures-bind,
  Ensures-any,
}
use cortex_vm.Prelude.Bits.{bit_or-below}
use cortex_vm.Isa.Codes.{header_len, version, op_label, op_data}
use cortex_vm.Machine.{Fpu}
use cortex_vm.Assembler.{skip_sep, cmp_chars, skip_chars}
use cortex_vm.Assembler.Immediate.{FloatText, peek, take_while, is_label_char}
use cortex_vm.Assembler.Labels.{Label}
use cortex_vm.Assembler.Data.{Data, get_data}
use cortex_vm.Assembler.Names.{Code}
use cortex_vm.Assembler.Names.Extensions.{get_name}
use cortex_vm.Assembler.Names.Extended.{AsksFor, get_name-AsksFor}
use cortex_vm.Assembler.Operands.{assemble_word}
use cortex_vm.Assembler.Program.{
  Output, note_patch, note_label, append_words, skip_comment, after_label, empty_output,
  data_section, get_section, get_instruction, get_opcode_funct, finish_statement, statement,
  assemble_loop,
}

-- The first word of a binary, and four more of the header.
abbrev pub HasHeader : List ℕ → Type 0
HasHeader ws =
    (a b c d : ℕ) × (code : List ℕ) × (ws
      ≡ (0x2e3a_434f_5254_0000 + version) ∷ a ∷ b ∷ c ∷ d ∷ code)

-- No label stands in the header.
abbrev pub Behind : List Label → Type 0
Behind [] = Unit
Behind (l ∷ ls) = (header_len ≤ l.at) × Behind ls

pub record Sound (out : Output) : Type 0 where
  pub header : HasHeader out.words
  pub labels : Behind out.labels
  pub extensions : out.extensions < 4

append-HasHeader : (ws more : List ℕ) → HasHeader ws → HasHeader (ws ++ more)
append-HasHeader ws more (a, b, c, d, code, e) = (a, b, c, d, code ++ more, ap (λ t. t ++ more) e)

length-HasHeader : (ws : List ℕ) → HasHeader ws → header_len ≤ length ws
length-HasHeader ws (a, b, c, d, code, e) = rw e (omega arith)

append-Behind :
    (ls : List Label) (l : Label) → Behind ls → header_len ≤ l.at → Behind (ls ++ (l ∷ []))
append-Behind [] l p h = (h, tt)
append-Behind (m ∷ ls) l (q, p) h = (q, append-Behind ls l p h)

append_words-Sound : (ws : List ℕ) (out : Output) → Sound out → Sound (append_words ws out)
append_words-Sound ws out s = record {
  header = append-HasHeader out.words ws s.header;
  labels = s.labels;
  extensions = s.extensions;
}

note_label-Sound : (head : List ℕ) (out : Output) → Sound out → Sound (note_label head out)
note_label-Sound head out s = record {
  header = s.header;
  labels =
      append-Behind out.labels
        (record { name = take_while is_label_char head; at = length out.words }) s.labels
        (length-HasHeader out.words s.header);
  extensions = s.extensions;
}

note_patch-Sound :
    (label : Option (List ℕ)) (at : ℕ) (out : Output) → Sound out → Sound (note_patch label at out)
note_patch-Sound none at out s = s
note_patch-Sound (some name) at out s = record {
  header = s.header;
  labels = s.labels;
  extensions = s.extensions;
}

or_extension-Sound :
    (ext : ℕ) (out : Output)
    → ext < 4
    → Sound out
    → Sound (record out { extensions = bit_or out.extensions ext })
or_extension-Sound ext out h s = record {
  header = s.header;
  labels = s.labels;
  extensions = bit_or-below 2 out.extensions ext s.extensions h;
}

-- What the parts of the loop return: a state behind whatever else.
abbrev SoundBehind : {A : Type 0} → A × Output → Type 0
SoundBehind (_, out) = Sound out

pub Ensures-if {ℓ} :
    {A : Type ℓ} (P : A → Type 0) (b : Bool) (x y : Result A)
    → Ensures P x
    → Ensures P y
    → Ensures P (if b then x else y)
Ensures-if P true x y px py = px
Ensures-if P false x y px py = py

pub Ensures-elim {ℓ κ} :
    {A : Type ℓ} {B : Type κ} (P : B → Type 0) (o : Option A) (n : Result B) (f : A → Result B)
    → Ensures P n
    → ((a : A) → Ensures P (f a))
    → Ensures P (elim o [ none ↦ n | some a ↦ f a ])
Ensures-elim P none n f pn pf = pn
Ensures-elim P (some a) n f pn pf = pf a

module _ (fpu : Fpu) (text : FloatText) where
  data_section-Sound :
      (fuel : ℕ) (head : List ℕ) (out : Output)
      → Sound out
      → Ensures Sound (data_section fpu text fuel head out)
  unfolding data_section
  data_section-Sound zero head out s = tt
  data_section-Sound (suc fuel) [] out s = s
  data_section-Sound (suc fuel) (c ∷ head) out s =
      let here = skip_sep (c ∷ head) in
      let append = λ (d : Data).
        append_words-Sound d.values (note_patch d.label 0 out) (note_patch-Sound d.label 0 out s) in
      Ensures-if Sound (c == 10) _ _ (data_section-Sound fuel head out s) (
        Ensures-if Sound (peek here == b';') _ _ (data_section-Sound fuel (skip_comment here) out s)
          (Ensures-elim Sound (after_label here) _ _
            (Ensures-any Sound (get_data fpu text here) _ λ d.
              data_section-Sound fuel d.rest (append_words d.values (note_patch d.label 0 out))
                (append d))
            λ rest.
              data_section-Sound fuel rest (note_label here out) (note_label-Sound here out s)))

  get_section-Sound :
      (fuel : ℕ) (head : List ℕ) (out : Output)
      → Sound out
      → Ensures SoundBehind (get_section fpu text fuel head out)
  unfolding get_section
  get_section-Sound fuel head out s =
      let started = record out { data_offset = length out.words } in
      Ensures-if SoundBehind (cmp_chars head (codes "data")) _ (fatal 0x030d)
        (Ensures-bind Sound SoundBehind
          (data_section fpu text fuel (skip_sep (skip_chars 4 head)) started) _
          (data_section-Sound fuel (skip_sep (skip_chars 4 head)) started
            (record { header = s.header; labels = s.labels; extensions = s.extensions }))
          λ out' s'. s')
        tt

  get_instruction-Sound :
      (head : List ℕ) (out : Output)
      → Sound out
      → Ensures SoundBehind (get_instruction fpu text head out)
  unfolding get_instruction AsksFor
  get_instruction-Sound head out s =
      Ensures-bind (λ (code, rest). code.ext < 4) SoundBehind (get_name head) _
        (get_name-AsksFor head) λ (code, rest) h. or_extension-Sound code.ext out h s

  get_opcode_funct-Sound :
      (fuel : ℕ) (head : List ℕ) (out : Output)
      → Sound out
      → Ensures SoundBehind (get_opcode_funct fpu text fuel head out)
  unfolding get_opcode_funct
  get_opcode_funct-Sound fuel [] out s = get_instruction-Sound [] out s
  get_opcode_funct-Sound fuel (c ∷ head) out s =
      Ensures-if SoundBehind (c == b'.') _ _ (get_section-Sound fuel head out s) (
        Ensures-if SoundBehind (c == b';') _ _ s (
          Ensures-elim SoundBehind (after_label (c ∷ head)) _ _
            (get_instruction-Sound (c ∷ head) out s) λ rest. note_label-Sound (c ∷ head) out s))

  finish_statement-Sound :
      (code : Code) (head : List ℕ) (out : Output)
      → Sound out
      → Ensures SoundBehind (finish_statement fpu text code head out)
  unfolding finish_statement
  finish_statement-Sound code head out s = Ensures-if SoundBehind (code.op == op_label) _ _ s (
      Ensures-if SoundBehind (code.op == op_data) _ _ (append_words-Sound (0 ∷ []) out s) (
        Ensures-any SoundBehind (assemble_word fpu text code head) _ λ w.
          append_words-Sound (w.word ∷ []) (note_patch w.label (length out.words) out)
            (note_patch-Sound w.label (length out.words) out s)))

  statement-Sound :
      (fuel : ℕ) (head : List ℕ) (out : Output)
      → Sound out
      → Ensures SoundBehind (statement fpu text fuel head out)
  unfolding statement
  statement-Sound fuel head out s =
      Ensures-bind SoundBehind SoundBehind (get_opcode_funct fpu text fuel head out) _
        (get_opcode_funct-Sound fuel head out s)
        λ ((code, rest), out') s'. finish_statement-Sound code (skip_sep rest) out' s'

  pub assemble_loop-Sound :
      (fuel : ℕ) (head : List ℕ) (out : Output)
      → Sound out
      → Ensures Sound (assemble_loop fpu text fuel head out)
  unfolding assemble_loop
  assemble_loop-Sound zero head out s = tt
  assemble_loop-Sound (suc fuel) [] out s = s
  assemble_loop-Sound (suc fuel) (c ∷ head) out s =
      let here = skip_sep (c ∷ head) in
      Ensures-if Sound (peek here == 10) _ _ (assemble_loop-Sound fuel (skip_chars 1 here) out s) (
        Ensures-bind SoundBehind Sound (statement fpu text fuel here out) _
          (statement-Sound fuel here out s)
          λ (rest, out') s'. assemble_loop-Sound fuel rest out' s')

pub empty_output-Sound : Sound empty_output
empty_output-Sound = record {
  header = (0, 0, 0, 0, [], refl);
  labels = tt;
  extensions = omega arith;
}
