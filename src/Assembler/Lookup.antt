-- ===== src/Assembler/Lookup.antt =====
-- `labelListFind` of src/list.c, and labels that are missing in `assemble` of src/assembler.c.
use cortex_vm.Prelude.{
  ℕ, ◌≡◌, ◌≢◌, inl, inr, refl, ap, ◌∙◌, arith, Bool, Bool-cases, true, false, if◌then◌else◌, Option,
  none, some, List, [], ◌∷◌, ◌++◌, ok, fatal, ◌>>=◌, bind_inversion,
}
use cortex_vm.Assembler.Labels.{Label, same_name, label_list_find}
use cortex_vm.Assembler.Program.{Output}
use cortex_vm.Assembler.Assemble.{patch_at, patch_all, finish}

same_name-equal : (a b : List ℕ) → same_name a b ≡ true → a ≡ b
unfolding same_name
same_name-equal [] [] h = refl
same_name-equal [] (d ∷ ds) h = absurd (cc)
same_name-equal (c ∷ cs) [] h = absurd (cc)
same_name-equal (c ∷ cs) (d ∷ ds) h = grind (arith, same_name-equal cs ds)

same_name-same : (a : List ℕ) → same_name a a ≡ true
unfolding same_name
same_name-same [] = refl
same_name-same (c ∷ cs) = ground (arith, same_name-same cs)

same_name-differ : (a b : List ℕ) → same_name a b ≡ false → a ≢ b
same_name-differ a b h e = absurd (ground (arith, same_name-same a, ap (same_name a) e))

-- No label has the name.
abbrev pub Absent : List Label → List ℕ → Type 0
Absent [] name = Unit
Absent (l ∷ ls) name = (l.name ≢ name) × Absent ls name

-- The first label of the name, if there is one.
abbrev pub IsFirst : List Label → List ℕ → Option Label → Type 0
IsFirst ls name none = Absent ls name
IsFirst ls name (some l) =
    (before after : List Label) × (ls ≡ before ++ (l ∷ after))
    × (l.name ≡ name)
    × Absent before name

IsFirst-later :
    (l : Label) (ls : List Label) (name : List ℕ) (found : Option Label)
    → l.name ≢ name
    → IsFirst ls name found
    → IsFirst (l ∷ ls) name found
IsFirst-later l ls name none other first = (other, first)
IsFirst-later l ls name (some m) other (before, after, e, same, absent) =
    (l ∷ before, after, ap (λ t. l ∷ t) e, same, (other, absent))

IsFirst-step :
    (b : Bool) (l : Label) (ls : List Label) (name : List ℕ) (found : Option Label)
    → same_name l.name name ≡ b
    → IsFirst ls name found
    → IsFirst (l ∷ ls) name (if b then some l else found)
IsFirst-step true l ls name found h first = ([], ls, refl, same_name-equal l.name name h, tt)
IsFirst-step false l ls name found h first =
    IsFirst-later l ls name found (same_name-differ l.name name h) first

-- `labelListFind` finds the first label in the list that has the name, and finds nothing only if no
-- label has it.
pub label_list_find-IsFirst :
    (labels : List Label) (name : List ℕ) → IsFirst labels name (label_list_find labels name)
unfolding label_list_find
label_list_find-IsFirst [] name = tt
label_list_find-IsFirst (l ∷ ls) name =
    IsFirst-step (same_name l.name name) l ls name (label_list_find ls name) refl
      (label_list_find-IsFirst ls name)

label_list_find-Absent :
    (labels : List Label) (name : List ℕ) → Absent labels name → label_list_find labels name ≡ none
unfolding label_list_find
label_list_find-Absent [] name absent = refl
label_list_find-Absent (l ∷ ls) name (other, absent) = elim (Bool-cases (same_name l.name name)) [
  | inl same ↦ absurd (other (same_name-equal l.name name same))
  | inr differ ↦ rw differ (label_list_find-Absent ls name absent)
]

patch_all-missing :
    (labels before after : List Label) (p : Label) (words patched : List ℕ)
    → patch_all labels before words ≡ ok patched
    → Absent labels p.name
    → patch_all labels (before ++ (p ∷ after)) words ≡ fatal 0x030c
unfolding patch_all patch_at
patch_all-missing labels [] after p words patched done absent =
    rw (label_list_find-Absent labels p.name absent) refl
patch_all-missing labels (q ∷ before) after p words patched done absent =
    let first = patch_at q.at (label_list_find labels q.name) words in
    let (mid, stepped, rest_done) = bind_inversion first (patch_all labels before) done in
    ap (λ r. r >>= patch_all labels (before ++ (p ∷ after))) stepped
    ∙ patch_all-missing labels before after p mid patched rest_done absent

-- If the patches before it are made and no label has the name that a patch waits for, `assemble`
-- ends the process with FATAL 0x030C.
pub finish-missing :
    (out : Output) (before after : List Label) (p : Label) (patched : List ℕ)
    → out.patches ≡ before ++ (p ∷ after)
    → patch_all out.labels before out.words ≡ ok patched
    → Absent out.labels p.name
    → finish out ≡ fatal 0x030c
unfolding finish
finish-missing out before after p patched split done absent =
    rw (split, patch_all-missing out.labels before after p out.words patched done absent) refl
