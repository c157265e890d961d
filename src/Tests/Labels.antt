-- ===== src/Tests/Labels.antt =====
-- Labels that are found, missing and patched.
use cortex_vm.Prelude.{◌≡◌, inr, refl, arith, List, [], ◌∷◌, codes, ok, fatal}
use cortex_vm.Isa.Codes.{op_fb}
use cortex_vm.Isa.Encode.{encode_s}
use cortex_vm.Assembler.Labels.{Label, label_list_find}
use cortex_vm.Assembler.Program.{Output, empty_output}
use cortex_vm.Assembler.Assemble.{patch_word, patch_all, finish}
use cortex_vm.Assembler.Lookup.{IsFirst, label_list_find-IsFirst, finish-missing}
use cortex_vm.Assembler.Patches.{lands, patch_word-lands}

abbrev start : Label
start = record { name = codes "start"; at = 5 }

abbrev two_labels : List Label
two_labels = start ∷ record { name = codes "end"; at = 9 } ∷ start ∷ []

label_list_find-IsFirst_example :
    IsFirst two_labels (codes "end") (label_list_find two_labels (codes "end"))
label_list_find-IsFirst_example = label_list_find-IsFirst two_labels (codes "end")

-- A branch to a label that no line has.
abbrev waiting : Output
waiting = record empty_output { patches = start ∷ [] }

finish-missing_example : finish waiting ≡ fatal 0x030c
unfolding patch_all
finish-missing_example = finish-missing waiting [] [] start waiting.words refl refl tt

patch_word-lands_example : lands 20 (patch_word (encode_s op_fb 1 5 6 0) 20 9) ≡ ok 9
patch_word-lands_example = patch_word-lands op_fb 1 5 6 20 9 (inr refl) (omega arith) (omega arith)
