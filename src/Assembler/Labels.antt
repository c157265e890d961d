-- ===== src/Assembler/Labels.antt =====
-- The lists of labels of src/assembler.c, in the order in which they were appended, and
-- `labelListFind` of src/list.c. A name is the characters from `start` to `end`.
use cortex_vm.Prelude.{
  ℕ, ◌==◌, ◌&&◌, if◌then◌else◌, Bool, true, false, Option, none, some, List, [], ◌∷◌,
}

-- `LabelNode`
pub record Label : Type 0 where
  pub name : List ℕ
  pub at : ℕ

-- Equal lengths, and `memcmp`.
unfoldable pub same_name : List ℕ → List ℕ → Bool
same_name [] [] = true
same_name [] (d ∷ ds) = false
same_name (c ∷ cs) [] = false
same_name (c ∷ cs) (d ∷ ds) = c == d && same_name cs ds

unfoldable pub label_list_find : List Label → List ℕ → Option Label
unfolding same_name
label_list_find [] name = none
label_list_find (l ∷ ls) name =
    let later = label_list_find ls name in if same_name l.name name then some l else later
