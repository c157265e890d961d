-- ===== src/Links/Lines.antt =====
-- The `LineList` and the `LabelList` of src/list.c.
pub mod Joined
use cortex_vm.Prelude.{
  ℕ, zero, suc, ◌+◌, ◌-◌, ltb, leb, ◌==◌, if◌then◌else◌, Bool, true, false, Option, none, some,
  List, [], ◌∷◌, ◌++◌, length, Result, ok, fatal, undefined, diverged, ◌>>=◌,
}
use cortex_vm.Word.{u64}
use cortex_vm.Assembler.Labels.{Label, same_name}
use cortex_vm.Links.{
  Nodes, Ends, list_init, load_node, link_node, list_append, node_get, list_destroy,
}

-- `LineList`; a node has the copy of its line.
pub record Lines : Type 0 where
  pub ends : Ends
  pub total_bytes : ℕ

unfoldable pub line_list_init : (malloc : ℕ) → Result Lines
unfolding list_init
line_list_init malloc = list_init malloc 0x0420 >>= λ l. ok (record { ends = l; total_bytes = 0 })

-- `fresh` and `copy` are what `malloc` gave for the node and for the line.
unfoldable pub line_list_append :
    (fresh copy : ℕ) (line : List ℕ)
    → Option Lines
    → Nodes (List ℕ)
    → Result (Lines × Nodes (List ℕ))
unfolding link_node
line_list_append fresh copy line none h = fatal 0x0422
line_list_append fresh copy line (some l) h =
    if fresh == 0
    then fatal 0x0423
    else if copy == 0
    then fatal 0x0424
    else link_node fresh line l.ends h >>= λ (ends, h').
        ok (record { ends = ends; total_bytes = u64 (l.total_bytes + length line) }, h')

-- `memcpy(cursor, curr->line, len)` in front of what the other rounds put there.
abbrev pub put_line : (line : List ℕ) (space : ℕ) → Result (List ℕ) → Result (List ℕ)
put_line line space rest =
    if leb (length line) space then (rest >>= λ t. ok (line ++ t)) else undefined

-- The loop of `lineListJoin`, with `space` bytes left in the buffer.
unfoldable pub join_loop : (fuel curr space : ℕ) → Nodes (List ℕ) → Result (List ℕ)
unfolding load_node
join_loop zero curr space h = diverged
join_loop (suc fuel) curr space h = elim (curr == 0) [
  | true ↦ if ltb 0 space then ok [] else undefined
  | false ↦ load_node h curr >>= λ n.
      put_line n.val space (join_loop fuel n.next (space - length n.val) h)
]

-- `lineListJoin` on the nodes: the text, and its length for `outLen`. The fuel is for as many nodes
-- as the list counts and one round more.
unfoldable pub join_nodes : (malloc : ℕ) → Option Lines → Nodes (List ℕ) → Result (List ℕ × ℕ)
unfolding join_loop
join_nodes malloc none h = fatal 0x0425
join_nodes malloc (some l) h =
    if malloc == 0
    then fatal 0x0426
    else join_loop (suc l.ends.len) l.ends.head (u64 (l.total_bytes + 1)) h >>= λ out.
        ok (out, l.total_bytes)

-- `lineListDestroy` frees each line with its node.
unfoldable pub line_list_destroy : Option Ends → Nodes (List ℕ) → Result (Nodes (List ℕ))
unfolding list_destroy
line_list_destroy l h = list_destroy 0x0421 l h

unfoldable pub label_list_init : (malloc : ℕ) → Result Ends
unfolding list_init
label_list_init malloc = list_init malloc 0x0410

unfoldable pub label_list_destroy : Option Ends → Nodes Label → Result (Nodes Label)
unfolding list_destroy
label_list_destroy l h = list_destroy 0x0411 l h

unfoldable pub label_list_append :
    (fresh : ℕ) → Label → Option Ends → Nodes Label → Result (Ends × Nodes Label)
unfolding list_append
label_list_append fresh label l h = list_append 0x0412 0x0413 fresh label l h

unfoldable pub label_list_get : Option Ends → (index : ℕ) → Nodes Label → Result Label
unfolding node_get
label_list_get l index h = node_get 0x0415 0x0416 l index h

-- Lines that are appended one after the other, with what `malloc` gave for their nodes and copies.
unfoldable pub append_lines :
    (lines : List (ℕ × ℕ × List ℕ)) → Lines → Nodes (List ℕ) → Result (Lines × Nodes (List ℕ))
unfolding line_list_append
append_lines [] l h = ok (l, h)
append_lines ((fresh, copy, line) ∷ lines) l h =
    line_list_append fresh copy line (some l) h >>= λ (l', h'). append_lines lines l' h'

-- `return curr;`, or the rest of the list.
abbrev pub found_or : Bool → Label → Result (Option Label) → Result (Option Label)
found_or true label rest = ok (some label)
found_or false label rest = rest

-- The loop of `labelListFind`.
unfoldable pub find_loop : (fuel curr : ℕ) (name : List ℕ) → Nodes Label → Result (Option Label)
unfolding load_node
find_loop zero curr name h = diverged
find_loop (suc fuel) curr name h = elim (curr == 0) [
  | true ↦ ok none
  | false ↦ load_node h curr >>= λ n.
      found_or (same_name n.val.name name) n.val (find_loop fuel n.next name h)
]

-- `labelListFind` on the nodes.
unfoldable pub find_node : Option Ends → (name : List ℕ) → Nodes Label → Result (Option Label)
unfolding find_loop
find_node none name h = fatal 0x0414
find_node (some l) name h = find_loop (suc l.len) l.head name h
