-- ===== src/Links.antt =====
-- The linked lists of src/list.c: nodes at addresses. The three kinds of list differ in what a node
-- has besides its link, and in the numbers of their messages.
pub mod Chain
pub mod Lines
pub mod Values
use cortex_vm.Prelude.{
  ℕ, zero, suc, ◌+◌, ltb, ◌==◌, if◌then◌else◌, Option, none, some, List, [], ◌∷◌, Result, ok, fatal,
  undefined, diverged, ◌>>=◌,
}
use cortex_vm.Machine.{put}

-- `next` is 0 for NULL.
pub record Node (A : Type 0) : Type 0 where
  pub val : A
  pub next : ℕ

-- What stands at an address: a node that was allocated, or none.
abbrev pub Nodes : Type 0 → Type 0
Nodes A = ℕ → Option (Node A)

-- `List`, `LabelList` and `LineList`, without the sum of the lengths of the last.
pub record Ends : Type 0 where
  pub head : ℕ
  pub tail : ℕ
  pub len : ℕ

-- `listInit` and its kin: `malloc` gave memory for the list or not.
unfoldable pub list_init : (malloc : ℕ) (code : ℕ) → Result Ends
list_init malloc code =
    if malloc == 0 then fatal code else ok (record { head = 0; tail = 0; len = 0 })

module _ {A : Type 0} where
  -- `*p`
  unfoldable pub load_node : Nodes A → ℕ → Result (Node A)
  load_node h p = elim (h p) [ none ↦ undefined | some n ↦ ok n ]

  -- The node at `fresh` is put behind the last one.
  unfoldable pub link_node : (fresh : ℕ) (v : A) → Ends → Nodes A → Result (Ends × Nodes A)
  unfolding load_node
  link_node fresh v l h =
      let h' = put h fresh (some (record { val = v; next = 0 })) in
      if l.tail == 0
      then ok (record { head = fresh; tail = fresh; len = suc l.len }, h')
      else (load_node h' l.tail >>= λ last. ok (
        record { head = l.head; tail = fresh; len = suc l.len },
        put h' l.tail (some (record { val = last.val; next = fresh })),
      ))

  -- `listAppend` and `labelListAppend`, where `fresh` is what `malloc` gave.
  unfoldable pub list_append :
      (no_list no_memory : ℕ) (fresh : ℕ) (v : A) → Option Ends → Nodes A → Result (Ends × Nodes A)
  unfolding link_node
  list_append no_list no_memory fresh v none h = fatal no_list
  list_append no_list no_memory fresh v (some l) h =
      if fresh == 0 then fatal no_memory else link_node fresh v l h

  -- `curr = curr->next`, so many times, and the node there.
  unfoldable pub walk : (index p : ℕ) → Nodes A → Result (ℕ × Node A)
  unfolding load_node
  walk zero p h = load_node h p >>= λ n. ok (p, n)
  walk (suc index) p h = load_node h p >>= λ n. walk index n.next h

  -- `listGet` and `labelListGet`
  unfoldable pub node_get : (no_list outside : ℕ) → Option Ends → (index : ℕ) → Nodes A → Result A
  unfolding walk
  node_get no_list outside none index h = fatal no_list
  node_get no_list outside (some l) index h =
      if ltb index l.len then (walk index l.head h >>= λ (p, n). ok n.val) else fatal outside

  -- `listSet`
  unfoldable pub node_set :
      (no_list outside : ℕ) → Option Ends → (index : ℕ) (v : A) → Nodes A → Result (Nodes A)
  unfolding walk
  node_set no_list outside none index v h = fatal no_list
  node_set no_list outside (some l) index v h =
      if ltb index l.len
      then (walk index l.head h >>= λ (p, n).
          ok (put h p (some (record { val = v; next = n.next }))))
      else fatal outside

  -- The loop of `listToArray`.
  unfoldable pub array_loop : (left p : ℕ) → Nodes A → Result (List A)
  unfolding load_node
  array_loop zero p h = ok []
  array_loop (suc left) p h =
      load_node h p >>= λ n. array_loop left n.next h >>= λ values. ok (n.val ∷ values)

  unfoldable pub list_to_array : (malloc : ℕ) → Option Ends → Nodes A → Result (List A)
  unfolding array_loop
  list_to_array malloc none h = fatal 0x0406
  list_to_array malloc (some l) h = if malloc == 0 then fatal 0x0407 else array_loop l.len l.head h

  -- The loop of `listDestroy`, which frees each node.
  unfoldable pub destroy_loop : (fuel curr : ℕ) → Nodes A → Result (Nodes A)
  unfolding load_node
  destroy_loop zero curr h = diverged
  destroy_loop (suc fuel) curr h =
      if curr == 0
      then ok h
      else (load_node h curr >>= λ n. destroy_loop fuel n.next (put h curr none))

  -- `listDestroy` and its kin, with fuel for as many nodes as the list counts and one round more.
  unfoldable pub list_destroy : (no_list : ℕ) → Option Ends → Nodes A → Result (Nodes A)
  unfolding destroy_loop
  list_destroy no_list none h = fatal no_list
  list_destroy no_list (some l) h = destroy_loop (suc l.len) l.head h
