-- ===== src/Links/Values.antt =====
-- What is read from a list of src/list.c, and what is left of it when it is destroyed.
use cortex_vm.Prelude.{
  ℕ, zero, suc, ◌<◌, ◌≡◌, ◌≢◌, inl, inr, refl, sym, ap, ltb, false, Bool-cases, none, some, List,
  [], ◌∷◌, length, get_elem?, Result, ok, fatal, ◌>>=◌, arith, ne→==,
}
use cortex_vm.Machine.{put}
use cortex_vm.Links.{
  Nodes, Ends, load_node, walk, node_get, array_loop, list_to_array, destroy_loop, list_destroy,
}
use cortex_vm.Links.Chain.{Chain, done, step_to, IsList, frame_nodes}

module _ {A : Type 0} where
  abbrev pub values : List (ℕ × A) → List A
  values [] = []
  values ((p, v) ∷ xs) = v ∷ values xs

  values_length : (xs : List (ℕ × A)) → length (values xs) ≡ length xs
  values_length [] = refl
  values_length ((p, v) ∷ xs) = ap suc (values_length xs)

  -- An index of a list, with what stands there or with what is said of it.
  abbrev pub at_index : (outside : ℕ) → List A → ℕ → Result A
  at_index outside vs i = elim (get_elem? vs i) [ none ↦ fatal outside | some v ↦ ok v ]

  -- The store with these nodes freed.
  abbrev pub freed : List (ℕ × A) → Nodes A → Nodes A
  freed [] h = h
  freed ((p, v) ∷ xs) h = freed xs (put h p none)

  walk-at_index :
      {h : Nodes A} {stop p : ℕ} {xs : List (ℕ × A)} (outside i : ℕ)
      → Chain h stop p xs
      → i < length xs
      → (walk i p h >>= λ (q, n). ok n.val) ≡ at_index outside (values xs) i
  unfolding walk load_node
  walk-at_index outside i done small = absurd (omega arith)
  walk-at_index outside zero (step_to e some_node out rest) small = rw (load_node, e) refl
  walk-at_index outside (suc i) (step_to e some_node out rest) small =
      rw (load_node, e) (walk-at_index outside i rest (omega arith))

  at_index-outside :
      (outside : ℕ) (vs : List A) (i : ℕ)
      → ltb i (length vs) ≡ false
      → at_index outside vs i ≡ fatal outside
  at_index-outside outside [] i h = refl
  at_index-outside outside (v ∷ vs) zero h = absurd (ground arith)
  at_index-outside outside (v ∷ vs) (suc i) h = at_index-outside outside vs i (ground arith)

  array_loop-values :
      {h : Nodes A} {stop p : ℕ} {xs : List (ℕ × A)}
      → Chain h stop p xs
      → array_loop (length xs) p h ≡ ok (values xs)
  unfolding array_loop load_node
  array_loop-values done = refl
  array_loop-values (step_to e some_node out rest) = rw (load_node, e, array_loop-values rest) refl

  destroy_loop-freed :
      (xs : List (ℕ × A)) (h : Nodes A) (p : ℕ)
      → Chain h 0 p xs
      → destroy_loop (suc (length xs)) p h ≡ ok (freed xs h)
  unfolding destroy_loop load_node
  destroy_loop-freed [] h p done = refl
  destroy_loop-freed ((_, v) ∷ xs) h p (step_to {q = q} e some_node out rest) =
      rw (ne→== p 0 some_node, load_node, e)
        (destroy_loop-freed xs (put h p none) q (frame_nodes p none rest out))

  node_get-at_index :
      (no_list outside : ℕ) (h : Nodes A) (l : Ends) (xs : List (ℕ × A)) (i : ℕ)
      → IsList h l xs
      → node_get no_list outside (some l) i h ≡ at_index outside (values xs) i
  unfolding node_get
  node_get-at_index no_list outside h l xs i is = elim (Bool-cases (ltb i l.len)) [
    | inl inside ↦ rw inside (walk-at_index outside i is.chain (ground (arith, is.count)))
    | inr behind ↦
        let past : ltb i (length (values xs)) ≡ false = rw (values_length xs, ← is.count) behind in
        rw behind (sym (at_index-outside outside (values xs) i past))
  ]

  -- On a structure that stands for a list, reading at an index gives the value there, or ends the
  -- process with the message for an index outside; with memory, `listToArray` gives the values in
  -- order; and destroying the list frees its nodes, with fuel for as many rounds as it counts and
  -- one more.
  pub list_values :
      (no_list outside malloc no_list' : ℕ) (h : Nodes A) (l : Ends) (xs : List (ℕ × A)) (i : ℕ)
      → IsList h l xs
      → malloc ≢ 0
      → (node_get no_list outside (some l) i h ≡ at_index outside (values xs) i)
        × (list_to_array malloc (some l) h ≡ ok (values xs))
        × (list_destroy no_list' (some l) h ≡ ok (freed xs h))
  unfolding list_to_array list_destroy
  list_values no_list outside malloc no_list' h l xs i is given = (
    node_get-at_index no_list outside h l xs i is,
    rw (ne→== malloc 0 given, is.count) (array_loop-values is.chain),
    rw is.count (destroy_loop-freed xs h l.head is.chain),
  )
