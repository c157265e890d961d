-- ===== src/Links/Chain.antt =====
-- The nodes of a list of src/list.c, from its head to its tail.
use cortex_vm.Prelude.{
  ℕ, suc, ◌≡◌, ◌≢◌, ◌⊎◌, inl, inr, refl, sym, ap, ◌∙◌, if◌then◌else◌, Bool, true, false, Option,
  some, List, [], ◌∷◌, ◌++◌, length, length-append, Result, ok, arith, ne→==, eq→==,
}
use mathlib.Core.Path.{subst}
use cortex_vm.Machine.{put}
use cortex_vm.Links.{Node, Nodes, Ends, load_node, link_node, list_append}

pub if_true : {B : Type 0} {b : Bool} (x y : B) → b ≡ true → (if b then x else y) ≡ x
if_true x y h = rw h refl

if_false : {B : Type 0} {b : Bool} (x y : B) → b ≡ false → (if b then x else y) ≡ y
if_false x y h = rw h refl

module _ {A : Type 0} where
  -- None of the nodes is at that address.
  abbrev pub Away : ℕ → List (ℕ × A) → Type 0
  Away a [] = Unit
  Away a ((p, v) ∷ xs) = (a ≢ p) × Away a xs

  abbrev pub node : A → ℕ → Option (Node A)
  node v q = some (record { val = v; next = q })

  -- From `p` the links lead through distinct nodes to `stop`.
  pub data Chain (h : Nodes A) (stop : ℕ) : ℕ → List (ℕ × A) → Type 0 where
    done : Chain h stop stop []
    step_to :
        {p q : ℕ} {v : A} {xs : List (ℕ × A)}
        → h p ≡ node v q
        → p ≢ 0
        → Away p xs
        → Chain h stop q xs
        → Chain h stop p ((p, v) ∷ xs)

  put_same : (h : Nodes A) (a : ℕ) (c : Option (Node A)) → put h a c a ≡ c
  put_same h a c = rw (eq→== a a refl) refl

  put_other : (h : Nodes A) (a b : ℕ) (c : Option (Node A)) → b ≢ a → put h a c b ≡ h b
  put_other h a b c ne = rw (ne→== b a ne) refl

  -- A write elsewhere leaves the nodes.
  pub frame_nodes :
      {h : Nodes A} {stop p : ℕ} {xs : List (ℕ × A)} (a : ℕ) (c : Option (Node A))
      → Chain h stop p xs
      → Away a xs
      → Chain (put h a c) stop p xs
  frame_nodes a c done away = done
  frame_nodes {h = h} a c (step_to {p = p} e some_node out rest) (ne, away) =
      step_to (put_other h a p c (λ same. ne (sym same)) ∙ e) some_node out
        (frame_nodes a c rest away)

  Away-snoc :
      (a t : ℕ) (w : A) (xs : List (ℕ × A)) → Away a xs → a ≢ t → Away a (xs ++ ((t, w) ∷ []))
  Away-snoc a t w [] away ne = (ne, tt)
  Away-snoc a t w ((p, v) ∷ xs) (first, away) ne = (first, Away-snoc a t w xs away ne)

  Away-last : (a t : ℕ) (w : A) (xs : List (ℕ × A)) → Away a (xs ++ ((t, w) ∷ [])) → a ≢ t
  Away-last a t w [] (ne, none_left) = ne
  Away-last a t w ((p, v) ∷ xs) (first, away) = Away-last a t w xs away

  empty_nodes : {h : Nodes A} {stop p : ℕ} → Chain h stop p [] → p ≡ stop
  empty_nodes done = refl

  -- What the last node of a list is.
  last_node :
      {h : Nodes A} {stop p : ℕ} (xs : List (ℕ × A)) (t : ℕ) (w : A)
      → Chain h stop p (xs ++ ((t, w) ∷ []))
      → (h t ≡ node w stop) × (t ≢ 0)
  last_node [] t w (step_to e some_node out rest) = (e ∙ ap (node w) (empty_nodes rest), some_node)
  last_node ((p, v) ∷ xs) t w (step_to e some_node out rest) = last_node xs t w rest

  -- The last node is given another link.
  relink_nodes :
      {h : Nodes A} {stop p : ℕ} (xs : List (ℕ × A)) (t : ℕ) (w : A) (q : ℕ)
      → Chain h stop p (xs ++ ((t, w) ∷ []))
      → Chain (put h t (node w q)) q p (xs ++ ((t, w) ∷ []))
  relink_nodes {h = h} [] t w q (step_to e some_node out rest) =
      step_to (put_same h t (node w q)) some_node tt done
  relink_nodes {h = h} ((p, v) ∷ xs) t w q (step_to e some_node out rest) =
      step_to (put_other h t p (node w q) (Away-last p t w xs out) ∙ e) some_node out
        (relink_nodes xs t w q rest)

  -- A node behind the last one.
  snoc_nodes :
      {h : Nodes A} {stop p : ℕ} (xs : List (ℕ × A)) (q : ℕ) (v : A)
      → Chain h q p xs
      → h q ≡ node v stop
      → q ≢ 0
      → Away q xs
      → Chain h stop p (xs ++ ((q, v) ∷ []))
  snoc_nodes [] q v done e some_node away = step_to e some_node tt done
  snoc_nodes ((p, u) ∷ xs) q v (step_to f other out rest) e some_node (ne, away) =
      step_to f other (Away-snoc p q v xs out (λ same. ne (sym same)))
        (snoc_nodes xs q v rest e some_node away)

  -- The tail of a list: none, or its last node.
  abbrev pub IsTail : ℕ → List (ℕ × A) → Type 0
  IsTail tail xs =
      ((xs ≡ []) × (tail ≡ 0)) ⊎ ((ys : List (ℕ × A)) × (w : A) × (xs ≡ ys ++ ((tail, w) ∷ [])))

  -- The structure stands for this list.
  pub record IsList (h : Nodes A) (l : Ends) (xs : List (ℕ × A)) : Type 0 where
    pub chain : Chain h 0 l.head xs
    pub last : IsTail l.tail xs
    pub count : l.len ≡ length xs

  -- What appending a node leads to.
  abbrev pub Appended : List (ℕ × A) → (fresh : ℕ) (v : A) → Result (Ends × Nodes A) → Type 0
  Appended xs fresh v r =
      (l : Ends) × (h : Nodes A) × (r ≡ ok (l, h)) × IsList h l (xs ++ ((fresh, v) ∷ []))

  link_empty :
      (h : Nodes A) (l : Ends) (fresh : ℕ) (v : A)
      → IsList h l []
      → fresh ≢ 0
      → l.tail ≡ 0
      → Appended [] fresh v (link_node fresh v l h)
  unfolding link_node
  link_empty h l fresh v is some_node no_tail = (
    record { head = fresh; tail = fresh; len = suc l.len },
    put h fresh (node v 0),
    if_true _ _ (eq→== l.tail 0 no_tail),
    record {
      chain = step_to (put_same h fresh (node v 0)) some_node tt done;
      last = inr ([], v, refl);
      count = ap suc is.count;
    },
  )

  link_last :
      (h : Nodes A) (l : Ends) (ys : List (ℕ × A)) (w : A) (fresh : ℕ) (v : A)
      → IsList h l (ys ++ ((l.tail, w) ∷ []))
      → fresh ≢ 0
      → Away fresh (ys ++ ((l.tail, w) ∷ []))
      → Appended (ys ++ ((l.tail, w) ∷ [])) fresh v (link_node fresh v l h)
  unfolding link_node load_node
  link_last h l ys w fresh v is some_node away =
      let tail = l.tail in
      let h1 : Nodes A = put h fresh (node v 0) in
      let apart : fresh ≢ tail = Away-last fresh tail w ys away in
      let (at_tail, some_tail) = last_node ys tail w is.chain in
      let kept : h1 tail ≡ node w 0 =
        put_other h fresh tail (node v 0) (λ same. apart (sym same)) ∙ at_tail in
      let framed = frame_nodes fresh (node v 0) is.chain away in
      let relinked = relink_nodes ys tail w fresh framed in
      let new_node : put h1 tail (node w fresh) fresh ≡ node v 0 =
        put_other h1 tail fresh (node w fresh) apart ∙ put_same h fresh (node v 0) in
      (
        record { head = l.head; tail = fresh; len = suc l.len },
        put h1 tail (node w fresh),
        if_false _ _ (ne→== tail 0 some_tail) ∙ rw (load_node, kept) refl,
        record {
          chain = snoc_nodes (ys ++ ((tail, w) ∷ [])) fresh v relinked new_node some_node away;
          last = inr (ys ++ ((tail, w) ∷ []), v, refl);
          count =
              rw (length-append (ys ++ ((tail, w) ∷ [])) ((fresh, v) ∷ []))
                (omega (arith, is.count));
        },
      )

  pub link_node-Appended :
      (h : Nodes A) (l : Ends) (xs : List (ℕ × A)) (fresh : ℕ) (v : A)
      → IsList h l xs
      → fresh ≢ 0
      → Away fresh xs
      → Appended xs fresh v (link_node fresh v l h)
  link_node-Appended h l xs fresh v is some_node away = elim (is.last) [
    | inl (empty, no_tail) ↦
        subst (λ zs. Appended zs fresh v (link_node fresh v l h)) (sym empty)
          (link_empty h l fresh v (subst (IsList h l) empty is) some_node no_tail)
    | inr (ys, w, shape) ↦
        subst (λ zs. Appended zs fresh v (link_node fresh v l h)) (sym shape)
          (link_last h l ys w fresh v (subst (IsList h l) shape is) some_node
            (subst (Away fresh) shape away))
  ]

  -- Let a list structure stand for a list of nodes: from its head the links lead through distinct
  -- nodes at addresses other than NULL to NULL, its tail is the last of them or NULL, and its
  -- length is right. Then appending a value in a node that `malloc` gives, and that is none of
  -- these, returns, and the result stands for the list with the new node at its end.
  pub list_append-IsList :
      (no_list no_memory : ℕ) (h : Nodes A) (l : Ends) (xs : List (ℕ × A)) (fresh : ℕ) (v : A)
      → IsList h l xs
      → fresh ≢ 0
      → Away fresh xs
      → (l' : Ends) × (h' : Nodes A) × (list_append no_list no_memory fresh v (some l) h
          ≡ ok (l', h'))
        × IsList h' l' (xs ++ ((fresh, v) ∷ []))
  unfolding list_append
  list_append-IsList no_list no_memory h l xs fresh v is some_node away =
      rw (ne→== fresh 0 some_node) (link_node-Appended h l xs fresh v is some_node away)
