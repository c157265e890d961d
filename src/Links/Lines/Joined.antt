-- ===== src/Links/Lines/Joined.antt =====
-- The line and label lists of src/list.c against the plain lists of lines and labels.
use cortex_vm.Prelude.{
  ℕ, suc, ◌+◌, ◌-◌, leb, ◌^◌, ◌≤◌, ◌<◌, ◌≡◌, ◌≢◌, refl, sym, ap, ◌∙◌, if◌then◌else◌, Bool, true,
  false, Option, inl, some, List, [], ◌∷◌, ◌++◌, length, length-append, append_assoc, append-nil,
  Result, ok, ◌>>=◌, arith, ne→==, lt→ltb,
}
use cortex_vm.Word.{u64}
use cortex_vm.Disassembler.Program.{line_list_join}
use cortex_vm.Assembler.Labels.{Label, same_name, label_list_find}
use cortex_vm.Links.{Nodes, Ends, load_node}
use cortex_vm.Links.Chain.{Chain, done, step_to, IsList, Away, link_node-Appended}
use cortex_vm.Links.Values.{values}
use cortex_vm.Links.Lines.{
  Lines, line_list_init, line_list_append, append_lines, put_line, found_or, join_loop, join_nodes,
  find_loop, find_node,
}

join-append :
    (lines more : List (List ℕ))
    → line_list_join (lines ++ more) ≡ line_list_join lines ++ line_list_join more
join-append [] more = refl
join-append (line ∷ lines) more =
    ap (λ t. line ++ t) (join-append lines more)
    ∙ sym (append_assoc line (line_list_join lines) (line_list_join more))

values-append : {A : Type 0} (xs ys : List (ℕ × A)) → values (xs ++ ys) ≡ values xs ++ values ys
values-append [] ys = refl
values-append ((p, v) ∷ xs) ys = ap (λ t. v ∷ t) (values-append xs ys)

-- The text of the lines in these nodes.
abbrev pub text_of : List (ℕ × List ℕ) → List ℕ
text_of xs = line_list_join (values xs)

-- The structure stands for lines, whose lengths it has added up.
pub record IsLines (h : Nodes (List ℕ)) (l : Lines) (xs : List (ℕ × List ℕ)) : Type 0 where
  pub is_list : IsList h l.ends xs
  pub sum : l.total_bytes ≡ length (text_of xs)

put_line-inside :
    (line : List ℕ) (space : ℕ) (r : Result (List ℕ)) (t : List ℕ)
    → length line ≤ space
    → r ≡ ok t
    → put_line line space r ≡ ok (line ++ t)
put_line-inside line space r t small e =
    let fits : leb (length line) space ≡ true = ground arith in rw (fits, e) refl

join_loop-text_of :
    {h : Nodes (List ℕ)} {p : ℕ} {xs : List (ℕ × List ℕ)} (space : ℕ)
    → Chain h 0 p xs
    → length (text_of xs) < space
    → join_loop (suc (length xs)) p space h ≡ ok (text_of xs)
unfolding join_loop load_node
join_loop-text_of space done small = rw (lt→ltb 0 space small) refl
join_loop-text_of {xs = (p, line) ∷ xs} space (step_to e some_node out rest) small =
    rw (join_loop, ne→== p 0 some_node, load_node, e)
      (put_line-inside line space _ (text_of xs) (omega (arith, length-append line (text_of xs))) (
        join_loop-text_of (space - length line) rest
          (omega (arith, length-append line (text_of xs)))))

join_nodes-text_of :
    (malloc : ℕ) (h : Nodes (List ℕ)) (l : Lines) (xs : List (ℕ × List ℕ))
    → IsLines h l xs
    → malloc ≢ 0
    → length (text_of xs) + 1 < 2 ^ 64
    → join_nodes malloc (some l) h ≡ ok (text_of xs, length (text_of xs))
unfolding join_nodes
join_nodes-text_of malloc h l xs is given small =
    let whole : u64 (l.total_bytes + 1) ≡ length (text_of xs) + 1 = omega (arith, is.sum) in
    rw
      (
        ne→== malloc 0 given,
        whole,
        is.is_list.count,
        join_loop-text_of (length (text_of xs) + 1) is.is_list.chain (omega arith),
        is.sum,
      )
      refl

text_of-snoc :
    (xs : List (ℕ × List ℕ)) (fresh : ℕ) (line : List ℕ)
    → text_of (xs ++ ((fresh, line) ∷ [])) ≡ text_of xs ++ line
text_of-snoc xs fresh line =
    ap line_list_join (values-append xs ((fresh, line) ∷ []))
    ∙ join-append (values xs) (line ∷ [])
    ∙ ap (λ t. text_of xs ++ t) (append-nil line)

-- A structure that stands for lines takes one more.
line_list_append-IsLines :
    (h : Nodes (List ℕ)) (l : Lines) (xs : List (ℕ × List ℕ)) (fresh copy : ℕ) (line : List ℕ)
    → IsLines h l xs
    → fresh ≢ 0
    → copy ≢ 0
    → Away fresh xs
    → length (text_of xs) + length line < 2 ^ 64
    → (l' : Lines) × (h' : Nodes (List ℕ)) × (line_list_append fresh copy line (some l) h
        ≡ ok (l', h'))
      × IsLines h' l' (xs ++ ((fresh, line) ∷ []))
unfolding line_list_append
line_list_append-IsLines h l xs fresh copy line is some_node some_copy away small =
    let (ends, h', e, linked) =
      link_node-Appended h l.ends xs fresh line is.is_list some_node away in
    (
      record { ends = ends; total_bytes = u64 (l.total_bytes + length line) },
      h',
      rw (ne→== fresh 0 some_node, ne→== copy 0 some_copy, e) refl,
      record {
        is_list = linked;
        sum = omega (
          arith,
          is.sum,
          ap length (text_of-snoc xs fresh line),
          length-append (text_of xs) line,
        );
      },
    )

-- What `malloc` gives for the lines: not NULL, and no node that there is.
abbrev pub AreFresh : List (ℕ × ℕ × List ℕ) → List (ℕ × List ℕ) → Type 0
AreFresh [] xs = Unit
AreFresh ((fresh, copy, line) ∷ lines) xs =
    (fresh ≢ 0) × (copy ≢ 0) × Away fresh xs × AreFresh lines (xs ++ ((fresh, line) ∷ []))

abbrev pub lines_in : List (ℕ × ℕ × List ℕ) → List (List ℕ)
lines_in [] = []
lines_in ((fresh, copy, line) ∷ lines) = line ∷ lines_in lines

join-append_lines :
    (malloc : ℕ) (lines : List (ℕ × ℕ × List ℕ)) (h : Nodes (List ℕ)) (l : Lines)
    (xs : List (ℕ × List ℕ))
    → IsLines h l xs
    → AreFresh lines xs
    → malloc ≢ 0
    → length (text_of xs ++ line_list_join (lines_in lines)) + 1 < 2 ^ 64
    → (append_lines lines l h >>= λ (l', h'). join_nodes malloc (some l') h')
      ≡ ok (
        text_of xs ++ line_list_join (lines_in lines),
        length (text_of xs ++ line_list_join (lines_in lines)),
      )
unfolding append_lines
join-append_lines malloc [] h l xs is new given small =
    rw (append-nil (text_of xs))
      (join_nodes-text_of malloc h l xs is given (rw (append-nil (text_of xs)) at small))
join-append_lines malloc ((fresh, copy, line) ∷ lines) h l xs is (f, c, away, new) given small =
    let rest = line_list_join (lines_in lines) in
    let (l', h', e, is') =
      line_list_append-IsLines h l xs fresh copy line is f c away (
        omega (arith, small, length-append (text_of xs) (line ++ rest), length-append line rest)) in
    let longer : text_of (xs ++ ((fresh, line) ∷ [])) ++ rest ≡ text_of xs ++ (line ++ rest) =
      ap (λ t. t ++ rest) (text_of-snoc xs fresh line) ∙ append_assoc (text_of xs) line rest in
    rw (e, ← longer)
      (join-append_lines malloc lines h' l' (xs ++ ((fresh, line) ∷ [])) is' new given
        (rw longer small))

-- From `lineListInit` on, and if `malloc` gives memory, a node for each line at an address of its
-- own and less than 2 ^ 64 - 1 characters are appended, `lineListJoin` on the nodes never writes
-- behind its buffer and returns the text of the lines one after the other, as the disassembler is
-- modelled with it, and its length.
pub join_nodes-append_lines :
    (malloc malloc' : ℕ) (lines : List (ℕ × ℕ × List ℕ)) (h : Nodes (List ℕ))
    → malloc ≢ 0
    → malloc' ≢ 0
    → AreFresh lines []
    → length (line_list_join (lines_in lines)) + 1 < 2 ^ 64
    → (line_list_init malloc >>= λ l.
        append_lines lines l h >>= λ (l', h'). join_nodes malloc' (some l') h')
      ≡ ok (line_list_join (lines_in lines), length (line_list_join (lines_in lines)))
unfolding line_list_init
join_nodes-append_lines malloc malloc' lines h given given' new small = rw (ne→== malloc 0 given) (
    join-append_lines malloc' lines h _ []
      (record {
        is_list = record { chain = done; last = inl (refl, refl); count = refl };
        sum = refl;
      })
      new given' small)

found_or-later :
    (same : Bool) (label : Label) (r : Result (Option Label)) (later : Option Label)
    → r ≡ ok later
    → found_or same label r ≡ ok (if same then some label else later)
found_or-later true label r later e = refl
found_or-later false label r later e = e

find_loop-values :
    {h : Nodes Label} {p : ℕ} {xs : List (ℕ × Label)} (name : List ℕ)
    → Chain h 0 p xs
    → find_loop (suc (length xs)) p name h ≡ ok (label_list_find (values xs) name)
unfolding find_loop load_node label_list_find
find_loop-values name done = refl
find_loop-values {h = h} {xs = (p, v) ∷ xs} name (step_to {q = q} e some_node out rest) =
    rw (find_loop, ne→== p 0 some_node, load_node, e)
      (found_or-later (same_name v.name name) v _ _ (find_loop-values name rest))

-- On the nodes of a list of labels `labelListFind` finds what it finds in the plain list.
pub find_node-label_list_find :
    (h : Nodes Label) (l : Ends) (xs : List (ℕ × Label)) (name : List ℕ)
    → IsList h l xs
    → find_node (some l) name h ≡ ok (label_list_find (values xs) name)
unfolding find_node
find_node-label_list_find h l xs name is = rw is.count (find_loop-values name is.chain)
