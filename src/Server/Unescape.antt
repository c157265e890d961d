-- ===== src/Server/Unescape.antt =====
-- `json_get_string` of src/server.c on what `json_escape` writes.
use cortex_vm.Prelude.{
  ℕ, suc, ◌+◌, ◌^◌, ◌≤◌, ◌<◌, ◌≡◌, ◌≢◌, ◌⊎◌, inl, inr, refl, sym, ◌∙◌, leb, ◌==◌, ◌||◌, not, Bool,
  true, false, Option, none, some, List, [], ◌∷◌, ◌++◌, length, length-append, append_assoc,
  append-nil, Result, ok, undefined, arith, lt→ltb, ne→==,
}
use mathlib.Core.Bool.{false≢true}
use cortex_vm.Assembler.Immediate.{take_while}
use cortex_vm.Server.Text.{json_char, json_unescape, close_string, string_loop, read_string}
use cortex_vm.Server.Escape.{escape_text}
use cortex_vm.Server.Grow.{Room, Grown, room, Refused, Granted, refused, grown-Grown}

-- The elements pass a test.
abbrev pub All : (ℕ → Bool) → List ℕ → Type 0
All test [] = Unit
All test (c ∷ s) = (test c ≡ true) × All test s

-- A printable character, a tab, a newline or a carriage return.
abbrev pub is_plain_text : ℕ → Bool
is_plain_text c = leb 0x20 c || c == 9 || c == 10 || c == 13

-- How the escaped character is read.
pub data Reads (c : ℕ) : List ℕ → Type 0 where
  behind_slash : (d : ℕ) → d ≢ 0 → json_unescape d ≡ c ∷ [] → Reads c (b'\\' ∷ d ∷ [])
  verbatim : c ≢ 0 → c ≢ b'"' → c ≢ b'\\' → Reads c (c ∷ [])

known_code :
    (c v d : ℕ)
    → c ≡ v
    → json_char v ≡ b'\\' ∷ d ∷ []
    → d ≢ 0
    → json_unescape d ≡ v ∷ []
    → Reads c (json_char c)
known_code c v d e shape some_char back = rw (e, shape) (behind_slash d some_char back)

json_char-cases :
    (c : ℕ)
    → is_plain_text c ≡ true
    → (c ≡ b'"')
      ⊎ (c ≡ b'\\')
      ⊎ (c ≡ 10)
      ⊎ (c ≡ 13)
      ⊎ (c ≡ 9)
      ⊎ ((json_char c ≡ c ∷ []) × (c ≢ 0) × (c ≢ b'"') × (c ≢ b'\\'))
unfolding json_char
json_char-cases c h = ground arith

pub json_char-Reads : (c : ℕ) → is_plain_text c ≡ true → Reads c (json_char c)
unfolding json_char json_unescape
json_char-Reads c h = elim (json_char-cases c h) [
  | inl e ↦ known_code c b'"' b'"' e refl (ground arith) refl
  | inr (inl e) ↦ known_code c b'\\' b'\\' e refl (ground arith) refl
  | inr (inr (inl e)) ↦ known_code c 10 b'n' e refl (ground arith) refl
  | inr (inr (inr (inl e))) ↦ known_code c 13 b'r' e refl (ground arith) refl
  | inr (inr (inr (inr (inl e)))) ↦ known_code c 9 b't' e refl (ground arith) refl
  | inr (inr (inr (inr (inr (e, zero_free, quote_free, slash_free))))) ↦
      rw e (verbatim zero_free quote_free slash_free)
]

take_while-All : (test : ℕ → Bool) (s : List ℕ) → All test s → take_while test s ≡ s
unfolding take_while
take_while-All test [] h = refl
take_while-All test (c ∷ s) (first, more) = rw (first, take_while-All test s more) refl

append-nonempty : (xs : List ℕ) (x : ℕ) (ys : List ℕ) → xs ++ (x ∷ ys) ≢ []
append-nonempty [] x ys h = cc
append-nonempty (y ∷ xs) x ys h = cc

All-append :
    (test : ℕ → Bool) (s : List ℕ) (c : ℕ) → All test s → test c ≡ true → All test (s ++ (c ∷ []))
All-append test [] c h last = (last, tt)
All-append test (d ∷ s) c (first, more) last = (first, All-append test s c more last)

proper_clean : (c : ℕ) → is_plain_text c ≡ true → not (c == 0) ≡ true
proper_clean c h = ground arith

-- The value was read, or an allocation failed.
abbrev Got : (ℕ → Bool) → List ℕ → Result (Option (List ℕ)) → Type 0
Got alloc text r = (r ≡ ok (some text)) ⊎ ((r ≡ ok none) × Refused alloc)

module _ (alloc : ℕ → Bool) where
  -- The write of one character, behind the test of the capacity.
  granted_step :
      {grant : Option ℕ} {c : ℕ} (piece out rest text : List ℕ) (most : ℕ)
      → Grown alloc most (length out) 2 grant
      → most < 2 ^ 60
      → piece ≡ c ∷ []
      → ((next : ℕ)
          → Room most next (length (out ++ (c ∷ [])))
          → Got alloc text (string_loop alloc next (out ++ (c ∷ [])) rest))
      → Got alloc text (elim grant [
        | none ↦ ok none
        | some size ↦ elim (leb (length out + length piece) size) [
          | true ↦ string_loop alloc size (out ++ piece) rest
          | false ↦ undefined
        ]
      ])
  granted_step piece out rest text most (refused why) small e next = inr (refl, why)
  granted_step {c = c} piece out rest text most (room {cap = size} lo hi up) small e next =
      let fits : leb (length out + 1) size ≡ true = ground arith in
      rw (e, fits, e)
        (next size (record {
          bound = small;
          least = lo;
          inside = rw (length-append out (c ∷ [])) (omega arith);
          upper = up;
        }))

  plain_step :
      {grant : Option ℕ} (c : ℕ) (slash : Bool) (out rest text : List ℕ) (most : ℕ)
      (other : ℕ → Result (Option (List ℕ)))
      → Grown alloc most (length out) 2 grant
      → most < 2 ^ 60
      → slash ≡ false
      → ((next : ℕ)
          → Room most next (length (out ++ (c ∷ [])))
          → Got alloc text (string_loop alloc next (out ++ (c ∷ [])) rest))
      → Got alloc text (elim grant [
        | none ↦ ok none
        | some size ↦ elim slash [
          | true ↦ other size
          | false ↦ elim (leb (length out + 1) size) [
            | true ↦ string_loop alloc size (out ++ (c ∷ [])) rest
            | false ↦ undefined
          ]
        ]
      ])
  plain_step c slash out rest text most other (refused why) small e next = inr (refl, why)
  plain_step c slash out rest text most other (room {cap = size} lo hi up) small e next =
      rw e (granted_step (c ∷ []) out rest text most (room {cap = size} lo hi up) small refl next)

  -- One character of the value, of either form.
  string_step :
      {c : ℕ} {shape : List ℕ} (out rest text : List ℕ) (most size : ℕ)
      → Reads c shape
      → rest ≢ []
      → Room most size (length out)
      → suc (length out) ≤ most
      → ((next : ℕ)
          → Room most next (length (out ++ (c ∷ [])))
          → Got alloc text (string_loop alloc next (out ++ (c ∷ [])) rest))
      → Got alloc text (string_loop alloc size out (shape ++ rest))
  unfolding string_loop
  string_step out rest text most size (behind_slash d some_char back) more r few next =
      granted_step (json_unescape d) out rest text most
        (grown-Grown alloc most size (length out) 2 r (omega arith) (omega arith)) r.bound back next
  string_step out [] text most size (verbatim zero_free quote_free slash_free) more r few next =
      absurd (more refl)
  string_step {c = c} out (d ∷ rest) text most size (verbatim zero_free quote_free slash_free) more
        r few next =
      rw (string_loop, ne→== c 0 zero_free, ne→== c b'"' quote_free)
        (plain_step c (c == b'\\') out (d ∷ rest) text most _
          (grown-Grown alloc most size (length out) 2 r (omega arith) (omega arith)) r.bound
          (ne→== c b'\\' slash_free) next)

  -- The closing quote.
  closing_quote :
      (out tail : List ℕ) (most size : ℕ)
      → All (λ c. not (c == 0)) out
      → Room most size (length out)
      → string_loop alloc size out (b'"' ∷ tail) ≡ ok (some out)
  unfolding string_loop close_string
  closing_quote out [] most size proper r =
      rw (lt→ltb (length out) size r.inside, take_while-All (λ c. not (c == 0)) out proper) refl
  closing_quote out (d ∷ tail) most size proper r =
      rw (lt→ltb (length out) size r.inside, take_while-All (λ c. not (c == 0)) out proper) refl

  string_loop-Got :
      (s out tail : List ℕ) (most size : ℕ)
      → All is_plain_text s
      → All (λ c. not (c == 0)) out
      → Room most size (length out)
      → length out + length s ≤ most
      → Got alloc (out ++ s) (string_loop alloc size out (escape_text s ++ (b'"' ∷ tail)))
  unfolding escape_text
  string_loop-Got [] out tail most size proper clean r few =
      inl (rw (append-nil out) (closing_quote out tail most size clean r))
  string_loop-Got (c ∷ s) out tail most size (first, proper) clean r few =
      rw (append_assoc (json_char c) (escape_text s) (b'"' ∷ tail)) (
        string_step out (escape_text s ++ (b'"' ∷ tail)) (out ++ (c ∷ s)) most size
          (json_char-Reads c first) (append-nonempty (escape_text s) b'"' tail) r (omega arith)
          λ next_size next. rw (← append_assoc out (c ∷ []) s) (
            string_loop-Got s (out ++ (c ∷ [])) tail most next_size proper
              (All-append (λ c. not (c == 0)) out c clean (proper_clean c first)) next
              (rw (length-append out (c ∷ [])) (omega arith))))

-- A string value, from its opening quote on.
pub read_string-escape_text :
    (alloc : ℕ → Bool) (s tail : List ℕ)
    → Granted alloc
    → All is_plain_text s
    → length s < 2 ^ 59
    → read_string alloc (b'"' ∷ (escape_text s ++ (b'"' ∷ tail))) ≡ ok (some s)
unfolding read_string
read_string-escape_text alloc s tail granted proper short =
    rw (granted 4096)
      (elim (string_loop-Got alloc s [] tail (length s) 4096 proper tt
        (record {
          bound = omega arith;
          least = omega arith;
          inside = omega arith;
          upper = omega arith;
        })
        (omega arith)) [
          | inl done ↦ done
          | inr (empty, (n, why)) ↦ absurd (false≢true (sym why ∙ granted n))
        ])
