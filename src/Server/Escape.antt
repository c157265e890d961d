-- ===== src/Server/Escape.antt =====
-- `json_escape` of src/server.c and its buffer.
use cortex_vm.Prelude.{
  ℕ, ◌+◌, ◌*◌, ◌^◌, ◌≤◌, ◌<◌, ◌≡◌, sym, ◌∙◌, ◌⊎◌, inl, inr, refl, leb, Bool, true, false, Option,
  none, some, List, [], ◌∷◌, ◌++◌, length, length-append, append_assoc, append-nil, Result, ok,
  undefined, arith, lt→ltb,
}
use mathlib.Core.Bool.{false≢true}
use cortex_vm.Word.{u64}
use cortex_vm.Server.Text.{json_char, touched, abandoned, escape_loop, json_escape}
use cortex_vm.Server.Grow.{Room, Grown, room, Refused, Granted, refused, grown-Grown}

-- The escaped text as a whole.
unfoldable pub escape_text : List ℕ → List ℕ
unfolding json_char
escape_text [] = []
escape_text (c ∷ str) = json_char c ++ escape_text str

touched_bounds :
    (c : ℕ)
    → (1 ≤ length (json_char c))
      × (length (json_char c) ≤ 6)
      × (touched (json_char c) ≤ 7)
      × (length (json_char c) ≤ touched (json_char c))
unfolding json_char
touched_bounds c = ground arith

-- The text that was written, or the empty one.
abbrev Escaped : (ℕ → Bool) → List ℕ → Result (List ℕ) → Type 0
Escaped alloc text r = (r ≡ ok text) ⊎ ((r ≡ ok []) × Refused alloc)

module _ (alloc : ℕ → Bool) (least : alloc 1 ≡ true) where
  -- One character, behind the test of the capacity.
  escape_step :
      (c : ℕ) (str out text : List ℕ) {most : ℕ} {grant : Option ℕ}
      → Grown alloc most (length out) 6 grant
      → most < 2 ^ 60
      → ((cap : ℕ)
          → Room most cap (length (out ++ json_char c))
          → Escaped alloc text (escape_loop alloc cap (out ++ json_char c) str))
      → Escaped alloc text (elim grant [
        | none ↦ abandoned alloc
        | some cap ↦ elim (leb (length out + touched (json_char c)) cap) [
          | true ↦ escape_loop alloc cap (out ++ json_char c) str
          | false ↦ undefined
        ]
      ])
  unfolding abandoned
  escape_step c str out text (refused why) small next = inr (rw least refl, why)
  escape_step c str out text (room {cap = size} lo hi up) small next =
      let (some_char, few, all, under) = touched_bounds c in
      let fits : leb (length out + touched (json_char c)) size ≡ true = ground arith in
      rw fits (
        next size (record {
          bound = small;
          least = lo;
          inside = rw (length-append out (json_char c)) (omega arith);
          upper = up;
        }))

  escape_loop-Escaped :
      (str out : List ℕ) (most size : ℕ)
      → Room most size (length out)
      → length out + 6 * length str ≤ most
      → Escaped alloc (out ++ escape_text str) (escape_loop alloc size out str)
  unfolding escape_loop escape_text
  escape_loop-Escaped [] out most size r few =
      inl (rw (lt→ltb (length out) size r.inside, append-nil out) refl)
  escape_loop-Escaped (c ∷ str) out most size r few =
      escape_step c str out (out ++ (json_char c ++ escape_text str))
        (grown-Grown alloc most size (length out) 6 r (omega arith) (omega arith)) r.bound
        λ next_size next. rw (← append_assoc out (json_char c) (escape_text str)) (
          escape_loop-Escaped str (out ++ json_char c) most next_size next
            (rw (length-append out (json_char c)) (omega (arith, touched_bounds c))))

-- For a text shorter than 2 ^ 57, and if its first allocation and one of a byte are granted,
-- `json_escape` never writes behind its buffer: it gives each character escaped, one after the
-- other, or the empty text, and the latter only if some allocation is refused.
pub json_escape-escape_text :
    (alloc : ℕ → Bool) (str : List ℕ)
    → length str < 2 ^ 57
    → alloc (length str * 2 + 8) ≡ true
    → alloc 1 ≡ true
    → (json_escape alloc str ≡ ok (escape_text str))
      ⊎ ((json_escape alloc str ≡ ok []) × Refused alloc)
unfolding json_escape
json_escape-escape_text alloc str short first least =
    let cap : u64 (length str * 2 + 8) ≡ length str * 2 + 8 = omega arith in
    rw (cap, first)
      (escape_loop-Escaped alloc least str [] (6 * length str) (length str * 2 + 8)
        (record {
          bound = omega arith;
          least = omega arith;
          inside = omega arith;
          upper = omega arith;
        })
        (omega arith))

pub json_escape-Granted :
    (alloc : ℕ → Bool) (str : List ℕ)
    → length str < 2 ^ 57
    → Granted alloc
    → json_escape alloc str ≡ ok (escape_text str)
json_escape-Granted alloc str short granted =
    elim (json_escape-escape_text alloc str short (granted (length str * 2 + 8)) (granted 1)) [
      | inl done ↦ done
      | inr (empty, (n, why)) ↦ absurd (false≢true (sym why ∙ granted n))
    ]
