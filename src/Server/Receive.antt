-- ===== src/Server/Receive.antt =====
-- `read_request` of src/server.c. What the peer sends is `pending`; `reads` says of each `read`
-- that can still succeed how many bytes it gives at most beside the first.
pub mod Blank
pub mod Whole
use cortex_vm.Prelude.{
  ℕ, suc, ◌+◌, ◌-◌, ◌^◌, ltb, leb, ◌&&◌, ◌||◌, not, if◌then◌else◌, Bool, true, false, Option, none,
  some, List, [], ◌∷◌, ◌++◌, map, codes, length, Result, ok, undefined, ◌>>=◌,
}
use cortex_vm.Word.{word_mod, u64, sub64}
use cortex_vm.Assembler.Immediate.{strtoll}
use cortex_vm.Server.Text.{take, find, grown}
use cortex_vm.Server.Session.{skip, at_most}

abbrev pub lower : ℕ → ℕ
lower c = if leb b'A' c && leb c b'Z' then c + 32 else c

-- "\r\n\r\n"
abbrev pub blank_line : List ℕ
blank_line = 13 ∷ 10 ∷ 13 ∷ 10 ∷ []

-- `atoi`, as a 64-bit number; the C standard gives a value outside of `int` no meaning.
unfoldable pub atoi : List ℕ → Result ℕ
atoi text =
    let v = (strtoll text).0 in
    if ltb v (2 ^ 31) || leb (word_mod - 2 ^ 31) v then ok v else undefined

-- `clen`. `strcasestr` finds the header in either case; what `atoi` reads has no case.
unfoldable pub content_length : List ℕ → Result ℕ
unfolding atoi
content_length buf = elim (find (codes "content-length:") (map lower buf)) [
  | none ↦ ok 0
  | some value ↦ atoi value
]

-- `hdr_len`
unfoldable pub header_length : List ℕ → ℕ
header_length buf = elim (find blank_line buf) [
  | none ↦ length buf
  | some behind ↦ length buf - length behind
]

-- `clen > 0`
abbrev pub is_positive : ℕ → Bool
is_positive clen = ltb 0 clen && ltb clen (2 ^ 31)

-- The buffer behind the first loop, and what is still to come.
pub record Head : Type 0 where
  pub cap : ℕ
  pub buf : List ℕ
  pub pending : List ℕ
  pub reads : List ℕ

-- The bytes that `read` gives, if any, and `buf[len] = '\0'` behind them.
abbrev pub stored : (cap : ℕ) (buf rest : List ℕ) → List ℕ → Result (Option (List ℕ × List ℕ))
stored cap buf rest [] = ok none
stored cap buf rest (c ∷ chunk) =
    if ltb (length buf + length (c ∷ chunk)) cap
    then ok (some (buf ++ (c ∷ chunk), rest))
    else undefined

-- `read(fd, buf + len, cap - len - 1)`
unfoldable pub read_some :
    (limit cap : ℕ) (buf pending : List ℕ) → Result (Option (List ℕ × List ℕ))
unfolding take skip
read_some limit cap buf pending =
    let n = at_most (sub64 (sub64 cap (length buf)) 1) (suc limit) in
    stored cap buf (skip n pending) (take n pending)

-- The loop over the body.
unfoldable pub body_loop :
    (reads : List ℕ) (cap have clen : ℕ) (buf pending : List ℕ) → Result (List ℕ)
unfolding read_some
body_loop [] cap have clen buf pending = ok buf
body_loop (r ∷ reads) cap have clen buf pending = elim (ltb have clen) [
  | false ↦ ok buf
  | true ↦ read_some r cap buf pending >>= λ got. elim got [
    | none ↦ ok buf
    | some (buf', pending') ↦
        body_loop reads cap (have + (length buf' - length buf)) clen buf' pending'
  ]
]

module _ (alloc : ℕ → Bool) where
  -- The loop up to the blank line.
  unfoldable pub head_loop :
      (reads : List ℕ) (cap : ℕ) (buf pending : List ℕ) → Result (Option Head)
  unfolding read_some grown
  head_loop [] cap buf pending = elim (find blank_line buf) [
    | some behind ↦ ok (some (record { cap = cap; buf = buf; pending = pending; reads = [] }))
    | none ↦ elim (grown alloc 1 cap (length buf)) [
      | none ↦ ok none
      | some cap' ↦ ok (some (record { cap = cap'; buf = buf; pending = pending; reads = [] }))
    ]
  ]
  head_loop (r ∷ reads) cap buf pending = elim (find blank_line buf) [
    | some behind ↦
        ok (some (record { cap = cap; buf = buf; pending = pending; reads = r ∷ reads }))
    | none ↦ elim (grown alloc 1 cap (length buf)) [
      | none ↦ ok none
      | some cap' ↦ read_some r cap' buf pending >>= λ got. elim got [
        | none ↦ ok (some (record { cap = cap'; buf = buf; pending = pending; reads = reads }))
        | some (buf', pending') ↦ head_loop reads cap' buf' pending'
      ]
    ]
  ]

  -- `need`, the buffer for the body, and the loop over it.
  unfoldable pub receive_body : Head → (clen : ℕ) → Result (Option (List ℕ))
  receive_body h clen =
      let hdr_len = header_length h.buf in
      let have = sub64 (length h.buf) hdr_len in
      let need = u64 (u64 (hdr_len + clen) + 1) in
      if ltb h.cap need
      then (if alloc need
          then (body_loop h.reads need have clen h.buf h.pending >>= λ buf. ok (some buf))
          else ok none)
      else body_loop h.reads h.cap have clen h.buf h.pending >>= λ buf. ok (some buf)

  unfoldable pub receive : Head → Result (Option (List ℕ))
  unfolding content_length receive_body
  receive h = content_length h.buf >>= λ clen.
      if is_positive clen then receive_body h clen else ok (some h.buf)

  -- `ready` is what `poll` says of the first byte within 500 ms. The first buffer is `calloc`'s,
  -- whose result is not tested.
  unfoldable pub read_request : (ready : Bool) (reads pending : List ℕ) → Result (Option (List ℕ))
  unfolding head_loop receive
  read_request ready reads pending =
      if not ready
      then ok none
      else if not (alloc 8192)
      then undefined
      else head_loop reads 8192 [] pending >>= λ head. elim head [
        | none ↦ ok none
        | some h ↦ receive h
      ]
