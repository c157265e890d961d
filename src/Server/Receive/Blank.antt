-- ===== src/Server/Receive/Blank.antt =====
-- The first loop of `read_request` of src/server.c, which waits for a blank line.
use cortex_vm.Prelude.{
  ℕ, suc, ◌+◌, ◌-◌, ◌*◌, ◌^◌, ◌≤◌, ◌<◌, ◌≡◌, ◌⊎◌, inl, inr, refl, ap, ◌∙◌, ltb, Bool, Option, none,
  some, List, [], ◌∷◌, ◌++◌, length, length-append, append_assoc, Result, ok, ◌>>=◌, arith, lt→ltb,
  Bool-cases, Option-cases,
}
use cortex_vm.Word.{sub64}
use cortex_vm.Server.Text.{take, find, grown}
use cortex_vm.Server.Session.{skip}
use cortex_vm.Server.Cuts.{split, length-take_most}
use cortex_vm.Server.Grow.{Room, Grown, room, Refused, refused, grown-Grown}
use cortex_vm.Server.Receive.{blank_line, Head, stored, read_some, head_loop}

-- A read ends only at the end of what is sent, and stays in the buffer.
pub data Stored (cap : ℕ) (buf pending : List ℕ) : Result (Option (List ℕ × List ℕ)) → Type 0 where
  nothing : pending ≡ [] → Stored cap buf pending (ok none)
  more :
      (c : ℕ) (chunk rest : List ℕ)
      → (c ∷ chunk) ++ rest ≡ pending
      → length buf + length (c ∷ chunk) < cap
      → Stored cap buf pending (ok (some (buf ++ (c ∷ chunk), rest)))

stored-Stored :
    (n cap : ℕ) (buf pending : List ℕ)
    → length buf + suc n < cap
    → Stored cap buf pending (stored cap buf (skip (suc n) pending) (take (suc n) pending))
unfolding take skip
stored-Stored n cap buf [] h = nothing refl
stored-Stored n cap buf (c ∷ pending) h =
    let few : length buf + length (c ∷ take n pending) < cap =
      omega (arith, length-take_most n pending) in
    rw (lt→ltb (length buf + length (c ∷ take n pending)) cap few)
      (more c (take n pending) (skip n pending) (ap (λ t. c ∷ t) (split n pending)) few)

-- As long as there is room for a byte and the '\0'.
pub read_some-Stored :
    (limit cap : ℕ) (buf pending : List ℕ)
    → length buf + 1 < cap
    → cap < 2 ^ 64
    → Stored cap buf pending (read_some limit cap buf pending)
unfolding read_some
read_some-Stored limit cap buf pending inside small =
    let left : sub64 (sub64 cap (length buf)) 1 ≡ suc (cap - (length buf + 2)) = omega arith in
    rw left (elim (Bool-cases (ltb (suc limit) (suc (cap - (length buf + 2))))) [
      | inl fewer ↦ rw fewer (stored-Stored limit cap buf pending (ground arith))
      | inr many ↦ rw many (stored-Stored (cap - (length buf + 2)) cap buf pending (omega arith))
    ])

module _ (alloc : ℕ → Bool) (sent : List ℕ) (rounds : ℕ) where
  -- Nothing is left, or the peer's bytes were more than the reads.
  abbrev pub Ended : List ℕ → Type 0
  Ended rest = (rest ≡ []) ⊎ (rounds < length sent)

  -- The state in front of a read.
  pub record Reading (cap left : ℕ) (buf pending : List ℕ) : Type 0 where
    pub space : Room (length sent) cap (length buf)
    pub splits : buf ++ pending ≡ sent
    pub counted : rounds ≤ length buf + left

  -- The buffer behind the first loop.
  pub record Stopped (h : Head) : Type 0 where
    pub inside : length h.buf < h.cap
    pub small : h.cap < 2 ^ 62
    pub splits : h.buf ++ h.pending ≡ sent
    pub counted : Ended h.pending ⊎ (rounds ≤ length h.buf + length h.reads)
    pub reason : Ended h.pending ⊎ ((behind : List ℕ) × (find blank_line h.buf ≡ some behind))

  pub data HeadGot : Result (Option Head) → Type 0 where
    dropped : Refused alloc → HeadGot (ok none)
    stopped : (h : Head) → Stopped h → HeadGot (ok (some h))

  pub ended : (buf pending : List ℕ) → buf ++ pending ≡ sent → rounds ≤ length buf → Ended pending
  ended buf [] h few = inl refl
  ended buf (c ∷ pending) h few = inr (omega (arith, ap length h, length-append buf (c ∷ pending)))

  -- The bytes of a read stand behind those that came before.
  pub read_on :
      (buf chunk rest pending : List ℕ)
      → chunk ++ rest ≡ pending
      → buf ++ pending ≡ sent
      → (buf ++ chunk) ++ rest ≡ sent
  read_on buf chunk rest pending h e = append_assoc buf chunk rest ∙ ap (λ t. buf ++ t) h ∙ e

  pub inside_sent : (buf pending : List ℕ) → buf ++ pending ≡ sent → length buf ≤ length sent
  inside_sent buf pending h = omega (arith, ap length h, length-append buf pending)

  next_head :
      (reads : List ℕ) (cap : ℕ) (buf pending : List ℕ)
      → 8 ≤ cap
      → cap ≤ 2 * length sent + 8192
      → length buf + 1 < cap
      → Reading cap (suc (length reads)) buf pending
      → (r : Result (Option (List ℕ × List ℕ))) → Stored cap buf pending r
      → ((buf' pending' : List ℕ)
          → Reading cap (length reads) buf' pending'
          → HeadGot (head_loop alloc reads cap buf' pending'))
      → HeadGot (
          r >>= λ got. elim got [
            | none ↦ ok (some (record { cap = cap; buf = buf; pending = pending; reads = reads }))
            | some (buf', pending') ↦ head_loop alloc reads cap buf' pending'
          ])
  next_head reads cap buf pending least upper free s r (nothing none_left) next =
      stopped _ (record {
        inside = omega arith;
        small = omega (arith, s.space.bound);
        splits = s.splits;
        counted = inl (inl none_left);
        reason = inl (inl none_left);
      })
  next_head reads cap buf pending least upper free s r (more c chunk rest h fits) next =
      let on = read_on buf (c ∷ chunk) rest pending h s.splits in
      next (buf ++ (c ∷ chunk)) rest (record {
        space = record {
          bound = s.space.bound;
          least = least;
          inside = simp length-append fits;
          upper = upper;
        };
        splits = on;
        counted = omega (arith, s.counted, length-append buf (c ∷ chunk));
      })

  at_blank :
      (cap : ℕ) (buf pending reads behind : List ℕ)
      → Reading cap (length reads) buf pending
      → find blank_line buf ≡ some behind
      → HeadGot (ok (some (record { cap = cap; buf = buf; pending = pending; reads = reads })))
  at_blank cap buf pending reads behind s h = stopped _ (record {
    inside = s.space.inside;
    small = omega (arith, s.space.bound, s.space.upper);
    splits = s.splits;
    counted = inr s.counted;
    reason = inr (behind, h);
  })

  by_room :
      (r : ℕ) (reads : List ℕ) (cap : ℕ) (buf pending : List ℕ)
      → Reading cap (suc (length reads)) buf pending
      → (g : Option ℕ) → Grown alloc (length sent) (length buf) 1 g
      → ((cap' : ℕ) (buf' pending' : List ℕ)
          → Reading cap' (length reads) buf' pending'
          → HeadGot (head_loop alloc reads cap' buf' pending'))
      → HeadGot (elim g [
        | none ↦ ok none
        | some cap' ↦ read_some r cap' buf pending >>= λ got. elim got [
          | none ↦ ok (some (record { cap = cap'; buf = buf; pending = pending; reads = reads }))
          | some (buf', pending') ↦ head_loop alloc reads cap' buf' pending'
        ]
      ])
  by_room r reads cap buf pending s g (refused no_memory) next = dropped no_memory
  by_room r reads cap buf pending s g (room {cap = cap'} least free upper) next =
      next_head reads cap' buf pending least upper free
        (record {
          space = record {
            bound = s.space.bound;
            least = least;
            inside = omega arith;
            upper = upper;
          };
          splits = s.splits;
          counted = s.counted;
        })
        (read_some r cap' buf pending)
        (read_some-Stored r cap' buf pending free (omega (arith, s.space.bound))) (next cap')

  out_of_reads :
      (cap : ℕ) (buf pending : List ℕ)
      → Reading cap 0 buf pending
      → (g : Option ℕ) → Grown alloc (length sent) (length buf) 1 g
      → HeadGot (elim g [
        | none ↦ ok none
        | some cap' ↦ ok (some (record { cap = cap'; buf = buf; pending = pending; reads = [] }))
      ])
  out_of_reads cap buf pending s g (refused no_memory) = dropped no_memory
  out_of_reads cap buf pending s g (room least free upper) =
      let over = ended buf pending s.splits (omega (arith, s.counted)) in
      stopped _ (record {
        inside = omega arith;
        small = omega (arith, s.space.bound);
        splits = s.splits;
        counted = inl over;
        reason = inl over;
      })

  room_for_one :
      (cap left : ℕ) (buf pending : List ℕ)
      → Reading cap left buf pending
      → Grown alloc (length sent) (length buf) 1 (grown alloc 1 cap (length buf))
  room_for_one cap left buf pending s =
      grown-Grown alloc (length sent) cap (length buf) 1 s.space (inside_sent buf pending s.splits)
        (omega arith)

  pub head_loop-HeadGot :
      (reads : List ℕ) (cap : ℕ) (buf pending : List ℕ)
      → Reading cap (length reads) buf pending
      → HeadGot (head_loop alloc reads cap buf pending)
  unfolding head_loop
  head_loop-HeadGot [] cap buf pending s = elim (Option-cases (find blank_line buf)) [
    | inr (behind, h) ↦ rw (head_loop, h) (at_blank cap buf pending [] behind s h)
    | inl h ↦
        rw (head_loop, h) (out_of_reads cap buf pending s _ (room_for_one cap 0 buf pending s))
  ]
  head_loop-HeadGot (r ∷ reads) cap buf pending s = elim (Option-cases (find blank_line buf)) [
    | inr (behind, h) ↦ rw (head_loop, h) (at_blank cap buf pending (r ∷ reads) behind s h)
    | inl h ↦
        rw (head_loop, h)
          (by_room r reads cap buf pending s _ (room_for_one cap (suc (length reads)) buf pending s)
            (head_loop-HeadGot reads))
  ]
