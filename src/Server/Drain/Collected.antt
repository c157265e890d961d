-- ===== src/Server/Drain/Collected.antt =====
-- What `drain_pipes` of src/server.c collects.
use cortex_vm.Prelude.{
  ℕ, ◌+◌, ◌*◌, ◌^◌, ◌≤◌, ◌<◌, ◌≡◌, ◌⊎◌, inl, inr, refl, ◌&&◌, ◌||◌, if◌then◌else◌, Bool, true,
  false, Option, none, some, List, [], ◌∷◌, ◌++◌, length, length-append, append_assoc, ap, ◌∙◌,
  Result, ok, undefined, diverged, ◌>>=◌, arith, lt→ltb,
}
use cortex_vm.Server.Grow.{Room, Grown, room, Refused, refused, grown-Grown}
use cortex_vm.Server.Receive.{read_some}
use cortex_vm.Server.Receive.Blank.{Stored, nothing, more, read_some-Stored, inside_sent}
use cortex_vm.Server.Drain.{
  Selected, select_failed, ready, Pipe, fresh, drain_read, drain_ready, drain_loop, has_end,
  drain_pipes,
}

-- Some `select` fails.
abbrev pub fails : List Selected → Bool
fails [] = false
fails (select_failed ∷ answers) = true
fails (ready o e ∷ answers) = fails answers

module _ (alloc : ℕ → Bool) where
  -- Nothing is left, or there is no memory for it.
  abbrev pub Over : List ℕ → Type 0
  Over rest = (rest ≡ []) ⊎ Refused alloc

  record Draining (sent : List ℕ) (p : Pipe) : Type 0 where
    splits : p.text ++ p.pending ≡ sent
    space : Room (length sent) p.cap (length p.text)
    closed : (p.is_open ≡ true) ⊎ Over p.pending

  data Drained (sent : List ℕ) : Result Pipe → Type 0 where
    drained : (p : Pipe) → Draining sent p → Drained sent (ok p)

  read_step :
      (sent : List ℕ) (p : Pipe) (cap : ℕ)
      → Draining sent p
      → 8 ≤ cap
      → length p.text + 1 < cap
      → cap ≤ 2 * length sent + 8192
      → (r : Result (Option (List ℕ × List ℕ))) → Stored cap p.text p.pending r
      → Drained sent (
          r >>= elim [
            | none ↦ ok (record p { is_open = false; cap = cap })
            | some (text, pending) ↦
                ok (record { is_open = true; cap = cap; text = text; pending = pending })
          ])
  read_step sent p cap d least free upper r (nothing none_left) = drained _ (record {
    splits = d.splits;
    space = record { bound = d.space.bound; least = least; inside = omega arith; upper = upper };
    closed = inr (inl none_left);
  })
  read_step sent p cap d least free upper r (more c chunk rest h fits) = drained _ (record {
    splits = append_assoc p.text (c ∷ chunk) rest ∙ ap (λ t. p.text ++ t) h ∙ d.splits;
    space = record {
      bound = d.space.bound;
      least = least;
      inside = simp length-append fits;
      upper = upper;
    };
    closed = inl refl;
  })

  by_room :
      (sent : List ℕ) (limit : ℕ) (p : Pipe)
      → Draining sent p
      → (g : Option ℕ) → Grown alloc (length sent) (length p.text) 1 g
      → Drained sent (elim g [
        | none ↦ ok (record p { is_open = false })
        | some cap ↦ read_some limit cap p.text p.pending >>= elim [
          | none ↦ ok (record p { is_open = false; cap = cap })
          | some (text, pending) ↦
              ok (record { is_open = true; cap = cap; text = text; pending = pending })
        ]
      ])
  by_room sent limit p d g (refused refusal) =
      drained _ (record { splits = d.splits; space = d.space; closed = inr (inr refusal) })
  by_room sent limit p d g (room {cap = size} least free upper) =
      read_step sent p size d least free upper (read_some limit size p.text p.pending)
        (read_some-Stored limit size p.text p.pending free (omega (arith, d.space.bound)))

  drain_read-Drained :
      (sent : List ℕ) (limit : ℕ) (p : Pipe)
      → Draining sent p
      → Drained sent (drain_read alloc limit p)
  unfolding drain_read
  drain_read-Drained sent limit p d = by_room sent limit p d _ (
      grown-Grown alloc (length sent) p.cap (length p.text) 1 d.space
        (inside_sent alloc sent 0 p.text p.pending d.splits) (omega arith))

  if_open :
      (sent : List ℕ) (limit : ℕ) (p : Pipe) (is_open : Bool)
      → Draining sent p
      → Drained sent (elim is_open [ true ↦ drain_read alloc limit p | false ↦ ok p ])
  if_open sent limit p true d = drain_read-Drained sent limit p d
  if_open sent limit p false d = drained p d

  drain_ready-Drained :
      (sent : List ℕ) (o : Option ℕ) (p : Pipe)
      → Draining sent p
      → Drained sent (drain_ready alloc o p)
  unfolding drain_ready
  drain_ready-Drained sent none p d = drained p d
  drain_ready-Drained sent (some limit) p d = if_open sent limit p p.is_open d

  module _ (sent_out sent_err : List ℕ) where
    -- Both pipes are over, or a `select` has failed.
    data Looped (failed : Bool) : Result (Pipe × Pipe) → Type 0 where
      looped :
          (out err : Pipe)
          → Draining sent_out out
          → Draining sent_err err
          → (failed ≡ true) ⊎ (Over out.pending × Over err.pending)
          → Looped failed (ok (out, err))
      waits : Looped failed diverged

    shut : (sent : List ℕ) (p : Pipe) → Draining sent p → p.is_open ≡ false → Over p.pending
    shut sent p d h = elim d.closed [ inl still_open ↦ absurd (cc) | inr over ↦ over ]

    both_shut :
        (out err : Pipe) (failed : Bool)
        → Draining sent_out out
        → Draining sent_err err
        → (out.is_open || err.is_open) ≡ false
        → Looped failed (ok (out, err))
    both_shut out err failed o e h =
        looped out err o e
          (inr (shut sent_out out o (ground arith), shut sent_err err e (ground arith)))

    at_end :
        (out err : Pipe) (b : Bool)
        → (b ≡ false → Looped false (ok (out, err)))
        → Looped false (if b then diverged else ok (out, err))
    at_end out err true h = waits
    at_end out err false h = h refl

    two_reads :
        (answers : List Selected) (o e : Result Pipe)
        → Drained sent_out o
        → Drained sent_err e
        → ((out err : Pipe)
            → Draining sent_out out
            → Draining sent_err err
            → Looped (fails answers) (drain_loop alloc answers out err))
        → Looped (fails answers) (o >>= λ out. e >>= λ err. drain_loop alloc answers out err)
    two_reads answers o e (drained out d) (drained err d') next = next out err d d'

    another_round :
        (out err : Pipe) (failed b : Bool) (r : Result (Pipe × Pipe))
        → (b ≡ false → Looped failed (ok (out, err)))
        → Looped failed r
        → Looped failed (elim b [ false ↦ ok (out, err) | true ↦ r ])
    another_round out err failed true r h next = next
    another_round out err failed false r h next = h refl

    drain_loop-Looped :
        (answers : List Selected) (out err : Pipe)
        → Draining sent_out out
        → Draining sent_err err
        → Looped (fails answers) (drain_loop alloc answers out err)
    unfolding drain_loop
    drain_loop-Looped [] out err o e = at_end out err _ (both_shut out err false o e)
    drain_loop-Looped (select_failed ∷ answers) out err o e = looped out err o e (inl refl)
    drain_loop-Looped (ready r r' ∷ answers) out err o e =
        another_round out err (fails answers) _ _ (both_shut out err (fails answers) o e) (
          two_reads answers _ _ (drain_ready-Drained sent_out r out o)
            (drain_ready-Drained sent_err r' err e) (drain_loop-Looped answers))

    -- What is collected, in front of what is not.
    pub data Collected (failed : Bool) : Result (List ℕ × List ℕ) → Type 0 where
      collected :
          (out err left_out left_err : List ℕ)
          → out ++ left_out ≡ sent_out
          → err ++ left_err ≡ sent_err
          → (failed ≡ true) ⊎ (Over left_out × Over left_err)
          → Collected failed (ok (out, err))
      still_waits : Collected failed diverged

    in_buffers :
        (failed : Bool) (r : Result (Pipe × Pipe))
        → Looped failed r
        → Collected failed (
            r >>= λ (out, err).
            if has_end out && has_end err then ok (out.text, err.text) else undefined)
    in_buffers failed r waits = still_waits
    in_buffers failed r (looped out err o e why) =
        rw (lt→ltb _ _ o.space.inside, lt→ltb _ _ e.space.inside)
          (collected out.text err.text out.pending err.pending o.splits e.splits why)

    at_start : (sent : List ℕ) → length sent < 2 ^ 60 → Draining sent (fresh sent)
    at_start sent small = record {
      splits = refl;
      space = record {
        bound = small;
        least = omega arith;
        inside = omega arith;
        upper = omega arith;
      };
      closed = inl refl;
    }

    -- If the first buffers are granted, and the process writes less than 2 ^ 60 bytes to each pipe,
    -- nothing is written behind the buffers, and unless a `select` fails or memory runs out, all
    -- that was written to a pipe is collected when `drain_pipes` returns.
    pub drain_pipes-Collected :
        (answers : List Selected)
        → alloc 4096 ≡ true
        → length sent_out < 2 ^ 60
        → length sent_err < 2 ^ 60
        → Collected (fails answers) (drain_pipes alloc answers sent_out sent_err)
    unfolding drain_pipes
    drain_pipes-Collected answers granted small small' = rw granted (
        in_buffers (fails answers) _ (
          drain_loop-Looped answers (fresh sent_out) (fresh sent_err) (at_start sent_out small)
            (at_start sent_err small')))
