-- ===== src/Server/Drain.antt =====
-- `drain_pipes` and the end of `run_vm_argv` of src/server.c: what a process writes to its two
-- pipes. What it writes to one is `pending`.
pub mod Collected
use cortex_vm.Prelude.{
  ℕ, ltb, ◌&&◌, ◌||◌, if◌then◌else◌, Bool, true, false, Option, none, some, get_or, List, [], ◌∷◌,
  length, Result, ok, undefined, diverged, ◌>>=◌,
}
use cortex_vm.Server.Text.{grown, until_nul}
use cortex_vm.Server.Receive.{read_some}
use cortex_vm.Server.Pages.{Ran}

-- What `select` answers: an error, or which descriptors are ready, with how many bytes `read` gives
-- from each at most beside the first.
pub data Selected : Type 0 where
  select_failed : Selected
  ready : (out err : Option ℕ) → Selected

-- A descriptor that may be closed, and the buffer for it.
pub record Pipe : Type 0 where
  pub is_open : Bool
  pub cap : ℕ
  pub text : List ℕ
  pub pending : List ℕ

abbrev pub fresh : List ℕ → Pipe
fresh sent = record { is_open = true; cap = 4096; text = []; pending = sent }

-- `(*out)[olen] = '\0'`
abbrev pub has_end : Pipe → Bool
has_end p = ltb (length p.text) p.cap

module _ (alloc : ℕ → Bool) where
  -- A larger buffer if it is full, and `read`; without memory or bytes the descriptor is closed.
  unfoldable pub drain_read : (limit : ℕ) → Pipe → Result Pipe
  unfolding grown read_some
  drain_read limit p = elim (grown alloc 1 p.cap (length p.text)) [
    | none ↦ ok (record p { is_open = false })
    | some cap ↦ read_some limit cap p.text p.pending >>= elim [
      | none ↦ ok (record p { is_open = false; cap = cap })
      | some (text, pending) ↦
          ok (record { is_open = true; cap = cap; text = text; pending = pending })
    ]
  ]

  -- `if(fd >= 0 && FD_ISSET(fd, &rfds))`
  unfoldable pub drain_ready : Option ℕ → Pipe → Result Pipe
  drain_ready none p = ok p
  drain_ready (some limit) p = elim p.is_open [ true ↦ drain_read limit p | false ↦ ok p ]

  unfoldable pub drain_loop : List Selected → (out err : Pipe) → Result (Pipe × Pipe)
  unfolding drain_ready
  drain_loop [] out err = if out.is_open || err.is_open then diverged else ok (out, err)
  drain_loop (select_failed ∷ answers) out err = ok (out, err)
  drain_loop (ready o e ∷ answers) out err = elim (out.is_open || err.is_open) [
    | false ↦ ok (out, err)
    | true ↦
        drain_ready o out >>= λ out'. drain_ready e err >>= λ err'. drain_loop answers out' err'
  ]

  unfoldable pub drain_pipes :
      List Selected → (sent_out sent_err : List ℕ) → Result (List ℕ × List ℕ)
  unfolding drain_loop
  drain_pipes answers sent_out sent_err =
      if alloc 4096
      then (drain_loop answers (fresh sent_out) (fresh sent_err) >>= λ (out, err).
          if has_end out && has_end err then ok (out.text, err.text) else undefined)
      else undefined

  -- What `run_vm_argv` has of a process that was started, whose texts are read up to their first
  -- '\0'. `status` is there if it has exited.
  unfoldable pub collect :
      List Selected → (sent_out sent_err : List ℕ) (status : Option ℕ) → Result Ran
  collect answers sent_out sent_err status = drain_pipes answers sent_out sent_err >>= λ (out, err).
      ok (record { out = until_nul out; err = until_nul err; exit_code = get_or status 1 })
