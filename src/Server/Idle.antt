-- ===== src/Server/Idle.antt =====
-- What the server has for an interactive run session of src/server.c, before and behind a request
-- under /irun.
use cortex_vm.Prelude.{
  ℕ, ◌+◌, ◌≡◌, refl, ap, ◌==◌, not, Bool, true, false, Option, none, some, List, [], ◌∷◌, ◌++◌,
  codes, Result, ok, Ensures, Ensures-any, Ensures-bind, arith,
}
use cortex_vm.Assembler.Invariant.{Ensures-if}
use cortex_vm.Server.Text.{json_get_string}
use cortex_vm.Server.Replies.{send_ok, no_session, missing_source}
use cortex_vm.Server.Handles.{Action, assembling}
use cortex_vm.Server.Session.{Session}
use cortex_vm.Server.Start.{debug_teardown}
use cortex_vm.Server.Requests.{IsSound}
use cortex_vm.Server.Actions.{Level, assembling-Level}
use cortex_vm.Server.Balance.{Ensures-when, not-false}
use cortex_vm.Server.Teardown.{Emptied, debug_teardown-Emptied}
use cortex_vm.Server.Interactive.{
  Irun, Resource, descriptor, process, file, Effect, gained, lost, of_actions, spawn_effects,
  await_effects, written_line, Launch, Handled, Drained, irun_cleanup, reply_with, launched, launch,
  assemble_and_launch, handle_irun_start, handle_irun_input, handle_irun_poll, handle_irun_stop,
}
use cortex_vm.Server.Holdings.{
  one, gains, losses, has, of_irun, of_debug, Settled, BothSettled, GivenBack, gains-append,
  losses-append, GivesBack, await_gives, irun_cleanup-gives, not_active, Level-even, Emptied-gives,
}

-- What the run of the assembler leaves: the binary.
assembled :
    (r : Resource) (path tmppath : List ℕ) (cleaned acts more : List Effect) (n m : ℕ)
    → GivesBack r n cleaned
    → GivesBack r m acts
    → gains r more ≡ losses r more
    → let before =
        cleaned
        ++ (acts
            ++ (more ++ (gained (file path) ∷ gained (file tmppath) ∷ lost (file tmppath) ∷ []))) in
      gains r before + n + m ≡ losses r before + one r (file path)
unfolding GivesBack
assembled r path tmppath cleaned acts more n m (a, b) (c, d) e =
    let files = gained (file path) ∷ gained (file tmppath) ∷ lost (file tmppath) ∷ [] in
    omega (
      arith,
      a,
      b,
      c,
      d,
      e,
      gains-append r cleaned (acts ++ (more ++ files)),
      gains-append r acts (more ++ files),
      gains-append r more files,
      losses-append r cleaned (acts ++ (more ++ files)),
      losses-append r acts (more ++ files),
      losses-append r more files,
    )

-- Behind the three pipes: the child, the parent's ends and the binary are the session's.
spawned :
    (r : Resource) (child : Option ℕ) (a b c d e f : ℕ)
    → let effects =
        gained (descriptor a)
        ∷ gained (descriptor b)
        ∷ gained (descriptor c)
        ∷ gained (descriptor d)
        ∷ gained (descriptor e)
        ∷ gained (descriptor f)
        ∷ (spawn_effects child
            ++ (lost (descriptor a) ∷ lost (descriptor d) ∷ lost (descriptor f) ∷ [])) in
      gains r effects
      ≡ losses r effects
        + (has process r child
            + (one r (descriptor b) + (one r (descriptor c) + one r (descriptor e))))
spawned r none a b c d e f = omega arith
spawned r (some pid) a b c d e f = omega arith

-- A reply keeps what its effects and its session have.
replied :
    (P : Handled → Type 0) (effects : List Effect) (g : Irun) (reply : Result (List ℕ))
    → ((sent : List ℕ) → P (effects, (sent, g)))
    → Ensures P (reply_with effects g reply)
replied P effects g reply h = Ensures-any P reply _ h

-- What is behind the assembler's run: `before` is settled but for the binary.
Assembled : {W : Type 0} → Launch → Irun → Session W → List Effect → Type 0
Assembled a g s before =
    (r : Resource)
    → gains r before + of_irun r g + of_debug r s ≡ losses r before + one r (file a.binpath)

module _ {W : Type 0} (a : Launch) (g : Irun) (s t : Session W)
    (empty : (r : Resource) → of_debug r t ≡ 0) where
  refused-BothSettled :
      (before : List Effect) (g' : Irun) (reply : Result (List ℕ))
      → g'.active ≡ false
      → Assembled a g s before
      → Ensures
          (λ done. BothSettled g s (done, t))
          (reply_with (before ++ (lost (file a.binpath) ∷ [])) g' reply)
  unfolding Assembled
  refused-BothSettled before g' reply off h = replied _ _ g' reply λ sent r. omega (
    arith,
    h r,
    empty r,
    not_active r g' g'.active refl off,
    gains-append r before (lost (file a.binpath) ∷ []),
    losses-append r before (lost (file a.binpath) ∷ []),
  )

  launched-BothSettled :
      (in_rd in_wr out_rd out_wr err_rd err_wr : ℕ) (before : List Effect)
      → Assembled a g s before
      → Ensures
          (λ done. BothSettled g s (done, t))
          (launched a in_rd in_wr out_rd out_wr err_rd err_wr before)
  unfolding Assembled launched
  launched-BothSettled in_rd in_wr out_rd out_wr err_rd err_wr before h =
      replied _ _ _ send_ok λ sent r. omega (
        arith,
        h r,
        empty r,
        spawned r a.child in_rd in_wr out_rd out_wr err_rd err_wr,
        gains-append r before _,
        losses-append r before _,
      )

  launch-BothSettled :
      (before : List Effect) (g' : Irun) (i o e : ℕ × ℕ)
      → a.in_pipe ≡ some i
      → a.out_pipe ≡ some o
      → a.err_pipe ≡ some e
      → Assembled a g s before
      → Ensures (λ done. BothSettled g s (done, t)) (launch a before g')
  unfolding launch
  launch-BothSettled before g' i o e in_made out_made err_made h =
      rw (in_made, out_made, err_made) (launched-BothSettled i.0 i.1 o.0 o.1 e.0 e.1 before h)

module _ (alloc : ℕ → Bool) where
  idle-Settled : (g : Irun) (sent : List ℕ) → Settled g ([], (sent, g))
  idle-Settled g sent r = refl

  written_settled :
      (r : Resource) (line : Option (List ℕ)) (wr : Option ℕ)
      → gains r (written_line line wr) ≡ losses r (written_line line wr)
  unfolding written_line
  written_settled r none wr = refl
  written_settled r (some line) none = refl
  written_settled r (some line) (some fd) = refl

  handle_irun_input-Settled :
      (body : List ℕ) (g : Irun) → Ensures (Settled g) (handle_irun_input alloc body g)
  unfolding handle_irun_input
  handle_irun_input-Settled body g =
      Ensures-if (Settled g) (not g.active) _ _ (replied (Settled g) [] g no_session λ sent r. refl)
        (Ensures-any (Settled g) (json_get_string alloc body (codes "line")) _ λ line.
          replied _ _ g send_ok
            λ sent r. ap (λ n. n + of_irun r g) (written_settled r line g.stdin_wr))

  -- A session whose child has ended.
  waited :
      (r : Resource) (g : Irun)
      → g.active ≡ true
      → of_irun r g ≡ has process r g.pid + of_irun r (record g { pid = none })
  waited r g on = rw on (omega arith)

  ended-Settled :
      (g : Irun) (reply : Result (List ℕ))
      → g.active ≡ true
      → let (effects, g') = irun_cleanup (record g { pid = none }) in
        Ensures (Settled g) (reply_with (await_effects g.pid ++ effects) g' reply)
  unfolding GivesBack
  ended-Settled g reply on =
      let left : Irun = record g { pid = none } in
      let (effects, g') = irun_cleanup left in
      replied _ (await_effects g.pid ++ effects) g' reply λ sent r. omega (
        arith,
        waited r g on,
        (await_gives r g.pid).0,
        (await_gives r g.pid).1,
        (irun_cleanup-gives r left).1.0,
        (irun_cleanup-gives r left).1.1,
        not_active r g' g'.active refl (irun_cleanup-gives r left).0,
        gains-append r (await_effects g.pid) effects,
        losses-append r (await_effects g.pid) effects,
      )

  handle_irun_poll-Settled :
      (d : Drained) (g : Irun) → Ensures (Settled g) (handle_irun_poll alloc d g)
  unfolding handle_irun_poll
  handle_irun_poll-Settled d g =
      Ensures-when (Settled g) (not g.active) _ _
        (λ off. replied (Settled g) [] g _ (idle-Settled g))
        λ on.
          Ensures-if (Settled g) d.stdout_eof _ _ (ended-Settled g _ (not-false on))
            (replied (Settled g) [] g _ (idle-Settled g))

  handle_irun_stop-GivenBack : (g : Irun) → Ensures (GivenBack g) (handle_irun_stop g)
  unfolding handle_irun_stop GivesBack
  handle_irun_stop-GivenBack g =
      replied (GivenBack g) (irun_cleanup g).0 (irun_cleanup g).1 send_ok
        λ sent. ((irun_cleanup-gives (process 0) g).0, λ r. (irun_cleanup-gives r g).1)

module _ (alloc : ℕ → Bool) {W : Type 0} where
  assemble_and_launch-BothSettled :
      (a : Launch) (g : Irun) (s t : Session W) (acts : List Action) (i o e : ℕ × ℕ)
      → a.in_pipe ≡ some i
      → a.out_pipe ≡ some o
      → a.err_pipe ≡ some e
      → Emptied s acts t
      → Ensures (λ done. BothSettled g s (done, t)) (assemble_and_launch alloc a g acts)
  unfolding assemble_and_launch Assembled
  assemble_and_launch-BothSettled a g s t acts i o e in_made out_made err_made emptied =
      let empty : (r : Resource) → of_debug r t ≡ 0 = λ r. (Emptied-gives r s t acts emptied).1 in
      Ensures-bind Level _ (assembling a.files) _ (assembling-Level a.files) λ more level.
        let before : List Effect =
          (irun_cleanup g).0
          ++ (of_actions acts
              ++ (of_actions more
                  ++ (gained (file a.binpath)
                      ∷ gained (file a.tmppath)
                      ∷ lost (file a.tmppath)
                      ∷ []))) in
        let done : Assembled a g s before = λ r.
          assembled r a.binpath a.tmppath (irun_cleanup g).0 (of_actions acts) (of_actions more)
            (of_irun r g) (of_debug r s) (irun_cleanup-gives r g).1
            (Emptied-gives r s t acts emptied).0 (Level-even r more level) in
        Ensures-if (λ done. BothSettled g s (done, t)) (not (a.asm_exit == 0)) _ _
          (refused-BothSettled a g s t empty _ (irun_cleanup g).1 _
            (irun_cleanup-gives (process 0) g).0 done)
          (launch-BothSettled a g s t empty _ (irun_cleanup g).1 i o e in_made out_made err_made
            done)

  handle_irun_start-BothSettled :
      (a : Launch) (body : List ℕ) (g : Irun) (s : Session W) (i o e : ℕ × ℕ)
      → a.in_pipe ≡ some i
      → a.out_pipe ≡ some o
      → a.err_pipe ≡ some e
      → IsSound s
      → Ensures (BothSettled g s) (handle_irun_start alloc a body g s)
  unfolding handle_irun_start
  handle_irun_start-BothSettled a body g s i o e in_made out_made err_made sound =
      Ensures-any (BothSettled g s) (json_get_string alloc body (codes "source")) _ (elim [
        | none ↦
            Ensures-bind (λ done. BothSettled g s (done, s)) (BothSettled g s)
              (reply_with [] g missing_source) (λ done. ok (done, s))
              (replied _ [] g missing_source λ sent r. refl) λ done h. h
        | some source ↦
            Ensures-bind (λ done. BothSettled g s (done, (debug_teardown s).1)) (BothSettled g s)
              (assemble_and_launch alloc a g (debug_teardown s).0)
              (λ done. ok (done, (debug_teardown s).1))
              (assemble_and_launch-BothSettled a g s (debug_teardown s).1 (debug_teardown s).0 i o e
                in_made out_made err_made (debug_teardown-Emptied s sound))
              λ done h. h
      ])

  -- Count the descriptors, the child and the binary of the interactive session. Behind a request to
  -- start one that gets its three pipes, and with a debug session whose fields are sound, what both
  -- sessions had and what was got are what was given back (closed, waited for, unlinked) and what
  -- they have now, each as often. The same holds for the interactive session behind /irun/input and
  -- /irun/poll. Behind /irun/stop nothing was got, all that the session had has been given back,
  -- and it is not active.
  pub irun-Settled :
      (a : Launch) (d : Drained) (body : List ℕ) (g : Irun) (s : Session W) (i o e : ℕ × ℕ)
      → a.in_pipe ≡ some i
      → a.out_pipe ≡ some o
      → a.err_pipe ≡ some e
      → IsSound s
      → Ensures (BothSettled g s) (handle_irun_start alloc a body g s)
        × Ensures (Settled g) (handle_irun_input alloc body g)
        × Ensures (Settled g) (handle_irun_poll alloc d g)
        × Ensures (GivenBack g) (handle_irun_stop g)
  irun-Settled a d body g s i o e in_made out_made err_made sound = (
    handle_irun_start-BothSettled a body g s i o e in_made out_made err_made sound,
    handle_irun_input-Settled alloc body g,
    handle_irun_poll-Settled alloc d g,
    handle_irun_stop-GivenBack alloc g,
  )
