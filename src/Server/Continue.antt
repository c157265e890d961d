-- ===== src/Server/Continue.antt =====
-- `handle_debug_continue` of src/server.c against presses of the Step button.
use cortex_vm.Prelude.{
  ℕ, zero, suc, ◌≤◌, ◌<◌, ◌≡◌, refl, ap, ◌∙◌, ◌&&◌, if◌then◌else◌, Bool, true, false, List, Result,
  ok, fatal, undefined, diverged, ◌>>=◌, Ensures, Ensures-any, arith,
}
use cortex_vm.Isa.Codes.{pc_reg}
use cortex_vm.Machine.{Vm, Host, Fpu}
use cortex_vm.Assembler.Invariant.{Ensures-if}
use cortex_vm.Step.{step}
use cortex_vm.Server.Session.{
  Session, Stop, halted, limit, at_breakpoint, waiting, among, is_waiting_for_input, session_step,
  press, continue_loop,
}

ap2 : {A B C : Type 0} (f : A → B → C) {a a' : A} {b b' : B} → a ≡ a' → b ≡ b' → f a b ≡ f a' b'
ap2 f e h = rw (e, h) refl

pub Ensures-weaken :
    {A : Type 0} (P Q : A → Type 0) (r : Result A)
    → Ensures P r
    → ((a : A) → P a → Q a)
    → Ensures Q r
Ensures-weaken P Q (ok a) p h = h a p
Ensures-weaken P Q (fatal code) p h = tt
Ensures-weaken P Q undefined p h = tt
Ensures-weaken P Q diverged p h = tt

module _ {W : Type 0} (host : Host W) (fpu : Fpu) (select_empty : Vm W → Bool) where
  -- So many presses, one after the other.
  unfoldable pub presses : ℕ → Session W → Result (Session W)
  unfolding press
  presses zero s = ok s
  presses (suc n) s = press host fpu select_empty s >>= presses n

  -- The session is at a breakpoint and runs.
  abbrev pub is_hit : List ℕ → Session W → Bool
  is_hit bps s = s.running && among (s.vm.regs pc_reg) bps

  -- What holds where the loop has stopped after `n` of `left` steps.
  abbrev pub IsStop : List ℕ → (left n : ℕ) → Session W × Stop → Type 0
  IsStop bps left n (s, halted) = s.running ≡ false
  IsStop bps left n (s, limit) = (s.running ≡ true) × (n ≡ left)
  IsStop bps left n (s, at_breakpoint) = is_hit bps s ≡ true
  IsStop bps left n (s, waiting) = is_waiting_for_input host fpu select_empty s ≡ true

  -- What a run of the loop is: the effect of `n` presses, faults included, of which none but the
  -- last ends at a breakpoint.
  pub record IsRun (bps : List ℕ) (left : ℕ) (s : Session W) (n : ℕ) (r : Result (Session W × Stop))
      : Type 0 where
    pub few : n ≤ left
    pub effect : presses n s ≡ (r >>= λ (t, why). ok t)
    pub stop : Ensures (IsStop bps left n) r
    pub early : (k : ℕ) → 0 < k → k < n → Ensures (λ t. is_hit bps t ≡ false) (presses k s)

  abbrev Run : List ℕ → ℕ → Session W → Result (Session W × Stop) → Type 0
  Run bps left s r = (n : ℕ) × IsRun bps left s n r

  abbrev loop : List ℕ → ℕ → Session W → Result (Session W × Stop)
  loop = continue_loop host fpu select_empty

  abbrev after_step : List ℕ → ℕ → Session W → Result (Session W × Stop)
  after_step bps left t = elim (t.running) [
    | false ↦ ok (t, halted)
    | true ↦ elim (among (t.vm.regs pc_reg) bps) [
      | true ↦ ok (t, at_breakpoint)
      | false ↦ loop bps left t
    ]
  ]

  session_step-active :
      (s : Session W) → Ensures (λ t. t.active ≡ s.active) (session_step host fpu select_empty s)
  unfolding session_step
  session_step-active s =
      Ensures-if (λ t. t.active ≡ s.active) (s.loaded)
        (step host fpu s.file_length s.extensions s.vm >>= λ (still_running, vm).
          ok (record s { vm = vm; running = still_running }))
        undefined
        (Ensures-any (λ t. t.active ≡ s.active) (step host fpu s.file_length s.extensions s.vm)
          (λ (still_running, vm). ok (record s { vm = vm; running = still_running }))
          λ result. refl)
        tt

  press-session_step :
      (s : Session W)
      → s.active ≡ true
      → s.running ≡ true
      → is_waiting_for_input host fpu select_empty s ≡ false
      → press host fpu select_empty s ≡ session_step host fpu select_empty s
  unfolding press
  press-session_step s on runs free = rw (press, on, runs, free) refl

  -- No press.
  no_press :
      (bps : List ℕ) (left : ℕ) (s : Session W) (why : Stop)
      → IsStop bps left 0 (s, why)
      → Run bps left s (ok (s, why))
  unfolding presses
  no_press bps left s why h = (
    0,
    record { few = omega arith; effect = refl; stop = h; early = λ k lo hi. absurd (omega arith) },
  )

  -- One press, and what was made of its result.
  one_press :
      (bps : List ℕ) (left : ℕ) (s : Session W) (q : Result (Session W))
      (r : Result (Session W × Stop))
      → press host fpu select_empty s ≡ q
      → (q >>= presses 0) ≡ (r >>= λ (t, why). ok t)
      → Ensures (IsStop bps (suc left) 1) r
      → Run bps (suc left) s r
  unfolding presses
  one_press bps left s q r e effect h = (
    1,
    record {
      few = omega arith;
      effect = rw (presses, e) effect;
      stop = h;
      early = λ k lo hi. absurd (omega arith);
    },
  )

  Stop-later :
      (bps : List ℕ) (left n : ℕ) (r : Result (Session W × Stop))
      → Ensures (IsStop bps left n) r
      → Ensures (IsStop bps (suc left) (suc n)) r
  Stop-later bps left n (ok (s, halted)) h = h
  Stop-later bps left n (ok (s, limit)) (runs, all) = (runs, ap suc all)
  Stop-later bps left n (ok (s, at_breakpoint)) h = h
  Stop-later bps left n (ok (s, waiting)) h = h
  Stop-later bps left n (fatal code) h = tt
  Stop-later bps left n undefined h = tt
  Stop-later bps left n diverged h = tt

  -- A press in front of a run.
  press_first :
      (bps : List ℕ) (left : ℕ) (s t : Session W) (r : Result (Session W × Stop))
      → press host fpu select_empty s ≡ ok t
      → is_hit bps t ≡ false
      → Run bps left t r
      → Run bps (suc left) s r
  unfolding presses
  press_first bps left s t r e miss (n, run) = (
    suc n,
    record {
      few = omega (arith, run.few);
      effect = rw (presses, e) run.effect;
      stop = Stop-later bps left n r run.stop;
      early = elim [
        | zero ↦ λ lo hi. absurd (omega arith)
        | suc zero ↦ λ lo hi. rw (presses, e) miss
        | suc (suc k) ↦ λ lo hi. rw (presses, e) (run.early (suc k) (omega arith) (omega arith))
      ];
    },
  )

  module _ (bps : List ℕ) (left : ℕ) (s : Session W) where
    -- One step, and the two tests behind it.
    by_hit :
        (t : Session W) (hit : Bool)
        → press host fpu select_empty s ≡ ok t
        → t.running ≡ true
        → among (t.vm.regs pc_reg) bps ≡ hit
        → Run bps left t (loop bps left t)
        → Run bps (suc left) s (elim hit [ true ↦ ok (t, at_breakpoint) | false ↦ loop bps left t ])
    unfolding presses
    by_hit t true e runs hit later =
        one_press bps left s (ok t) (ok (t, at_breakpoint)) e refl (ap2 ◌&&◌ runs hit)
    by_hit t false e runs miss later =
        press_first bps left s t (loop bps left t) e (ap2 ◌&&◌ runs miss) later

    by_running :
        (t : Session W) (on : Bool)
        → press host fpu select_empty s ≡ ok t
        → t.running ≡ on
        → Run bps left t (loop bps left t)
        → Run bps (suc left) s (elim on [
          | false ↦ ok (t, halted)
          | true ↦ elim (among (t.vm.regs pc_reg) bps) [
            | true ↦ ok (t, at_breakpoint)
            | false ↦ loop bps left t
          ]
        ])
    unfolding presses
    by_running t false e halts later = one_press bps left s (ok t) (ok (t, halted)) e refl halts
    by_running t true e runs later = by_hit t (among (t.vm.regs pc_reg) bps) e runs refl later

    take_step :
        (q : Result (Session W))
        → press host fpu select_empty s ≡ q
        → Ensures (λ t. t.active ≡ true) q
        → ((t : Session W) → t.active ≡ true → Run bps left t (loop bps left t))
        → Run bps (suc left) s (q >>= after_step bps left)
    unfolding presses
    take_step (ok t) e on later = by_running t (t.running) e refl (later t on)
    take_step (fatal code) e on later = one_press bps left s (fatal code) (fatal code) e refl tt
    take_step undefined e on later = one_press bps left s undefined undefined e refl tt
    take_step diverged e on later = one_press bps left s diverged diverged e refl tt

    by_waiting :
        (waits : Bool)
        → s.active ≡ true
        → s.running ≡ true
        → is_waiting_for_input host fpu select_empty s ≡ waits
        → ((t : Session W) → t.active ≡ true → Run bps left t (loop bps left t))
        → Run bps (suc left) s (elim waits [
          | true ↦ ok (s, waiting)
          | false ↦ session_step host fpu select_empty s >>= after_step bps left
        ])
    by_waiting true on runs waits later = no_press bps (suc left) s waiting waits
    by_waiting false on runs free later =
        take_step (session_step host fpu select_empty s) (press-session_step s on runs free)
          (Ensures-weaken (λ t. t.active ≡ s.active) (λ t. t.active ≡ true)
            (session_step host fpu select_empty s) (session_step-active s) λ t same. same ∙ on)
          later

    by_state :
        (running : Bool)
        → s.active ≡ true
        → s.running ≡ running
        → ((t : Session W) → t.active ≡ true → Run bps left t (loop bps left t))
        → Run bps (suc left) s (elim running [
          | false ↦ ok (s, halted)
          | true ↦ elim (is_waiting_for_input host fpu select_empty s) [
            | true ↦ ok (s, waiting)
            | false ↦ session_step host fpu select_empty s >>= after_step bps left
          ]
        ])
    by_state false on halts later = no_press bps (suc left) s halted halts
    by_state true on runs later =
        by_waiting (is_waiting_for_input host fpu select_empty s) on runs refl later

  at_limit :
      (bps : List ℕ) (s : Session W) (running : Bool)
      → s.running ≡ running
      → Run bps zero s (ok (s, if running then limit else halted))
  at_limit bps s true runs = no_press bps zero s limit (runs, refl)
  at_limit bps s false halts = no_press bps zero s halted halts

  -- For an active session and whatever the breakpoints and the limit are, a run of the loop of
  -- `handle_debug_continue` comes to what so many presses of Step do, at most the limit, faults of
  -- `step` included. It stops because the machine halted, waits for input or is at a breakpoint and
  -- runs, or after all the steps of the limit; none of the presses before the last ends at a
  -- breakpoint.
  pub continue_loop-IsRun :
      (bps : List ℕ) (left : ℕ) (s : Session W)
      → s.active ≡ true
      → (n : ℕ) × IsRun bps left s n (continue_loop host fpu select_empty bps left s)
  unfolding continue_loop
  continue_loop-IsRun bps zero s on = at_limit bps s (s.running) refl
  continue_loop-IsRun bps (suc left) s on =
      by_state bps left s (s.running) on refl λ t still. continue_loop-IsRun bps left t still
