-- ===== src/Server/Holdings.antt =====
-- What the server has of the system for its sessions in src/server.c: what effects get and give
-- back of it.
use cortex_vm.Prelude.{
  ℕ, ◌+◌, ◌≡◌, refl, sym, ap, ◌∙◌, ◌==◌, not, if◌then◌else◌, Bool, true, false, Option, none, some,
  List, [], ◌∷◌, ◌++◌, arith,
}
use mathlib.Core.Bool.{false≢true}
use cortex_vm.Server.Fields.{same_text}
use cortex_vm.Server.Handles.{Action, opened, closed}
use cortex_vm.Server.Session.{Session}
use cortex_vm.Server.Requests.{count, all_opened, all_closed, held}
use cortex_vm.Server.Actions.{Level}
use cortex_vm.Server.Teardown.{Emptied}
use cortex_vm.Server.Interactive.{
  Irun, Resource, descriptor, process, file, Effect, gained, lost, killed, written, of_actions,
  kill_effects, close_effects, unlink_effects, await_effects, Handled, idle_irun, irun_cleanup,
}

-- 1 for the same resource.
abbrev pub one : Resource → Resource → ℕ
one (descriptor a) (descriptor b) = if a == b then 1 else 0
one (process a) (process b) = if a == b then 1 else 0
one (file p) (file q) = if same_text p q then 1 else 0
one _ _ = 0

-- How often a resource is got, and given back.
abbrev pub gains : Resource → List Effect → ℕ
gains r [] = 0
gains r (gained x ∷ effects) = one r x + gains r effects
gains r (lost x ∷ effects) = gains r effects
gains r (killed pid ∷ effects) = gains r effects
gains r (written fd bytes ∷ effects) = gains r effects

abbrev pub losses : Resource → List Effect → ℕ
losses r [] = 0
losses r (gained x ∷ effects) = losses r effects
losses r (lost x ∷ effects) = one r x + losses r effects
losses r (killed pid ∷ effects) = losses r effects
losses r (written fd bytes ∷ effects) = losses r effects

abbrev pub has : {A : Type 0} → (A → Resource) → Resource → Option A → ℕ
has kind r none = 0
has kind r (some x) = one r (kind x)

-- How often a resource is one of the session.
abbrev pub of_irun : Resource → Irun → ℕ
of_irun r g =
    if g.active
    then has process r g.pid
      + (has descriptor r g.stdin_wr
          + (has descriptor r g.stdout_rd + (has descriptor r g.stderr_rd + has file r g.binpath)))
    else 0

abbrev pub of_debug : {W : Type 0} → Resource → Session W → ℕ
of_debug (descriptor fd) s = count fd (held s)
of_debug _ s = 0

-- What was got has been given back or belongs to the session.
abbrev pub Settled : Irun → Handled → Type 0
Settled g (effects, (reply, g')) =
    (r : Resource) → gains r effects + of_irun r g ≡ losses r effects + of_irun r g'

-- The same for both sessions.
abbrev pub BothSettled : {W : Type 0} → Irun → Session W → Handled × Session W → Type 0
BothSettled g s ((effects, (reply, g')), s') =
    (r : Resource)
    → gains r effects + of_irun r g + of_debug r s ≡ losses r effects + of_irun r g' + of_debug r s'

-- All that belonged to the session has been given back.
abbrev pub GivenBack : Irun → Handled → Type 0
GivenBack g (effects, (reply, g')) =
    (g'.active ≡ false)
    × ((r : Resource) → (gains r effects ≡ 0) × (losses r effects ≡ of_irun r g))

pub gains-append :
    (r : Resource) (xs ys : List Effect) → gains r (xs ++ ys) ≡ gains r xs + gains r ys
gains-append r [] ys = omega arith
gains-append r (gained x ∷ xs) ys = omega (arith, gains-append r xs ys)
gains-append r (lost x ∷ xs) ys = gains-append r xs ys
gains-append r (killed pid ∷ xs) ys = gains-append r xs ys
gains-append r (written fd bytes ∷ xs) ys = gains-append r xs ys

pub losses-append :
    (r : Resource) (xs ys : List Effect) → losses r (xs ++ ys) ≡ losses r xs + losses r ys
losses-append r [] ys = omega arith
losses-append r (gained x ∷ xs) ys = losses-append r xs ys
losses-append r (lost x ∷ xs) ys = omega (arith, losses-append r xs ys)
losses-append r (killed pid ∷ xs) ys = losses-append r xs ys
losses-append r (written fd bytes ∷ xs) ys = losses-append r xs ys

-- What effects only give back.
unfoldable pub GivesBack : Resource → ℕ → List Effect → Type 0
GivesBack r n effects = (gains r effects ≡ 0) × (losses r effects ≡ n)

gives-append :
    (r : Resource) (n m : ℕ) (xs ys : List Effect)
    → GivesBack r n xs
    → GivesBack r m ys
    → GivesBack r (n + m) (xs ++ ys)
unfolding GivesBack
gives-append r n m xs ys h h' = (
  omega (arith, gains-append r xs ys, h.0, h'.0),
  omega (arith, losses-append r xs ys, h.1, h'.1),
)

kill_gives : (r : Resource) (pid : Option ℕ) → GivesBack r (has process r pid) (kill_effects pid)
unfolding GivesBack
kill_gives r none = (refl, refl)
kill_gives r (some pid) = (refl, omega arith)

pub await_gives :
    (r : Resource) (pid : Option ℕ) → GivesBack r (has process r pid) (await_effects pid)
unfolding GivesBack
await_gives r none = (refl, refl)
await_gives r (some pid) = (refl, omega arith)

close_gives : (r : Resource) (fd : Option ℕ) → GivesBack r (has descriptor r fd) (close_effects fd)
unfolding GivesBack
close_gives r none = (refl, refl)
close_gives r (some fd) = (refl, omega arith)

unlink_gives :
    (r : Resource) (path : Option (List ℕ)) → GivesBack r (has file r path) (unlink_effects path)
unfolding GivesBack
unlink_gives r none = (refl, refl)
unlink_gives r (some path) = (refl, omega arith)

-- A cleanup gives back what the session has, and leaves a session that is not active.
by_active :
    (r : Resource) (on : Bool) (n : ℕ) (g : Irun) (effects : List Effect)
    → g.active ≡ on
    → GivesBack r n effects
    → let cleaned : List Effect × Irun = (if not on then ([], g) else (effects, idle_irun)) in
      (cleaned.1.active ≡ false) × GivesBack r (if on then n else 0) cleaned.0
unfolding GivesBack
by_active r true n g effects e h = (refl, h)
by_active r false n g effects e h = (e, (refl, refl))

pub irun_cleanup-gives :
    (r : Resource) (g : Irun)
    → ((irun_cleanup g).1.active ≡ false) × GivesBack r (of_irun r g) (irun_cleanup g).0
unfolding irun_cleanup
irun_cleanup-gives r g = by_active r g.active _ g _ refl (
    gives-append r _ _ _ _ (kill_gives r g.pid) (
      gives-append r _ _ _ _ (close_gives r g.stdin_wr) (
        gives-append r _ _ _ _ (close_gives r g.stdout_rd)
          (gives-append r _ _ _ _ (close_gives r g.stderr_rd) (unlink_gives r g.binpath)))))

pub not_active :
    (r : Resource) (g : Irun) (on : Bool) → g.active ≡ on → on ≡ false → of_irun r g ≡ 0
not_active r g true e off = absurd (false≢true (sym off))
not_active r g false e off = cc

cons_one :
    (fd e : ℕ) (fds : List ℕ)
    → count fd (e ∷ fds) ≡ one (descriptor fd) (descriptor e) + count fd fds
cons_one fd e fds = ground arith

gains-of_actions :
    (fd : ℕ) (acts : List Action)
    → gains (descriptor fd) (of_actions acts) ≡ count fd (all_opened acts)
gains-of_actions fd [] = refl
gains-of_actions fd (opened e ∷ acts) =
    omega (arith, cons_one fd e (all_opened acts), gains-of_actions fd acts)
gains-of_actions fd (closed e ∷ acts) = gains-of_actions fd acts

losses-of_actions :
    (fd : ℕ) (acts : List Action)
    → losses (descriptor fd) (of_actions acts) ≡ count fd (all_closed acts)
losses-of_actions fd [] = refl
losses-of_actions fd (opened e ∷ acts) = losses-of_actions fd acts
losses-of_actions fd (closed e ∷ acts) =
    omega (arith, cons_one fd e (all_closed acts), losses-of_actions fd acts)

-- Actions are of descriptors only.
other_actions :
    (pid : ℕ) (acts : List Action)
    → (gains (process pid) (of_actions acts) ≡ 0) × (losses (process pid) (of_actions acts) ≡ 0)
other_actions pid [] = (refl, refl)
other_actions pid (opened e ∷ acts) = let (a, b) = other_actions pid acts in (omega (arith, a), b)
other_actions pid (closed e ∷ acts) = let (a, b) = other_actions pid acts in (a, omega (arith, b))

file_actions :
    (path : List ℕ) (acts : List Action)
    → (gains (file path) (of_actions acts) ≡ 0) × (losses (file path) (of_actions acts) ≡ 0)
file_actions path [] = (refl, refl)
file_actions path (opened e ∷ acts) = let (a, b) = file_actions path acts in (omega (arith, a), b)
file_actions path (closed e ∷ acts) = let (a, b) = file_actions path acts in (a, omega (arith, b))

pub Level-even :
    (r : Resource) (acts : List Action)
    → Level acts
    → gains r (of_actions acts) ≡ losses r (of_actions acts)
Level-even (descriptor fd) acts level =
    gains-of_actions fd acts ∙ level fd ∙ sym (losses-of_actions fd acts)
Level-even (process pid) acts level = let (a, b) = other_actions pid acts in a ∙ sym b
Level-even (file path) acts level = let (a, b) = file_actions path acts in a ∙ sym b

pub Emptied-gives :
    {W : Type 0} (r : Resource) (s t : Session W) (acts : List Action)
    → Emptied s acts t
    → GivesBack r (of_debug r s) (of_actions acts) × (of_debug r t ≡ 0)
unfolding GivesBack
Emptied-gives (descriptor fd) s t acts e = (
  (gains-of_actions fd acts ∙ e.no_opened fd, losses-of_actions fd acts ∙ e.all_closed_held fd),
  ap (count fd) e.nothing,
)
Emptied-gives (process pid) s t acts e = (other_actions pid acts, refl)
Emptied-gives (file path) s t acts e = (file_actions path acts, refl)
