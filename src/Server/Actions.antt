-- ===== src/Server/Actions.antt =====
-- Lists of descriptors that the handlers of src/server.c open and close.
use cortex_vm.Prelude.{
  ℕ, ◌+◌, ◌≡◌, refl, Bool, true, false, if◌then◌else◌, not, Option, none, some, List, [], ◌∷◌, ◌++◌,
  arith, Ensures,
}
use cortex_vm.Assembler.Invariant.{Ensures-elim}
use cortex_vm.Server.Handles.{
  Action, opened, closed, close, opened_dup, Capture, captured, Assembling, brief, argv_actions,
  assembling,
}
use cortex_vm.Server.Requests.{count, all_opened, all_closed, maybe}

pub opened-append :
    (fd : ℕ) (acts more : List Action)
    → count fd (all_opened (acts ++ more)) ≡ count fd (all_opened acts) + count fd (all_opened more)
opened-append fd [] more = omega arith
opened-append fd (opened e ∷ acts) more = ground (arith, opened-append fd acts more)
opened-append fd (closed e ∷ acts) more = opened-append fd acts more

pub closed-append :
    (fd : ℕ) (acts more : List Action)
    → count fd (all_closed (acts ++ more)) ≡ count fd (all_closed acts) + count fd (all_closed more)
closed-append fd [] more = omega arith
closed-append fd (opened e ∷ acts) more = closed-append fd acts more
closed-append fd (closed e ∷ acts) more = ground (arith, closed-append fd acts more)

pub pipe_opened :
    (fd rd wr : ℕ) (dup : Option ℕ)
    → count fd (all_opened (opened rd ∷ opened wr ∷ opened_dup dup))
      ≡ count fd (maybe (some wr) ++ maybe dup ++ maybe (some rd))
pipe_opened fd rd wr none = ground arith
pipe_opened fd rd wr (some e) = ground arith

pub pipe_closed :
    (fd rd wr : ℕ) (dup : Option ℕ)
    → count fd (all_closed (opened rd ∷ opened wr ∷ opened_dup dup)) ≡ 0
pipe_closed fd rd wr none = refl
pipe_closed fd rd wr (some e) = refl

pub if-idle : (b : Bool) (xs : List ℕ) → not b ≡ true → (if b then xs else []) ≡ []
if-idle true xs e = cc
if-idle false xs e = refl

pub if-on : (b : Bool) (xs : List ℕ) → b ≡ true → (if b then xs else []) ≡ xs
if-on true xs e = refl
if-on false xs e = cc

-- A session's three descriptors.
pub count_three :
    (fd : ℕ) (a b c : Option ℕ)
    → count fd (all_closed (close a ++ close b ++ close c))
      ≡ count fd (maybe a ++ maybe b ++ maybe c)
count_three fd none none none = refl
count_three fd none none (some z) = refl
count_three fd none (some y) none = refl
count_three fd none (some y) (some z) = refl
count_three fd (some x) none none = refl
count_three fd (some x) none (some z) = refl
count_three fd (some x) (some y) none = refl
count_three fd (some x) (some y) (some z) = refl

pub no_three :
    (fd : ℕ) (a b c : Option ℕ) → count fd (all_opened (close a ++ close b ++ close c)) ≡ 0
no_three fd none none none = refl
no_three fd none none (some z) = refl
no_three fd none (some y) none = refl
no_three fd none (some y) (some z) = refl
no_three fd (some x) none none = refl
no_three fd (some x) none (some z) = refl
no_three fd (some x) (some y) none = refl
no_three fd (some x) (some y) (some z) = refl

-- As many descriptors are closed as are opened.
abbrev pub Level : List Action → Type 0
Level acts = (fd : ℕ) → count fd (all_opened acts) ≡ count fd (all_closed acts)

Level-append : (acts more : List Action) → Level acts → Level more → Level (acts ++ more)
Level-append acts more h h' fd =
    omega (arith, h fd, h' fd, opened-append fd acts more, closed-append fd acts more)

brief-Level : (fds : Option ℕ) → Level (brief fds)
brief-Level none fd = refl
brief-Level (some e) fd = refl

capture-Level :
    (tmpf : ℕ) (saved : Option ℕ)
    → Level (opened tmpf ∷ (opened_dup saved ++ (close saved ++ (closed tmpf ∷ []))))
capture-Level tmpf none fd = refl
capture-Level tmpf (some e) fd = ground arith

pub captured-Level : (c : Option Capture) → Ensures Level (captured c)
unfolding captured
captured-Level none = tt
captured-Level (some c) = capture-Level c.tmpf c.saved

count_cons : (fd e : ℕ) (fds : List ℕ) → count fd (e ∷ fds) ≡ count fd (e ∷ []) + count fd fds
count_cons fd e fds = ground arith

-- The same four, in another order.
count_four : (fd a b c d : ℕ) → count fd (a ∷ b ∷ c ∷ d ∷ []) ≡ count fd (b ∷ d ∷ a ∷ c ∷ [])
count_four fd a b c d = omega (
  arith,
  count_cons fd a (b ∷ c ∷ d ∷ []),
  count_cons fd b (c ∷ d ∷ []),
  count_cons fd c (d ∷ []),
  count_cons fd b (d ∷ a ∷ c ∷ []),
  count_cons fd d (a ∷ c ∷ []),
  count_cons fd a (c ∷ []),
)

argv_actions-Level : (out err : ℕ × ℕ) (devnull : Option ℕ) → Level (argv_actions out err devnull)
unfolding argv_actions
argv_actions-Level (a, b) (c, d) devnull fd =
    let opens = opened a ∷ opened b ∷ opened c ∷ opened d ∷ [] in
    let closes = closed b ∷ closed d ∷ closed a ∷ closed c ∷ [] in
    omega (
      arith,
      count_four fd a b c d,
      opened-append fd opens (brief devnull ++ closes),
      closed-append fd opens (brief devnull ++ closes),
      opened-append fd (brief devnull) closes,
      closed-append fd (brief devnull) closes,
      brief-Level devnull fd,
    )

pub assembling-Level : (a : Assembling) → Ensures Level (assembling a)
unfolding assembling
assembling-Level a = Ensures-elim Level a.out_fds _ _ tt λ out.
    Ensures-elim Level a.err_fds _ _ tt λ err.
      Level-append (brief a.binfd) _ (brief-Level a.binfd) (
        Level-append (brief a.tmpfd) _ (brief-Level a.tmpfd) (argv_actions-Level out err a.devnull))
