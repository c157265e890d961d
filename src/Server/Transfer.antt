-- ===== src/Server/Transfer.antt =====
-- `write_all` of src/server.c, and what it makes of the answers of `write`.
use cortex_vm.Prelude.{
  ℕ, zero, suc, ◌+◌, ◌≤◌, ◌≡◌, refl, sym, ap, ◌∙◌, List, [], ◌∷◌, ◌++◌, length, Result, ok,
  diverged, ◌>>=◌, Ensures, Ensures-bind, Ensures-ok, arith,
}
use cortex_vm.Server.Text.{take}
use cortex_vm.Server.Session.{skip}
use cortex_vm.Server.Cuts.{take_nil, take-add, take-enough, length-skip}

-- What `write` answers: so many of the bytes that it is given, `EINTR`, or another error.
pub data Answer : Type 0 where
  written : ℕ → Answer
  interrupted : Answer
  failed : Answer

-- The bytes that are written. A `write` that never answers keeps the loop.
unfoldable pub write_all : List Answer → (buf : List ℕ) → Result (List ℕ)
unfolding take skip
write_all answers [] = ok []
write_all [] (c ∷ buf) = diverged
write_all (interrupted ∷ answers) (c ∷ buf) = write_all answers (c ∷ buf)
write_all (failed ∷ answers) (c ∷ buf) = ok []
write_all (written zero ∷ answers) (c ∷ buf) = ok []
write_all (written (suc n) ∷ answers) (c ∷ buf) =
    write_all answers (skip n buf) >>= λ rest. ok (c ∷ (take n buf ++ rest))

-- How many bytes the answers allow before the first error.
unfoldable pub allowed : List Answer → ℕ
allowed [] = 0
allowed (interrupted ∷ answers) = allowed answers
allowed (failed ∷ answers) = 0
allowed (written zero ∷ answers) = 0
allowed (written (suc n) ∷ answers) = suc (n + allowed answers)

-- What is written is what the answers allow.
write_all-allowed :
    (answers : List Answer) (buf : List ℕ)
    → Ensures (λ sent. sent ≡ take (allowed answers) buf) (write_all answers buf)
unfolding write_all allowed take
write_all-allowed [] [] = refl
write_all-allowed [] (c ∷ buf) = tt
write_all-allowed (a ∷ answers) [] = sym (take_nil (allowed (a ∷ answers)))
write_all-allowed (interrupted ∷ answers) (c ∷ buf) = write_all-allowed answers (c ∷ buf)
write_all-allowed (failed ∷ answers) (c ∷ buf) = refl
write_all-allowed (written zero ∷ answers) (c ∷ buf) = refl
write_all-allowed (written (suc n) ∷ answers) (c ∷ buf) =
    Ensures-bind (λ sent. sent ≡ take (allowed answers) (skip n buf)) _
      (write_all answers (skip n buf)) _ (write_all-allowed answers (skip n buf))
      (λ rest h. ap (λ t. c ∷ t) (rw h (sym (take-add n (allowed answers) buf))))

-- Answers that allow the whole text end the loop, and write it.
write_all-ends :
    (answers : List Answer) (buf : List ℕ)
    → length buf ≤ allowed answers
    → (sent : List ℕ) × (write_all answers buf ≡ ok sent)
unfolding write_all allowed
write_all-ends answers [] h = ([], refl)
write_all-ends [] (c ∷ buf) h = absurd (omega arith)
write_all-ends (interrupted ∷ answers) (c ∷ buf) h = write_all-ends answers (c ∷ buf) h
write_all-ends (failed ∷ answers) (c ∷ buf) h = absurd (omega arith)
write_all-ends (written zero ∷ answers) (c ∷ buf) h = absurd (omega arith)
write_all-ends (written (suc n) ∷ answers) (c ∷ buf) h =
    let (rest, e) = write_all-ends answers (skip n buf) (omega (arith, h, length-skip n buf)) in
    (c ∷ (take n buf ++ rest), rw e refl)

-- If what `write` takes before its first error other than EINTR is as long as the text, `write_all`
-- writes just the text, in however many pieces and with however many interruptions.
pub write_all-delivers :
    (answers : List Answer) (buf : List ℕ)
    → length buf ≤ allowed answers
    → write_all answers buf ≡ ok buf
write_all-delivers answers buf h =
    let (sent, e) = write_all-ends answers buf h in
    e
    ∙ ap ok (
        Ensures-ok (λ s. s ≡ take (allowed answers) buf) (write_all answers buf) sent
          (write_all-allowed answers buf) e
        ∙ take-enough (allowed answers) buf h)
