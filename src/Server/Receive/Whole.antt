-- ===== src/Server/Receive/Whole.antt =====
-- What `read_request` of src/server.c takes from the connection.
use cortex_vm.Prelude.{
  ℕ, suc, ◌+◌, ◌-◌, ◌^◌, ◌≤◌, ◌<◌, ◌≡◌, ◌⊎◌, inl, inr, refl, sym, ap, ◌∙◌, ltb, leb, if◌then◌else◌,
  Bool, true, false, Option, none, some, List, [], ◌∷◌, ◌++◌, ◌||◌, map, codes, length,
  length-append, append_assoc, append-nil, Result, ok, undefined, ◌>>=◌, arith, Bool-cases,
  Option-cases,
}
use cortex_vm.Word.{word_mod, u64, sub64}
use cortex_vm.Assembler.Immediate.{strtoll}
use cortex_vm.Server.Text.{find}
use cortex_vm.Server.Grow.{Refused}
use cortex_vm.Server.Receive.{
  lower, blank_line, atoi, content_length, header_length, is_positive, Head, read_some, body_loop,
  head_loop, receive_body, receive, read_request,
}
use cortex_vm.Server.Receive.Blank.{
  Stored, nothing, more, read_some-Stored, Ended, inside_sent, Stopped, HeadGot, dropped, stopped,
  read_on, ended, head_loop-HeadGot,
}

header_length-most : (buf : List ℕ) → header_length buf ≤ length buf
unfolding header_length
header_length-most buf = elim (Option-cases (find blank_line buf)) [
  | inl h ↦ rw (header_length, h) (omega arith)
  | inr (behind, h) ↦ rw (header_length, h) (omega arith)
]

-- The first loop has read all that was sent: the second reads nothing more.
all_read :
    {P : Type 0} (head pending buf body rest sent : List ℕ)
    → pending ≡ []
    → head ++ pending ≡ sent
    → buf ++ rest ≡ sent
    → head ++ body ≡ buf
    → (rest ≡ []) ⊎ P
all_read head pending buf body [] sent e h h' grows = inl refl
all_read head pending buf body (c ∷ rest) sent e h h' grows = absurd (
    omega (
      arith,
      ap length h,
      ap length h',
      ap length grows,
      ap length e,
      length-append head pending,
      length-append head body,
      length-append buf (c ∷ rest),
    ))

-- `atoi` returns unless its value is no `int`.
data IntGot : Result ℕ → Type 0 where
  int : (v : ℕ) → IntGot (ok v)
  too_large : IntGot undefined

in_int : (b : Bool) (v : ℕ) → IntGot (if b then ok v else undefined)
in_int true v = int v
in_int false v = too_large

atoi-IntGot : (value : List ℕ) → IntGot (atoi value)
unfolding atoi
atoi-IntGot value =
    in_int (ltb (strtoll value).0 (2 ^ 31) || leb (word_mod - 2 ^ 31) (strtoll value).0)
      (strtoll value).0

content_length-IntGot : (buf : List ℕ) → IntGot (content_length buf)
unfolding content_length
content_length-IntGot buf = elim (Option-cases (find (codes "content-length:") (map lower buf))) [
  | inl h ↦ rw (content_length, h) (int 0)
  | inr (value, h) ↦ rw (content_length, h) (atoi-IntGot value)
]

module _ (alloc : ℕ → Bool) (sent : List ℕ) (rounds : ℕ) where
  data BodyGot (head : List ℕ) (all : ℕ) : Result (List ℕ) → Type 0 where
    got :
        (buf rest : List ℕ)
        → buf ++ rest ≡ sent
        → ((behind : List ℕ) × (head ++ behind ≡ buf))
        → Ended alloc sent rounds rest ⊎ (all ≤ length buf)
        → BodyGot head all (ok buf)

  -- In front of a read of the body.
  record Rest (head : List ℕ) (hdr clen cap have left : ℕ) (buf pending : List ℕ) : Type 0 where
    counts : hdr + have ≡ length buf
    fits : hdr + clen < cap
    small : cap < 2 ^ 64
    splits : buf ++ pending ≡ sent
    grows : (behind : List ℕ) × (head ++ behind ≡ buf)
    counted : Ended alloc sent rounds pending ⊎ (rounds ≤ length buf + left)

  last_read :
      (buf pending : List ℕ)
      → buf ++ pending ≡ sent
      → Ended alloc sent rounds pending ⊎ (rounds ≤ length buf + 0)
      → Ended alloc sent rounds pending
  last_read buf pending h (inl over) = over
  last_read buf pending h (inr few) = ended alloc sent rounds buf pending h (omega arith)

  -- A read that gave bytes was not behind the end.
  still :
      (buf pending rest chunk : List ℕ) (c left : ℕ)
      → (c ∷ chunk) ++ rest ≡ pending
      → Ended alloc sent rounds pending ⊎ (rounds ≤ length buf + suc left)
      → Ended alloc sent rounds rest ⊎ (rounds ≤ length (buf ++ (c ∷ chunk)) + left)
  still buf pending rest chunk c left h (inl (inl none_left)) =
      absurd (omega (arith, ap length h, ap length none_left))
  still buf pending rest chunk c left h (inl (inr late)) = inl (inr late)
  still buf pending rest chunk c left h (inr few) =
      inr (omega (arith, length-append buf (c ∷ chunk)))

  next_body :
      (head : List ℕ) (hdr clen cap have : ℕ) (reads buf pending : List ℕ)
      → have < clen
      → Rest head hdr clen cap have (suc (length reads)) buf pending
      → (r : Result (Option (List ℕ × List ℕ))) → Stored cap buf pending r
      → ((have' : ℕ) (buf' pending' : List ℕ)
          → Rest head hdr clen cap have' (length reads) buf' pending'
          → BodyGot head (hdr + clen) (body_loop reads cap have' clen buf' pending'))
      → BodyGot head (hdr + clen) (
          r >>= λ got. elim got [
            | none ↦ ok buf
            | some (buf', pending') ↦
                body_loop reads cap (have + (length buf' - length buf)) clen buf' pending'
          ])
  next_body head hdr clen cap have reads buf pending less s r (nothing none_left) next =
      got buf pending s.splits s.grows (inl (inl none_left))
  next_body head hdr clen cap have reads buf pending less s r (more c chunk rest h room) next =
      let (behind, e) = s.grows in
      next (have + (length (buf ++ (c ∷ chunk)) - length buf)) (buf ++ (c ∷ chunk)) rest (record {
        counts = omega (arith, s.counts, length-append buf (c ∷ chunk));
        fits = s.fits;
        small = s.small;
        splits = read_on alloc sent rounds buf (c ∷ chunk) rest pending h s.splits;
        grows = (
          behind ++ (c ∷ chunk),
          sym (append_assoc head behind (c ∷ chunk)) ∙ ap (λ t. t ++ (c ∷ chunk)) e,
        );
        counted = still buf pending rest chunk c (length reads) h s.counted;
      })

  body_loop-BodyGot :
      (reads : List ℕ) (head : List ℕ) (hdr clen cap have : ℕ) (buf pending : List ℕ)
      → Rest head hdr clen cap have (length reads) buf pending
      → BodyGot head (hdr + clen) (body_loop reads cap have clen buf pending)
  unfolding body_loop
  body_loop-BodyGot [] head hdr clen cap have buf pending s =
      got buf pending s.splits s.grows (inl (last_read buf pending s.splits s.counted))
  body_loop-BodyGot (r ∷ reads) head hdr clen cap have buf pending s =
      elim (Bool-cases (ltb have clen)) [
        | inr enough ↦
            rw (body_loop, enough)
              (got buf pending s.splits s.grows (inr (ground (arith, s.counts))))
        | inl less ↦
            rw (body_loop, less)
              (next_body head hdr clen cap have reads buf pending (ground arith) s
                (read_some r cap buf pending)
                (read_some-Stored r cap buf pending (ground (arith, s.counts, s.fits)) s.small)
                (λ have' buf' pending'.
                  body_loop-BodyGot reads head hdr clen cap have' buf' pending'))
      ]

  -- A request to its blank line, and the body with the length that the part up to there gives.
  pub record IsWhole (buf : List ℕ) : Type 0 where
    pub head : List ℕ
    pub body : List ℕ
    pub splits : head ++ body ≡ buf
    pub blank : (behind : List ℕ) × (find blank_line head ≡ some behind)
    pub clen : ℕ
    pub is_clen : content_length head ≡ ok clen
    pub enough : (is_positive clen ≡ false) ⊎ (header_length head + clen ≤ length buf)

  -- What comes of a connection from which there is something to read.
  pub data Inbound : Result (Option (List ℕ)) → Type 0 where
    no_memory : Refused alloc → Inbound (ok none)
    no_int :
        (head rest : List ℕ)
        → head ++ rest ≡ sent
        → content_length head ≡ undefined
        → Inbound undefined
    inbound :
        (buf rest : List ℕ)
        → buf ++ rest ≡ sent
        → Ended alloc sent rounds rest ⊎ IsWhole buf
        → Inbound (ok (some buf))

  body_received :
      (h : Head) (clen : ℕ) (r : Result (List ℕ))
      → Stopped alloc sent rounds h
      → content_length h.buf ≡ ok clen
      → BodyGot h.buf (header_length h.buf + clen) r
      → Inbound (r >>= λ buf. ok (some buf))
  body_received h clen r s e (got buf rest splits (body, grows) (inl over)) =
      inbound buf rest splits (inl over)
  body_received h clen r s e (got buf rest splits (body, grows) (inr enough)) =
      inbound buf rest splits (elim s.reason [
        | inr blank ↦ inr (record {
          head = h.buf;
          body = body;
          splits = grows;
          blank = blank;
          clen = clen;
          is_clen = e;
          enough = inr enough;
        })
        | inl (inl none_left) ↦
            inl (all_read h.buf h.pending buf body rest sent none_left s.splits splits grows)
        | inl (inr late) ↦ inl (inr late)
      ])

  receive_body-Inbound :
      (h : Head) (clen : ℕ)
      → length sent < 2 ^ 60
      → Stopped alloc sent rounds h
      → content_length h.buf ≡ ok clen
      → clen < 2 ^ 31
      → Inbound (receive_body alloc h clen)
  unfolding receive_body
  receive_body-Inbound h clen small s e int_size =
      let hdr = header_length h.buf in
      let most = header_length-most h.buf in
      let within = inside_sent alloc sent rounds h.buf h.pending s.splits in
      let have : sub64 (length h.buf) hdr ≡ length h.buf - hdr = omega arith in
      let need : u64 (u64 (hdr + clen) + 1) ≡ hdr + clen + 1 = omega arith in
      let from : (cap : ℕ)
          → hdr + clen < cap
          → cap < 2 ^ 64
          → Inbound (
              body_loop h.reads cap (length h.buf - hdr) clen h.buf h.pending >>= λ buf.
              ok (some buf)) =
        λ cap fits low. body_received h clen _ s e (
          body_loop-BodyGot h.reads h.buf hdr clen cap (length h.buf - hdr) h.buf h.pending
            (record {
              counts = omega arith;
              fits = fits;
              small = low;
              splits = s.splits;
              grows = ([], append-nil h.buf);
              counted = s.counted;
            })) in
      rw (have, need)
        (elim (Bool-cases (ltb h.cap (hdr + clen + 1))) [
          | inl larger ↦ rw larger (elim (Bool-cases (alloc (hdr + clen + 1))) [
            | inl granted ↦ rw granted (from (hdr + clen + 1) (omega arith) (omega arith))
            | inr not_granted ↦ rw not_granted (no_memory (hdr + clen + 1, not_granted))
          ])
          | inr enough ↦ rw enough (from h.cap (ground arith) (omega (arith, s.small)))
        ])

  receive-by :
      (h : Head) (r : Result ℕ)
      → length sent < 2 ^ 60
      → Stopped alloc sent rounds h
      → content_length h.buf ≡ r
      → IntGot r
      → Inbound
          (r >>= λ clen. if is_positive clen then receive_body alloc h clen else ok (some h.buf))
  receive-by h r small s e too_large = no_int h.buf h.pending s.splits e
  receive-by h r small s e (int clen) = elim (Bool-cases (is_positive clen)) [
    | inl yes_body ↦ rw yes_body (receive_body-Inbound h clen small s e (ground arith))
    | inr no_body ↦ rw no_body (
        inbound h.buf h.pending s.splits (elim s.reason [
          | inl over ↦ inl over
          | inr blank ↦ inr (record {
            head = h.buf;
            body = [];
            splits = append-nil h.buf;
            blank = blank;
            clen = clen;
            is_clen = e;
            enough = inl no_body;
          })
        ]))
  ]

  receive-Inbound :
      (r : Result (Option Head))
      → length sent < 2 ^ 60
      → HeadGot alloc sent rounds r
      → Inbound (r >>= λ head. elim head [ none ↦ ok none | some h ↦ receive alloc h ])
  unfolding receive
  receive-Inbound r small (dropped refusal) = no_memory refusal
  receive-Inbound r small (stopped h s) =
      receive-by h (content_length h.buf) small s refl (content_length-IntGot h.buf)

-- If its first allocation is granted and less than 2 ^ 60 bytes are sent, `read_request` never
-- writes behind its buffer, in whatever pieces the bytes come: it gives up because an allocation is
-- refused, or meets a Content-Length that is no `int`, or returns the first of the bytes that were
-- sent. These are all of them, or more bytes were sent than there are reads, or they have a blank
-- line and, if the part up to there has a positive Content-Length, the body of this length.
pub read_request-Inbound :
    (alloc : ℕ → Bool) (reads pending : List ℕ)
    → alloc 8192 ≡ true
    → length pending < 2 ^ 60
    → Inbound alloc pending (length reads) (read_request alloc true reads pending)
unfolding read_request
read_request-Inbound alloc reads pending granted small = rw granted (
    receive-Inbound alloc pending (length reads) (head_loop alloc reads 8192 [] pending) small (
      head_loop-HeadGot alloc pending (length reads) reads 8192 [] pending (record {
        space = record {
          bound = small;
          least = omega arith;
          inside = omega arith;
          upper = omega arith;
        };
        splits = refl;
        counted = omega arith;
      })))
