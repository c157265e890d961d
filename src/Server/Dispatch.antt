-- ===== src/Server/Dispatch.antt =====
-- The dispatch of requests by `serverStart` of src/server.c, in the parent or in a child.
use cortex_vm.Prelude.{
  ℕ, ◌≡◌, refl, sym, ap, ◌∙◌, ◌&&◌, if◌then◌else◌, Bool, true, false, List, [], ◌∷◌, arith,
}
use cortex_vm.Server.Fields.{same_text}
use cortex_vm.Server.Routes.{
  Route, Entry, routes, route_in, path_is_stateful, uses_session, Message, Forked, parent, failed,
  handled, serve_message,
}

same_text_sound : (s t : List ℕ) → same_text s t ≡ true → s ≡ t
same_text_sound [] [] h = refl
same_text_sound [] (d ∷ t) h = cc
same_text_sound (c ∷ s) [] h = cc
same_text_sound (c ∷ s) (d ∷ t) h = ground (arith, same_text_sound s t)

-- A handler with a session stands under a stateful path.
abbrev entry_safe : Entry → Bool
entry_safe e = if uses_session e.route then path_is_stateful e.path else true

abbrev AllSafe : List Entry → Type 0
AllSafe [] = Unit
AllSafe (e ∷ entries) = (entry_safe e ≡ true) × AllSafe entries

routes-AllSafe : AllSafe routes
unfolding path_is_stateful
routes-AllSafe = (
  refl,
  (
    refl,
    (
      refl,
      (
        refl,
        (
          refl,
          (
            refl,
            (
              refl,
              (
                refl,
                (
                  refl,
                  (
                    refl,
                    (
                      refl,
                      (
                        refl,
                        (refl, (refl, (refl, (refl, (refl, (refl, (refl, (refl, (refl, tt))))))))),
                      ),
                    ),
                  ),
                ),
              ),
            ),
          ),
        ),
      ),
    ),
  ),
)

safe_entry :
    (e : Entry) (path : List ℕ)
    → entry_safe e ≡ true
    → same_text path e.path ≡ true
    → path_is_stateful path ≡ false
    → uses_session e.route ≡ false
safe_entry e path safe same h =
    let p : path ≡ e.path = same_text_sound path e.path same in
    let stateless : path_is_stateful e.path ≡ false = sym (ap path_is_stateful p) ∙ h in
    by_route (uses_session e.route) (path_is_stateful e.path) safe stateless
  where
    by_route : (u b : Bool) → (if u then b else true) ≡ true → b ≡ false → u ≡ false
    by_route true b safe h = sym safe ∙ h
    by_route false b safe h = refl

-- The test of the route, for any outcome.
by_match :
    (e : Entry) (rest : Route) (path : List ℕ) (same_method : Bool)
    → entry_safe e ≡ true
    → path_is_stateful path ≡ false
    → uses_session rest ≡ false
    → (same : Bool) → same_text path e.path ≡ same
    → uses_session (if same_method && same then e.route else rest) ≡ false
by_match e rest path true safe h later true same = safe_entry e path safe same h
by_match e rest path true safe h later false same = later
by_match e rest path false safe h later hit same = later

route_in-stateless :
    (entries : List Entry) (method path : List ℕ)
    → AllSafe entries
    → path_is_stateful path ≡ false
    → uses_session (route_in entries method path) ≡ false
unfolding route_in
route_in-stateless [] method path safe h = refl
route_in-stateless (e ∷ entries) method path (first, more) h =
    by_match e (route_in entries method path) path (same_text method e.method) first h
      (route_in-stateless entries method path more h) (same_text path e.path) refl

module _ {S : Type 0} (handler : Route → (body : List ℕ) → S → S) where
  handled-stateless :
      (r : Route) (body : List ℕ) (s : S) → uses_session r ≡ false → handled handler r body s ≡ s
  handled-stateless r body s h = rw h refl

  by_path :
      (forked : Forked) (m : Message) (s : S) (stateful : Bool)
      → path_is_stateful m.path ≡ stateful
      → (if stateful
          then handled handler (route_in routes m.method m.path) m.body s
          else elim forked [
            | parent ↦ s
            | failed ↦ handled handler (route_in routes m.method m.path) m.body s
          ])
        ≡ handled handler (route_in routes m.method m.path) m.body s
  by_path forked m s true e = refl
  by_path failed m s false e = refl
  by_path parent m s false e = sym (
      handled-stateless (route_in routes m.method m.path) m.body s
        (route_in-stateless routes m.method m.path routes-AllSafe e))

  -- Whatever a request is and whether a child could be forked for it, the sessions of the server
  -- are left as the handler of its route leaves them: no request that uses a session is given to a
  -- child.
  pub serve_message-handled :
      (forked : Forked) (m : Message) (s : S)
      → serve_message handler forked m s
        ≡ handled handler (route_in routes m.method m.path) m.body s
  unfolding serve_message
  serve_message-handled forked m s = by_path forked m s (path_is_stateful m.path) refl
