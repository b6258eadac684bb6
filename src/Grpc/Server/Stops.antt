-- ===== src/Grpc/Server/Stops.antt =====
-- server.go: what Shutdown answers, whatever the interleaving with Start.
use ofm_registration_saga_se.Prelude.{
  Bool, true, false, Option, none, some, ◌≡◌, refl, sym, ap, subst, ◌∙◌, ◌⊎◌, inl, inr,
}
use ofm_registration_saga_se.Domain.{Error}
use ofm_registration_saga_se.Grpc.Server.{
  Library, Position, starting, listened, assigned, serving, returned, panicked, Stop, not_yet,
  stopped, answered, Process, on_start, after_start, after_graceful_stop, is_stopping, is_alive,
  Step, listen, listen_failed, assign, serve, serve_refused, serve_failed, serve_returned,
  graceful_stop, no_listener, close, Steps, here, next,
}

-- Close succeeds on an open listener and fails on a closed one; Serve fails on a stopped server;
-- GracefulStop closes the listener that is served.
pub record IsDocumented (lib : Library) : Type 0 where
  pub closes : lib.close true ≡ none
  pub closed : (e : Error) × (lib.close false ≡ some e)
  pub refuses : (e : Error) × (lib.serve_stopped ≡ some e)
  pub stops : lib.open_after_stop ≡ false

abbrev pub Fails : Option Error → Type 0
Fails r = (e : Error) × (r ≡ some e)

-- A hook that has answered has answered nil.
abbrev NoError : Stop → Type 0
NoError (answered r) = r ≡ none
NoError _ = Unit

abbrev Fits : Stop → Position → Bool → Bool → Type 0
Fits s starting l o = (l ≡ false) × (o ≡ false) × NoError s
Fits s listened l o = (l ≡ false) × (o ≡ true) × NoError s
Fits (answered r) assigned l o = r ≡ none
Fits s assigned l o = (l ≡ true) × (o ≡ true)
Fits not_yet serving l o = l ≡ true
Fits stopped serving l o = (l ≡ true) × (o ≡ false)
Fits (answered r) serving l o = Fails r
Fits not_yet returned l o = ⊥
Fits stopped returned l o = (l ≡ true) × (o ≡ false)
Fits (answered r) returned l o = Fails r × (o ≡ false)
Fits s panicked l o = (o ≡ false) × NoError s

abbrev Holds : Process → Type 0
Holds p = Fits p.stop p.at p.has_listener p.socket_open

at-Fits :
    (p : Process) (a : Position) → p.at ≡ a → Holds p → Fits p.stop a p.has_listener p.socket_open
at-Fits p a f h = subst (λ x. Fits p.stop x p.has_listener p.socket_open) f h

stop-Fits :
    (p : Process) (s : Stop) → p.stop ≡ s → Holds p → Fits s p.at p.has_listener p.socket_open
stop-Fits p s f h = subst (λ x. Fits x p.at p.has_listener p.socket_open) f h

assigned-Fits : (s : Stop) (l o : Bool) → Fits s listened l o → Fits s assigned true o
assigned-Fits not_yet l o h = (refl, h.1)
assigned-Fits stopped l o h = (refl, h.1)
assigned-Fits (answered r) l o h = h.2

served-Fits :
    (s : Stop) (l o : Bool) → Fits s serving l o → is_stopping s ≡ true → Fits s returned l false
served-Fits not_yet l o h g = cc
served-Fits stopped l o h g = (h.0, refl)
served-Fits (answered r) l o h g = (h, refl)

assigned-NoError : (s : Stop) (l o : Bool) → Fits s assigned l o → NoError s
assigned-NoError not_yet l o h = tt
assigned-NoError stopped l o h = tt
assigned-NoError (answered r) l o h = h

module _ (lib : Library) (d : IsDocumented lib) where
  stopped-Fits :
      (a : Position) (l o : Bool)
      → is_alive a ≡ true
      → Fits not_yet a l o
      → Fits stopped a l (after_graceful_stop lib a o)
  stopped-Fits starting l o live h = h
  stopped-Fits listened l o live h = h
  stopped-Fits assigned l o live h = h
  stopped-Fits serving l o live h = (h, d.stops)
  stopped-Fits returned l o live h = elim h [ ]
  stopped-Fits panicked l o live h = cc

  unlistened-Fits :
      (a : Position) (o : Bool)
      → is_alive a ≡ true
      → Fits stopped a false o
      → Fits (answered none) a false o
  unlistened-Fits starting o live h = (refl, h.1, refl)
  unlistened-Fits listened o live h = (refl, h.1, refl)
  unlistened-Fits assigned o live h = cc
  unlistened-Fits serving o live h = cc
  unlistened-Fits returned o live h = cc
  unlistened-Fits panicked o live h = cc

  closed-Fits :
      (a : Position) (o : Bool)
      → is_alive a ≡ true
      → Fits stopped a true o
      → Fits (answered (lib.close o)) a true false
  closed-Fits starting o live h = cc
  closed-Fits listened o live h = cc
  closed-Fits assigned o live h = ap lib.close h.1 ∙ d.closes
  closed-Fits serving o live h = (d.closed.0, ap lib.close h.1 ∙ d.closed.1)
  closed-Fits returned o live h = ((d.closed.0, ap lib.close h.1 ∙ d.closed.1), refl)
  closed-Fits panicked o live h = cc

  Step-Holds : {p p' : Process} → Step lib p p' → Holds p → Holds p'
  Step-Holds {p} (listen f) h = let (l, o, n) = at-Fits p starting f h in (l, refl, n)
  Step-Holds {p} (listen_failed e f) h = let (l, o, n) = at-Fits p starting f h in (o, n)
  Step-Holds {p} (assign f) h =
      assigned-Fits p.stop p.has_listener p.socket_open (at-Fits p listened f h)
  Step-Holds {p} (serve f g) h =
      subst (λ x. Fits x serving p.has_listener p.socket_open) (sym g)
        (subst (λ x. Fits x assigned p.has_listener p.socket_open) g (at-Fits p assigned f h)).0
  Step-Holds {p} (serve_refused f g) h =
      rw (d.refuses.1)
        (refl, assigned-NoError p.stop p.has_listener p.socket_open (at-Fits p assigned f h))
  Step-Holds {p} (serve_failed e f g) h = (refl, subst NoError (sym g) tt)
  Step-Holds {p} (serve_returned f g) h =
      served-Fits p.stop p.has_listener p.socket_open (at-Fits p serving f h) g
  Step-Holds {p} (graceful_stop g live) h =
      stopped-Fits p.at p.has_listener p.socket_open live (stop-Fits p not_yet g h)
  Step-Holds {p} (no_listener g live l) h =
      subst (λ x. Fits (answered none) p.at x p.socket_open) (sym l)
        (unlistened-Fits p.at p.socket_open live
          (subst (λ x. Fits stopped p.at x p.socket_open) l (stop-Fits p stopped g h)))
  Step-Holds {p} (close g live l) h =
      subst (λ x. Fits (answered (lib.close p.socket_open)) p.at x false) (sym l)
        (closed-Fits p.at p.socket_open live
          (subst (λ x. Fits stopped p.at x p.socket_open) l (stop-Fits p stopped g h)))

  Steps-Holds : {p p' : Process} → Steps lib p p' → Holds p → Holds p'
  Steps-Holds here h = h
  Steps-Holds (next step rest) h = Steps-Holds rest (Step-Holds step h)

  -- The goroutine served, and Shutdown reports an error; or Shutdown reports none, and the process
  -- has panicked or can still come to it.
  abbrev pub Ends : Process → Option Error → Type 0
  Ends p r =
      (((p.at ≡ serving) ⊎ (p.at ≡ returned)) × Fails r)
      ⊎ ((r ≡ none) × ((p' : Process) × Steps lib p p' × (p'.at ≡ panicked)))

  refused-panics : after_start lib.serve_stopped ≡ panicked
  refused-panics = rw (d.refuses.1) refl

  at-Ends :
      (p : Process) (r : Option Error) (a : Position)
      → p.stop ≡ answered r
      → p.at ≡ a
      → Fits (answered r) a p.has_listener p.socket_open
      → Ends p r
  at-Ends p r starting g f h = inr (
    h.2,
    (
      _,
      next (listen f) (next (assign refl) (next (serve_refused refl (ap is_stopping g)) here)),
      refused-panics,
    ),
  )
  at-Ends p r listened g f h = inr (
    h.2,
    (_, next (assign f) (next (serve_refused refl (ap is_stopping g)) here), refused-panics),
  )
  at-Ends p r assigned g f h =
      inr (h, (_, next (serve_refused f (ap is_stopping g)) here, refused-panics))
  at-Ends p r serving g f h = inl (inl f, h)
  at-Ends p r returned g f h = inl (inr f, h.0)
  at-Ends p r panicked g f h = inr (h.1, (p, here, f))

  -- Whatever the interleaving of Start and Shutdown: once Shutdown has answered, either the
  -- goroutine has come to Serve, and the answer is an error, since the listener was closed before;
  -- or the answer is nil, and the goroutine has panicked or can still come to a panic.
  pub shutdown-Ends :
      {p : Process} (r : Option Error) → Steps lib on_start p → p.stop ≡ answered r → Ends p r
  unfolding on_start
  shutdown-Ends {p} r run g =
      at-Ends p r p.at g refl (stop-Fits p (answered r) g (Steps-Holds run (refl, refl, tt)))
