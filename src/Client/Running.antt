-- ===== src/Client/Running.antt =====
-- node.cpp, session.cpp and loop.cpp: what every run of a node with its session keeps.
use wshttp.Prelude.{
  ◌≡◌, refl, sym, subst, ◌∙◌, ◌⊎◌, inl, inr, true, Option, none, some, [], ◌∷◌, String,
}
use wshttp.Prelude.Outcome.{Result, ok, throw, runtime_error}
use wshttp.Maps.{find, string_key}
use wshttp.Maps.Laws.{find-assign, find-erase}
use wshttp.Address.Ip.{IpAddress}
use wshttp.Uri.{Uri, host}
use wshttp.Session.{Session}
use wshttp.Session.Hooks.{Environment}
use wshttp.Session.Setup.{Net}
use wshttp.Session.Driving.{Held}
use wshttp.Session.Outbound.Life.{Idle}
use wshttp.Session.Outbound.Asking.{Asked, event_cb-Asked, react-Asked}
use wshttp.Node.{Node, Socket, make_node, close_session}
use wshttp.Node.Sessions.{IsPrintable, make_node-Started}
use wshttp.Client.{
  Job, Client, settle, callback, run_job, run_jobs, pass, current, Step, event, input, passes,
  Reach, here, later,
}

-- The session, where the node has one: no null pointer, one that can be closed by its job, and one
-- whose jobs have been taken.
abbrev pub Entry : String → Option (Option Session) → Type 0
Entry name none = Unit
Entry name (some none) = ⊥
Entry name (some (some t)) = Idle name t × (t.posted ≡ [])

abbrev own_job : Client → Job
own_job c = record { key = host c.node.uri; alive = true }

-- The jobs that wait: none, or the one that closes the session, which is there.
pub record Good (c : Client) : Type 0 where
  pub entry : Entry (host c.node.uri) (current c)
  pub owed :
      (c.pending ≡ [])
      ⊎ ((c.pending ≡ own_job c ∷ []) × ((t : Session) × (current c ≡ some (some t))))

-- Only the exception for what could not be set up or sent.
abbrev pub GoodResult : Result Client → Type 0
GoodResult (ok c) = Good c
GoodResult (throw e) = e ≡ runtime_error

-- A session is put back in its place.
settled_current :
    (c : Client) (t u : Session)
    → current c ≡ some (some t)
    → current (settle u c) ≡ some (some (record u { posted = [] }))
unfolding settle
settled_current c t u found =
    find-assign (host c.node.uri) (host c.node.uri) _ c.node.sessions
    ∙ rw (found, string_key.same_refl (host c.node.uri)) refl

taken-Idle : (name : String) (u : Session) → Idle name u → Idle name (record u { posted = [] })
taken-Idle name u idle = record {
  is_outbound = idle.is_outbound;
  same_host = idle.same_host;
  printable = idle.printable;
  no_streams = idle.no_streams;
  closes_itself = tt;
}

settle-Good :
    (c : Client) (t u : Session)
    → current c ≡ some (some t)
    → c.pending ≡ []
    → Asked (host c.node.uri) u
    → Good (settle u c)
unfolding settle
settle-Good c t u found idle_queue (idle, posted) = record {
  entry =
      subst (Entry (host c.node.uri)) (sym (settled_current c t u found))
        (taken-Idle (host c.node.uri) u idle, refl);
  owed = elim posted [
    | inl quiet ↦ inl (rw (idle_queue, quiet) refl)
    | inr one ↦ inr (rw (idle_queue, one) refl, (_, settled_current c t u found))
  ];
}

callback-Good :
    (c : Client) (t : Session) (r : Result Session)
    → current c ≡ some (some t)
    → c.pending ≡ []
    → Held (Asked (host c.node.uri)) r
    → GoodResult (callback r c)
unfolding callback
callback-Good c t (ok u) found idle_queue held = settle-Good c t u found idle_queue held
callback-Good c t (throw e) found idle_queue held = held

-- The job takes the session out of the table.
pass-Good : (c : Client) → Good c → GoodResult (pass c)
unfolding pass run_jobs run_job close_session
pass-Good c good = elim good.owed [
  | inl idle_queue ↦
      rw (pass, idle_queue, run_jobs) (record { entry = good.entry; owed = inl refl })
  | inr (one, (t, found)) ↦
      let (idle, taken) : Entry (host c.node.uri) (some (some t)) =
        subst (Entry (host c.node.uri)) found good.entry in
      let gone : find (host c.node.uri) (close_session t.host c.node).sessions ≡ none =
        find-erase t.host (host c.node.uri) c.node.sessions
        ∙ rw (idle.same_host, string_key.same_refl (host c.node.uri)) refl in
      rw (pass, one, run_jobs, run_job, found)
        (record { entry = subst (Entry (host c.node.uri)) (sym gone) tt; owed = inl refl })
]

sound_session :
    (c : Client) (t : Session)
    → current c ≡ some (some t)
    → Good c
    → Idle (host c.node.uri) t × (t.posted ≡ [])
sound_session c t found good = subst (Entry (host c.node.uri)) found good.entry

Step-Good :
    (env : Environment) (c : Client) (r : Result Client) → Step env c r → Good c → GoodResult r
Step-Good env c r (event t net d ready alpn calls local found unset quiet e) good =
    let (idle, taken) = sound_session c t found good in
    subst GoodResult (sym e) (
      callback-Good c t _ found quiet
        (event_cb-Asked env d calls (host c.node.uri) net t ready alpn local idle taken))
Step-Good env c r (input t h d i calls found set quiet e) good =
    let (idle, taken) = sound_session c t found good in
    subst GoodResult (sym e) (
      callback-Good c t _ found quiet
        (react-Asked env d calls (host c.node.uri) t i (((h, set), idle), taken)))
Step-Good env c r (passes e) good = subst GoodResult (sym e) (pass-Good c good)

Reach-GoodResult :
    (env : Environment) (c : Client) (r : Result Client) → Good c → Reach env c r → GoodResult r
Reach-GoodResult env c r good here = good
Reach-GoodResult env c r good (later {t} before step) =
    Step-Good env t r step (Reach-GoodResult env c (ok t) good before)

-- A new node whose local address, where it has one, can be printed, over any run: events of its
-- session before it is configured, with whatever protocol, input, output and failures after, as long
-- as no data is delivered, and passes of the loop, in any order in which the session is left alone
-- once it has asked to be closed until the loop has run its job. No step goes through a null pointer
-- or uses the session after it is gone, and none throws anything but a runtime error, which ends the
-- run. The node has its one session, without streams, or none any more; and at most one job waits,
-- which closes that session.
client_runs-Good :
    (env : Environment) (k : Socket) (made : Net) (u : Uri) (opts : Option IpAddress) (n : Node)
    (r : Result Client)
    → IsPrintable opts
    → make_node k made u opts ≡ ok n
    → Reach env (record { node = n; pending = [] }) r
    → GoodResult r
client_runs-Good env k made u opts n r printable did run =
    let (s, started, _, _) = make_node-Started k made u opts n printable did in
    Reach-GoodResult env _ r
      (record {
        entry = subst (Entry (host n.uri)) (sym started.stands) (started.idle, started.quiet);
        owed = inl refl;
      })
      run
