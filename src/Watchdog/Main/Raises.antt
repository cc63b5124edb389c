-- ===== src/Watchdog/Main/Raises.antt =====
-- The watchdog's functions raise no exception but its own.
use chromium_compile.Prelude.{
  ℕ, zero, suc, String, Bool, true, false, Option, none, some, List, ◌≡◌, arith, if◌then◌else◌,
}
use chromium_compile.Result.{Exc, Result, ok, raise, watchdog_error}
use chromium_compile.Host.{State, Act, pure, throw, lift, resume, ◌>>=◌}
use chromium_compile.Archive.{ℤ}
use chromium_compile.Watchdog.Progress.{
  Lstat, missing, broken, found, progress_fingerprint, Settings, Progress, note_progress, Verdict,
  deadline_reached, stalled, sleep_for,
}
use chromium_compile.Watchdog.Machine.{Machine, ask, perform, tell, pass_time}
use chromium_compile.Watchdog.Child.{
  when_running, after_taskkill, signal_child, kill_child, by_grace, wait_grace, await_end,
  terminate_child,
}
use chromium_compile.Watchdog.Run.{
  Request, need, no_error, drain, finish, write_stall_marker, clear_marker, act_on, look_on,
  by_poll, by_pump, watch_rounds, clean_up,
}

-- What a call raises is the watchdog's own error.
abbrev pub Own : {A : Type 0} → Result A → Type 0
Own r = (x : Exc) (why : String) → r ≡ raise x why → x ≡ watchdog_error

pub record RaisesOwn {W A : Type 0} (a : Act W A) : Type 0 where
  pub at : (s : State W) → Own (a s).0

module _ {W : Type 0} where
  pub Own-ask : {A : Type 0} (f : W → A × W) → RaisesOwn (ask f)
  unfolding ask
  Own-ask f = record { at = λ s x why h. absurd (cc) }

  pub Own-perform : {A : Type 0} (name : List String) (f : W → A × W) → RaisesOwn (perform name f)
  unfolding perform
  Own-perform name f = record { at = λ s x why h. absurd (cc) }

  pub Own-tell : (name : List String) (f : W → W) → RaisesOwn (tell name f)
  unfolding tell
  Own-tell name f = record { at = λ s x why h. absurd (cc) }

  pub Own-pass : (f : W → W) → RaisesOwn (pass_time f)
  unfolding pass_time
  Own-pass f = record { at = λ s x why h. absurd (cc) }

  pub Own-pure : {A : Type 0} (a : A) → RaisesOwn {W = W} (pure a)
  unfolding pure
  Own-pure a = record { at = λ s x why h. absurd (cc) }

  pub Own-throw :
      {A : Type 0} (text : String) → RaisesOwn {W = W} {A = A} (throw watchdog_error text)
  unfolding throw
  Own-throw text = record { at = λ s x why h. cc }

  pub Own-lift : {A : Type 0} (r : Result A) → Own r → RaisesOwn {W = W} (lift r)
  unfolding lift
  Own-lift r own = record { at = λ s. own }

  Own-resume :
      {A B : Type 0} (r : Result A) (f : A → Act W B) (s : State W)
      → Own r
      → ((a : A) → RaisesOwn (f a))
      → Own (resume r f s).0
  Own-resume (ok a) f s own next = (next a).at s
  Own-resume (raise y text) f s own next = λ x why h. own x why (cc)

  pub Own-bind :
      {A B : Type 0} (a : Act W A) (f : A → Act W B)
      → RaisesOwn a
      → ((x : A) → RaisesOwn (f x))
      → RaisesOwn (a >>= f)
  unfolding ◌>>=◌
  Own-bind a f own next = record { at = λ s. Own-resume (a s).0 f (a s).1 (own.at s) next }

  pub Own-if :
      {A : Type 0} (b : Bool) (x y : Act W A)
      → RaisesOwn x
      → RaisesOwn y
      → RaisesOwn (if b then x else y)
  Own-if true x y p q = p
  Own-if false x y p q = q

pub ruleset own_rules =
    (Own-ask, Own-perform, Own-tell, Own-pass, Own-pure, Own-throw, Own-bind, Own-if)

module _ (m : Machine) where
  when-Own :
      (deed : Act m.World Unit) (o : Option ℤ) → RaisesOwn deed → RaisesOwn (when_running m deed o)
  when-Own deed none q = q
  when-Own deed (some code) q = search own_rules

  taskkill-Own :
      (deed : Act m.World Unit) (o : Option ℕ)
      → RaisesOwn deed
      → RaisesOwn (after_taskkill m deed o)
  taskkill-Own deed none q = search (own_rules, when-Own)
  taskkill-Own deed (some code) q = search (own_rules, when-Own)

  signal-Own : (signum : ℕ) → RaisesOwn (signal_child m signum)
  unfolding signal_child
  signal-Own signum = search (own_rules, when-Own, taskkill-Own) depth 9

  kill-Own : RaisesOwn (kill_child m)
  unfolding kill_child
  kill-Own = search (own_rules, when-Own, taskkill-Own) depth 9

  end-Own : (grace : ℕ) → RaisesOwn (await_end m grace)
  unfolding await_end
  end-Own grace = search own_rules

  wait_polled-Own :
      (deadline : ℕ) (next : Act m.World Bool) (o : Option ℤ)
      → RaisesOwn next
      → RaisesOwn (by_grace m deadline next o)
  wait_polled-Own deadline next none q = search own_rules
  wait_polled-Own deadline next (some code) q = search own_rules

  wait-Own : (left deadline : ℕ) → RaisesOwn (wait_grace m left deadline)
  unfolding wait_grace
  wait-Own zero deadline = search own_rules
  wait-Own (suc left) deadline =
      let next = wait-Own left deadline in
      Own-bind (ask m.poll) _ (Own-ask m.poll) (λ o. wait_polled-Own deadline _ o next)

  pub terminate-Own : (grace : ℕ) → RaisesOwn (terminate_child m grace)
  unfolding terminate_child
  terminate-Own grace =
      search (own_rules, when-Own, signal-Own, kill-Own, end-Own, wait-Own) depth 14

  pub need-Own : (b : Bool) (why : String) → RaisesOwn (need m b why)
  need-Own true why = search own_rules
  need-Own false why = search own_rules

  no_error-Own : (o : Option String) → RaisesOwn (no_error m o)
  no_error-Own none = search own_rules
  no_error-Own (some why) = search own_rules

  drain-Own : (has_log : Bool) → RaisesOwn (drain m has_log)
  drain-Own true = search (own_rules, need-Own, no_error-Own)
  drain-Own false = search own_rules

  finish-Own : (has_log : Bool) (returncode : ℤ) → RaisesOwn (finish m has_log returncode)
  unfolding finish
  finish-Own has_log returncode = search (own_rules, drain-Own)

  marker-Own : (path : String) → RaisesOwn (write_stall_marker m path)
  unfolding write_stall_marker
  marker-Own path = search (own_rules, need-Own)

  pub clear-Own : (path : String) → RaisesOwn (clear_marker m path)
  unfolding clear_marker
  clear-Own path = search (own_rules, need-Own)

  pub fingerprint-Own : (info : Lstat) → Own (progress_fingerprint info)
  unfolding progress_fingerprint
  fingerprint-Own missing x why h = absurd (cc)
  fingerprint-Own broken x why h = cc
  fingerprint-Own (found is_link is_regular size mtime) x why h = ground arith

  act_on-Own :
      (r : Request) (c : Settings) (again : Act m.World (Option ℤ)) (v : Verdict)
      → RaisesOwn again
      → RaisesOwn (act_on m r c again v)
  unfolding act_on
  act_on-Own r c again deadline_reached q = search (own_rules, terminate-Own)
  act_on-Own r c again stalled q = search (own_rules, terminate-Own, marker-Own)
  act_on-Own r c again (sleep_for n) q = search own_rules

  look_on-Own :
      (r : Request) (c : Settings) (deadline : Option ℕ) (p : Progress)
      (again : Progress → Act m.World (Option ℤ))
      → ((q : Progress) → RaisesOwn (again q))
      → RaisesOwn (look_on m r c deadline p again)
  unfolding look_on
  look_on-Own r c deadline p again q = Own-bind (ask m.lstat) _ (Own-ask m.lstat) (λ info.
      Own-bind (lift (progress_fingerprint info)) _ (Own-lift _ (fingerprint-Own info)) (λ current.
        Own-bind (ask m.monotonic) _ (Own-ask m.monotonic)
          (λ now. act_on-Own r c _ _ (q (note_progress current now p)))))

  by_poll-Own :
      (r : Request) (running : Act m.World (Option ℤ)) (o : Option ℤ)
      → RaisesOwn running
      → RaisesOwn (by_poll m r running o)
  by_poll-Own r running none q = q
  by_poll-Own r running (some code) q = finish-Own r.has_output_log code

  by_pump-Own :
      (c : Settings) (go_on : Act m.World (Option ℤ)) (o : Option String)
      → RaisesOwn go_on
      → RaisesOwn (by_pump m c go_on o)
  by_pump-Own c go_on none q = q
  by_pump-Own c go_on (some why) q = search (own_rules, terminate-Own)

  pub watch-Own :
      (left : ℕ) (r : Request) (c : Settings) (deadline : Option ℕ) (p : Progress)
      → RaisesOwn (watch_rounds m left r c deadline p)
  unfolding watch_rounds
  watch-Own zero r c deadline p = search own_rules
  watch-Own (suc left) r c deadline p =
      let next = watch-Own left r c deadline in
      let looked = look_on-Own r c deadline p (watch_rounds m left r c deadline) next in
      Own-bind (ask m.pump_error) _ (Own-ask m.pump_error) (λ failure.
        by_pump-Own c _ failure
          (Own-bind (ask m.poll) _ (Own-ask m.poll) (λ polled. by_poll-Own r _ polled looked)))

  pub clean_up-Own : (has_log : Bool) (c : Settings) → RaisesOwn (clean_up m has_log c)
  unfolding clean_up
  clean_up-Own has_log c = search (own_rules, when-Own, terminate-Own)
