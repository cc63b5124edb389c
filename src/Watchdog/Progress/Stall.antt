-- ===== src/Watchdog/Progress/Stall.antt =====
-- The progress log's history behind a verdict, and how long a sleep may be.
use chromium_compile.Prelude.{
  ℕ, ◌+◌, ◌-◌, ◌*◌, ◌≤◌, ◌<◌, true, false, Option, none, some, List, [], ◌∷◌, ◌≡◌, refl, sym, subst,
  min, max, arith, ◌⊎◌, inl, inr, Bool-cases,
}
use chromium_compile.Watchdog.Progress.{
  Fingerprint, same, second, tick, Settings, Progress, note_progress, deadline_reached, stalled,
  sleep_for, decide, is_due, until, before_deadline,
}

-- What a round of the loop saw
pub record Look : Type 0 where
  pub current : Fingerprint
  pub now : ℕ

-- Going back from the latest look, each shows the fingerprint, until one at the time `since` (or the
-- start of the loop).
abbrev pub Unchanged : Fingerprint → ℕ → Progress → List Look → Type 0
Unchanged fp since start [] = (start.fingerprint ≡ fp) × (start.since ≡ since)
Unchanged fp since start (r ∷ rs) =
    (r.current ≡ fp) × ((r.now ≡ since) ⊎ Unchanged fp since start rs)

same-eq : (a b : Fingerprint) → same a b ≡ true → a ≡ b
same-eq none none h = refl
same-eq none (some b) h = absurd (cc)
same-eq (some a) none h = absurd (cc)
same-eq (some (a, b)) (some (c, d)) h = ground arith

note-same :
    (current : Fingerprint) (now : ℕ) (p : Progress)
    → same current p.fingerprint ≡ true
    → note_progress current now p ≡ p
unfolding note_progress
note-same current now p e = rw e refl

note-other :
    (current : Fingerprint) (now : ℕ) (p : Progress)
    → same current p.fingerprint ≡ false
    → note_progress current now p ≡ record { fingerprint = current; since = now }
unfolding note_progress
note-other current now p e = rw e refl

pub note-Unchanged :
    (current : Fingerprint) (now : ℕ) (p start : Progress) (rs : List Look)
    → Unchanged p.fingerprint p.since start rs
    → Unchanged
        (note_progress current now p).fingerprint
        (note_progress current now p).since
        start
        (record { current = current; now = now } ∷ rs)
note-Unchanged current now p start rs h = elim (Bool-cases (same current p.fingerprint)) [
  | inl e ↦
      subst
        (λ q. Unchanged q.fingerprint q.since start (record { current = current; now = now } ∷ rs))
        (sym (note-same current now p e)) (same-eq current p.fingerprint e, inr h)
  | inr e ↦
      subst
        (λ q. Unchanged q.fingerprint q.since start (record { current = current; now = now } ∷ rs))
        (sym (note-other current now p e)) (refl, inl refl)
]

pub decide-stalled :
    (c : Settings) (deadline : Option ℕ) (now : ℕ) (p : Progress)
    → decide c deadline now p ≡ stalled
    → (c.stall_seconds * second ≤ now - p.since) × (is_due deadline now ≡ false)
unfolding decide
decide-stalled c deadline now p h = ground arith

pub decide-deadline :
    (c : Settings) (deadline : Option ℕ) (now : ℕ) (p : Progress)
    → decide c deadline now p ≡ deadline_reached
    → is_due deadline now ≡ true
unfolding decide
decide-deadline c deadline now p h = ground arith

pub decide-sleep :
    (c : Settings) (deadline : Option ℕ) (now n : ℕ) (p : Progress)
    → decide c deadline now p ≡ sleep_for n
    → (is_due deadline now ≡ false)
      × (now - p.since < c.stall_seconds * second)
      × (n
          ≡ min
              (before_deadline deadline now (c.poll_seconds * second))
              (until (c.stall_seconds * second - (now - p.since))))
unfolding decide
decide-sleep c deadline now n p h = ground arith

-- A sleep lasts at least a tick and at most the time between polls, and ends within a tick of the
-- next deadline or stall.
pub decide_bounds :
    (c : Settings) (deadline now n : ℕ) (p : Progress)
    → 0 < c.poll_seconds
    → decide c (some deadline) now p ≡ sleep_for n
    → (tick ≤ n)
      × (n ≤ c.poll_seconds * second)
      × (now < deadline)
      × (now + n ≤ max (now + tick) deadline)
      × ((now - p.since) + n ≤ max ((now - p.since) + tick) (c.stall_seconds * second))
decide_bounds c deadline now n p h e =
    let (due, rest, q) = decide-sleep c (some deadline) now n p e in
    let early : now < deadline = ground arith in
    (omega arith, omega arith, early, omega arith, omega arith)
