-- ===== src/Native/Deadline.antt =====
-- The loop that reads a command's journal ends when the clock reaches its deadline.
use nimplex.Prelude.{
  ℕ, zero, suc, ◌≤◌, ◌<◌, String, ◌≡◌, refl, ◌-◌, Bool, true, false, Option, none, some,
  if◌then◌else◌, ltb, ltb→lt, Result, ok, err, arith,
}
use native.Mathlib.Decide.{dec_lt}
use nimplex.Store.Records.{SandboxSessionState, Bytes, RuntimeError}
use nimplex.Checkpoints.Steps.{Host}
use nimplex.Native.Actions.{Action, ◌>>=◌, modify, continue}
use nimplex.Native.Keeps.{Keeps, keeps_rules}
use nimplex.Native.Host.{NativeHost, Resumption, Surroundings, World, ExecResult}
use nimplex.Native.Session.{
  ask, call, set_session, set_active, throw_if_aborted, after_reconnect, reconnect,
}
use nimplex.Native.Launch.{answer, exec}
use nimplex.Native.Journal.{Journal, Collected}
use nimplex.Native.Bash.{read_again, read_answer, poll_once, with_journal, poll_round, poll}

abbrev IsSince : {H : Type 0} → ℕ → World H → Type 0
IsSince n w = n ≤ w.tick

module _ {H : Type 0} (run : NativeHost H) (env : Surroundings) (n : ℕ) where
  ask-IsSince : {A : Type 0} (f : ℕ → A) → Keeps (IsSince n) (ask {H = H} f)
  unfolding ask
  ask-IsSince f = record { at = λ w p. omega arith }

  call-IsSince : (op : ℕ → H → Result RuntimeError (Unit {0}) × H) → Keeps (IsSince n) (call op)
  unfolding call
  call-IsSince op = record { at = λ w p. omega arith }

  set_session-IsSince : (s : Option SandboxSessionState) → Keeps (IsSince n) (set_session {H = H} s)
  unfolding modify
  set_session-IsSince s = record { at = λ w p. p }

  set_active-IsSince : (s : Option SandboxSessionState) → Keeps (IsSince n) (set_active {H = H} s)
  unfolding modify
  set_active-IsSince s = record { at = λ w p. p }

  ruleset since_rules =
      (keeps_rules, ask-IsSince, call-IsSince, set_session-IsSince, set_active-IsSince)

  throw_if_aborted-IsSince : Keeps (IsSince n) (throw_if_aborted run env)
  throw_if_aborted-IsSince = search since_rules

  after_reconnect-IsSince :
      (s : SandboxSessionState) (at : ℕ) (r : Resumption)
      → Keeps (IsSince n) (after_reconnect run env s at r)
  after_reconnect-IsSince s at Resumption.resumed = search since_rules
  after_reconnect-IsSince s at Resumption.missing = search since_rules
  after_reconnect-IsSince s at Resumption.failed = search since_rules

  reconnect-IsSince : (s : SandboxSessionState) → Keeps (IsSince n) (reconnect run env s)
  unfolding reconnect
  reconnect-IsSince s = search (since_rules, throw_if_aborted-IsSince, after_reconnect-IsSince)

  read_again-IsSince : (s : SandboxSessionState) → Keeps (IsSince n) (read_again run env s)
  read_again-IsSince s = search (since_rules, reconnect-IsSince)

  answer-IsSince : (r : Option ExecResult) → Keeps (IsSince n) (answer run env r)
  answer-IsSince none = search since_rules
  answer-IsSince (some r) = search since_rules

  exec-IsSince : Keeps (IsSince n) (exec run env)
  exec-IsSince = search (since_rules, answer-IsSince)

  read_answer-IsSince :
      (s : SandboxSessionState) (r : Result RuntimeError ExecResult)
      → Keeps (IsSince n) (read_answer run env s r)
  read_answer-IsSince s (ok r) =
      search (since_rules, read_again-IsSince, throw_if_aborted-IsSince) depth 8
  read_answer-IsSince s (err e) = search (since_rules, read_again-IsSince, throw_if_aborted-IsSince)

  poll_once-IsSince : (s : SandboxSessionState) → Keeps (IsSince n) (poll_once run env s)
  unfolding poll_once
  poll_once-IsSince s =
      search (since_rules, read_answer-IsSince, throw_if_aborted-IsSince, exec-IsSince)

module _ {H : Type 0} (run : NativeHost H) (env : Surroundings) (host : Host)
    (parse : String → Option Journal) (from_base64 : String → Bytes) (box : SandboxSessionState)
    (deadline : ℕ) (limit : ℕ) (passed : (n : ℕ) → limit ≤ n → deadline ≤ env.clock n) where
  -- two ways to go on that agree on later states
  rounds_agree :
      (this other : Action (World H) Collected) (n : ℕ)
      → ((w : World H) → n ≤ w.tick → this w ≡ other w)
      → (r : Result RuntimeError (Option String)) (w : World H) → n ≤ w.tick
      → continue r (with_journal run env host parse from_base64 this) w
        ≡ continue r (with_journal run env host parse from_base64 other) w
  rounds_agree this other n same (err e) w later = refl
  rounds_agree this other n same (ok none) w later = same w later
  rounds_agree this other n same (ok (some raw)) w later = refl

  decided :
      (b : Bool) (this other past : Action (World H) Collected) (w : World H)
      → (b ≡ true → this w ≡ other w)
      → (if b then this else past) w ≡ (if b then other else past) w
  decided true this other past w same = same refl
  decided false this other past w same = refl

  -- A round is the same, whatever the bound leaves for the next ones, as long as it is enough.
  round_agrees :
      (this other : Action (World H) Collected) (w : World H)
      → (ltb (env.clock w.tick) deadline ≡ true
          → (w' : World H) → suc w.tick ≤ w'.tick
          → this w' ≡ other w')
      → poll_round run env host parse from_base64 box deadline this w
        ≡ poll_round run env host parse from_base64 box deadline other w
  unfolding ◌>>=◌ ask
  round_agrees this other w same = decided (ltb (env.clock w.tick) deadline) _ _ _ _ λ on.
      rounds_agree this other (suc w.tick) (same on) _ _ (
        (poll_once-IsSince run env (suc w.tick) box).at (record w { tick = suc w.tick })
          (omega arith))

  poll-agrees :
      (fuel fuel' : ℕ) (w : World H)
      → limit - w.tick < fuel
      → fuel ≤ fuel'
      → poll run env host parse from_base64 fuel box deadline w
        ≡ poll run env host parse from_base64 fuel' box deadline w
  unfolding poll
  poll-agrees zero fuel' w enough more = grind (arith, enough)
  poll-agrees (suc fuel) zero w enough more = grind (arith, more)
  poll-agrees (suc fuel) (suc fuel') w enough more = round_agrees _ _ w λ on w' later.
      let early = ltb→lt _ _ on in
      let before : w.tick < limit = elim (dec_lt w.tick limit) [
        | yes h ↦ h
        | no h ↦ let late = passed w.tick (omega (arith, h)) in omega (arith, late, early)
      ] in
      poll-agrees fuel fuel' w' (omega (arith, before, later, enough)) (omega (arith, more))

-- The loop for a command's journal ends at its deadline, whether or not its rounds wait: where the clock
-- is at the deadline or past it from some request on, a bound on the rounds that is above the number of
-- requests until then gives the result that every larger bound gives, so the bound is never what ends it.
pub poll-bounded :
    {H : Type 0} (run : NativeHost H) (env : Surroundings) (host : Host)
    (parse : String → Option Journal) (from_base64 : String → Bytes) (box : SandboxSessionState)
    (deadline limit fuel fuel' : ℕ) (w : World H)
    → ((n : ℕ) → limit ≤ n → deadline ≤ env.clock n)
    → limit - w.tick < fuel
    → fuel ≤ fuel'
    → poll run env host parse from_base64 fuel box deadline w
      ≡ poll run env host parse from_base64 fuel' box deadline w
poll-bounded run env host parse from_base64 box deadline limit fuel fuel' w passed =
    poll-agrees run env host parse from_base64 box deadline limit passed fuel fuel' w
