-- ===== src/Service/Idle.antt =====
-- src/service/mod.rs: the rounds of the server's loop on a network stack whose operations end.
use sprocket.Base.{
  ℕ, zero, suc, ◌+◌, ◌<◌, ◌≡◌, true, false, not, refl, ◌∙◌, if◌then◌else◌, ◌>>◌, Cmd, bind_done,
  then_done, arith, ◌==◌, u32, Bool, List, done, pure, assert, Ensures, Ends, pure-Ensures,
  bind-Ensures, then-Ensures, if-Ensures, ◌>>=◌, Bool-cases, inl, inr,
}
use sprocket.Port.{Io}
use sprocket.Console.{Console}
use sprocket.Logger.{LogLevel, codes, log}
use sprocket.Logger.Ends.{log-Ends}
use sprocket.Service.{
  Net, Polled, ok, exhausted, error, answer, use_socket, after_poll, round, rounds, response,
  module_path,
}

-- The operations of the network stack end, and behave as the crate smoltcp says: the two questions
-- about the socket change nothing; a socket that is not open can listen at a port other than 0; one
-- that can send takes what is sent. The time passes without a change of the socket.
pub record Works {S : Type 0} (net : Net S) : Type 0 where
  pub opened : S → Bool
  pub sendable : S → Bool
  pub is_open : (s : S) → net.is_open s ≡ done (opened s) s
  pub listen :
      (port : ℕ) (s : S)
      → 0 < port
      → opened s ≡ false
      → (s' : S) × (net.listen port s ≡ done true s')
  pub can_recv : Ends net.can_recv
  pub recv : (size : ℕ) → Ends (net.recv size)
  pub can_send : (s : S) → net.can_send s ≡ done (sendable s) s
  pub send_slice :
      (bytes : List ℕ) (s : S)
      → sendable s ≡ true
      → (s' : S) × (net.send_slice bytes s ≡ done true s')
  pub close : Ends net.close
  pub poll : (timestamp : ℕ) → Ends (net.poll timestamp)
  pub halt : Ends net.halt
  pub ticks :
      (s : S) → (count : ℕ) × (s' : S) × (net.ticks s ≡ done count s') × (sendable s' ≡ sendable s)

-- The value and the state with which a command ends.
abbrev Ending : {S A : Type 0} → Cmd S A → S → Type 0
Ending {S = S} {A = A} c s = (a : A) × (s' : S) × (c s ≡ done a s') × Unit

module _ {S : Type 0} (io : Io S) (net : Net S) (console : Console) (works : Works net) where
  answer-Ending :
      (http : List ℕ) (s : S) → works.sendable s ≡ true → Ending (answer io net console http) s
  unfolding answer
  answer-Ending http s h =
      let (ticks, s1, told, same) = works.ticks s in
      let (s2, taken) = works.send_slice (response http ticks) s1 (same ∙ h) in
      let closing = log io console LogLevel.info module_path (codes "socket closing") in
      let (a, s3, run, _) =
        then-Ensures closing net.close
          (log-Ends io console LogLevel.info module_path (codes "socket closing")) works.close s2 in
      (
        a,
        s3,
        bind_done net.ticks _ told (bind_done (net.send_slice (response http ticks)) _ taken run),
        tt,
      )

  reply-Ends :
      (http : List ℕ)
      → Ends (do sending ← net.can_send; if sending then answer io net console http else pure tt)
  reply-Ends http s = elim (Bool-cases (works.sendable s)) [
    | inl able ↦
        let (a, s', run, _) = answer-Ending http s able in
        (a, s', bind_done net.can_send _ (works.can_send s) (rw able run), tt)
    | inr unable ↦ (tt, s, bind_done net.can_send _ (works.can_send s) (rw unable refl), tt)
  ]

  listen-Ending :
      (s : S)
      → Ending
          (if not (works.opened s)
            then (do listening ← net.listen 80; assert listening)
            else pure tt)
          s
  listen-Ending s = elim (Bool-cases (works.opened s)) [
    | inl able ↦ (tt, s, rw able refl, tt)
    | inr unable ↦
        let (s', run) = works.listen 80 s (omega arith) unable in
        (tt, s', rw unable (bind_done (net.listen 80) (λ listening. assert listening) run refl), tt)
  ]

  receive-Ends :
      (http : List ℕ)
      → Ends (do
        receiving ← net.can_recv
        if receiving
            then (do
              net.recv 200
              sending ← net.can_send
              if sending then answer io net console http else pure tt)
            else pure tt)
  receive-Ends http = bind-Ensures net.can_recv _ works.can_recv (λ receiving _.
      if-Ensures receiving (then-Ensures (net.recv 200) _ (works.recv 200) (reply-Ends http))
        (pure-Ensures tt tt))

  use_socket-Ends : (http : List ℕ) → Ends (use_socket io net console http)
  unfolding use_socket
  use_socket-Ends http s =
      let (_, s1, run1, _) = listen-Ending s in
      let (a, s2, run2, _) = receive-Ends http s1 in
      let listening : Cmd S (Unit {0}) =
        if not (works.opened s)
        then (do listening ← net.listen 80; assert listening)
        else pure tt in
      (a, s2, bind_done net.is_open _ (works.is_open s) (then_done listening _ run1 run2), tt)

  after_poll-Ensures :
      (count : ℕ) (p : Polled)
      → count < 10
      → Ensures (λ c. c < 10) (after_poll io net console count p)
  unfolding after_poll
  after_poll-Ensures count ok h = pure-Ensures count h
  after_poll-Ensures count exhausted h = elim (Bool-cases (u32 (count + 1) == 10)) [
    | inl idle ↦ rw idle (then-Ensures net.halt (pure 0) works.halt (pure-Ensures 0 (omega arith)))
    | inr busy ↦ rw busy (pure-Ensures (u32 (count + 1)) (ground arith))
  ]
  after_poll-Ensures count (error e) h =
      then-Ensures (log io console LogLevel.warn module_path _) (pure count)
        (log-Ends io console LogLevel.warn module_path _) (pure-Ensures count h)

  round-Ensures :
      (http : List ℕ) (count : ℕ)
      → count < 10
      → Ensures (λ c. c < 10) (round io net console http count)
  unfolding round
  round-Ensures http count h =
      then-Ensures (use_socket io net console http) _ (use_socket-Ends http)
        (bind-Ensures (net.poll 10) _ (works.poll 10) (λ p _. after_poll-Ensures count p h))

  rounds-Ensures :
      (http : List ℕ) (n count : ℕ)
      → count < 10
      → Ensures (λ c. c < 10) (rounds io net console http n count)
  unfolding rounds
  rounds-Ensures http zero count h = pure-Ensures count h
  rounds-Ensures http (suc n) count h =
      bind-Ensures (round io net console http count) _ (round-Ensures http count h)
        (λ count' h'. rounds-Ensures http n count' h')

  -- On a network stack where a socket can listen as long as it is not open and takes what is sent as
  -- long as it can send, any number of rounds of the server's loop ends without a failed `unwrap`,
  -- whatever the polls find and the state of the socket is. The count of polls that found nothing
  -- stays below the threshold, so that its increment never wraps and never passes the threshold.
  pub rounds_lem :
      (http : List ℕ) (n count : ℕ) (s : S)
      → count < 10
      → (count' : ℕ) × (s' : S) × (rounds io net console http n count s ≡ done count' s')
        × (count' < 10)
  rounds_lem http n count s h = rounds-Ensures http n count h s
