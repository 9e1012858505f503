-- ===== src/Service.antt =====
-- src/service/mod.rs: the demonstration web server. The network stack is the crate smoltcp, whose
-- operations are a parameter, and the disk of the file system is one. The buffers and the address
-- tables that smoltcp is given belong to its state.
pub mod Text
pub mod Files
pub mod Whole
pub mod Page
pub mod Idle
mod Examples
mod WholeExamples
use sprocket.Base.{
  ℕ, zero, suc, ◌+◌, ◌-◌, ◌/◌, ◌%◌, Bool, true, false, not, Option, none, some, List, [], ◌∷◌, ◌++◌,
  replicate, ◌==◌, if◌then◌else◌, u32, Cmd, Run, done, pure, panic, assert, ◌>>=◌, ◌>>◌,
}
use sprocket.Port.{Io}
use sprocket.Console.{Console}
use sprocket.Logger.{LogLevel, codes, log}
use sprocket.SimpleFs.Types.{Disk}
use sprocket.Service.Files.{read_whole, run_fs}
use sprocket.Rtl8139.{Rtl8139, mac_address}
use sprocket.Service.Text.{valid_utf8, replace, decimal, two_digits}
use sprocket.Uptime.{uptime}

abbrev pub idle_threshold : ℕ
idle_threshold = 10

-- `UserService::name`
abbrev pub name : List ℕ
name = codes "COFFLOS HTTP Demo"

-- the module path of this file
abbrev pub module_path : List ℕ
module_path = codes "sprocket::service"

abbrev pub header : List ℕ
header = codes "HTTP/1.1 200 OK\r\n\r\n"

-- `env!("CARGO_PKG_VERSION")`
abbrev pub version : List ℕ
version = codes "0.2.0"

-- What `poll` returns; the text is that of an error.
pub data Polled : Type 0 where
  ok exhausted : Polled
  error : List ℕ → Polled

-- The operations of the network stack and of the processor that the server uses, and the count of
-- ticks. The answer of `listen` and `send_slice` is whether they succeed.
pub record Net (S : Type 0) : Type 0 where
  pub configure : (mac : List ℕ) → Cmd S (Unit {0})
  pub is_open : Cmd S Bool
  pub listen : (port : ℕ) → Cmd S Bool
  pub can_recv : Cmd S Bool
  pub recv : (size : ℕ) → Cmd S (Unit {0})
  pub can_send : Cmd S Bool
  pub send_slice : List ℕ → Cmd S Bool
  pub close : Cmd S (Unit {0})
  pub poll : (timestamp : ℕ) → Cmd S Polled
  pub halt : Cmd S (Unit {0})
  pub ticks : Cmd S ℕ

-- the text that stands for `${{TIME}}`
unfoldable pub time_text : (ticks : ℕ) → List ℕ
unfolding uptime decimal two_digits
time_text ticks =
    let (days, hours, minutes, seconds) = uptime ticks in
    decimal days
    ++ codes " days, "
    ++ decimal hours
    ++ codes ":"
    ++ two_digits minutes
    ++ codes ":"
    ++ two_digits seconds

-- what is sent, for the page `http`
unfoldable pub response : (http : List ℕ) → (ticks : ℕ) → List ℕ
unfolding replace time_text
response http ticks = replace (codes "${{TIME}}") (time_text ticks) http

-- the page with its header
unfoldable pub http_page : (html : List ℕ) → List ℕ
unfolding replace
http_page html = header ++ replace (codes "${{VERSION}}") version html

module _ {S : Type 0} (io : Io S) (net : Net S) (console : Console) where
  abbrev pub info : List ℕ → Cmd S (Unit {0})
  info args = log io console LogLevel.info module_path args

  -- `start` up to its loop
  unfoldable pub load_page : Disk S → Cmd S (List ℕ)
  load_page disk = do
    info (codes "Reading root fs")
    readme ← run_fs (read_whole disk (codes "README.md"))
    if valid_utf8 readme then info readme else pure tt
    html ← run_fs (read_whole disk (codes "index.html"))
    assert (valid_utf8 html)
    pure (http_page html)

  -- The answer to a request that can be answered.
  unfoldable pub answer : (http : List ℕ) → Cmd S (Unit {0})
  answer http = do
    ticks ← net.ticks
    sent ← net.send_slice (response http ticks)
    assert sent
    info (codes "socket closing")
    net.close

  -- the part of a round that uses the socket
  unfoldable pub use_socket : (http : List ℕ) → Cmd S (Unit {0})
  use_socket http = do
    opened ← net.is_open
    if not opened then (do listening ← net.listen 80; assert listening) else pure tt
    receiving ← net.can_recv
    if receiving
        then (do net.recv 200; sending ← net.can_send; if sending then answer http else pure tt)
        else pure tt

  -- what follows on a poll, with the count of polls that found nothing
  unfoldable pub after_poll : (count : ℕ) → Polled → Cmd S ℕ
  after_poll count ok = pure count
  after_poll count exhausted =
      if u32 (count + 1) == idle_threshold then (do net.halt; pure 0) else pure (u32 (count + 1))
  after_poll count (error e) = do
    log io console LogLevel.warn module_path (codes "poll error: " ++ e)
    pure count

  -- the body of the inner loop
  unfoldable pub round : (http : List ℕ) → (count : ℕ) → Cmd S ℕ
  round http count = do use_socket http; polled ← net.poll 10; after_poll count polled

  -- so many rounds of the loop, which never ends
  unfoldable pub rounds : (http : List ℕ) → (n count : ℕ) → Cmd S ℕ
  rounds http zero count = pure count
  rounds http (suc n) count = do count' ← round http count; rounds http n count'

  -- `start`, for so many rounds. The lock on the driver's static yields the driver of the card.
  unfoldable pub start : Disk S → Option Rtl8139 → (n : ℕ) → Cmd S ℕ
  start disk nic n = do
    http ← load_page disk
    elim nic [
      | none ↦ λ _. panic
      | some r ↦ do mac ← mac_address io r; net.configure mac; rounds http n 0
    ]
