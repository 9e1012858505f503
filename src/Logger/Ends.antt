-- ===== src/Logger/Ends.antt =====
-- src/logger.rs: logging ends, whatever the serial port answers.
use sprocket.Base.{ℕ, List, Ends, pure-Ensures, then-Ensures, if-Ensures}
use sprocket.Port.{Io}
use sprocket.Console.{Console, write_str}
use sprocket.Console.Ends.{write_str-Ends}
use sprocket.Logger.{LogLevel, enabled, log}

module _ {S : Type 0} (io : Io S) where
  pub log-Ends : (c : Console) (l : LogLevel) (loc args : List ℕ) → Ends (log io c l loc args)
  unfolding log
  log-Ends c l loc args =
      if-Ensures (enabled l)
        (then-Ensures (write_str io c _) _ (write_str-Ends io c _)
          (then-Ensures (write_str io c _) _ (write_str-Ends io c _) (write_str-Ends io c _)))
        (pure-Ensures tt tt)
