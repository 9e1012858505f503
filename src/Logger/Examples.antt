-- ===== src/Logger/Examples.antt =====
-- Records on a serial line, and the theorem at one of them.
use sprocket.Base.{◌≡◌, refl, [], ◌∷◌, ◌++◌, done}
use sprocket.Console.{shown_all}
use sprocket.Console.Examples.{Line, line_io, serial, console}
use sprocket.Logger.{LogLevel, codes, last_component, log}
use sprocket.Logger.Lines.{record_line, log_lem}

-- A path without `::` is a component by itself.
last_component_runs : last_component (codes "sprocket") ≡ codes "sprocket"
unfolding last_component
last_component_runs = refl

last_component_nested : last_component (codes "a::b:::c") ≡ codes "c"
unfolding last_component
last_component_nested = refl

log_lem_example :
    (s' : Line) × (log line_io console LogLevel.warn
        (codes "sprocket" ++ b':' ∷ b':' ∷ codes "vm")
        (codes "low")
        []
      ≡ done tt s')
    × (s' ≡ [] ++ shown_all (record_line LogLevel.warn (codes "vm") (codes "low")))
log_lem_example =
    log_lem line_io serial console refl LogLevel.warn (codes "sprocket") (codes "vm") (codes "low")
      [] refl
