-- ===== src/Service/Examples.antt =====
-- src/service/mod.rs: a small page, and a network stack with one socket.
use sprocket.Base.{
  ℕ, ◌≡◌, refl, ap, Bool, true, not, ◌&&◌, ltb, length, false, [], ◌∷◌, done, arith, ◌<◌,
}
use sprocket.Logger.{codes}
use sprocket.Console.Examples.{Line, line_io, console}
use sprocket.Service.{Net, exhausted, response, http_page, time_text, rounds}
use sprocket.Service.Text.{valid_utf8}
use sprocket.Service.Page.{template, response-http_page}
use sprocket.Service.Idle.{Works, rounds_lem}

time_text_runs : time_text 9000512 ≡ codes "1 days, 1:00:05"
unfolding time_text
time_text_runs = refl

-- A character of two bytes, and a first byte without its second.
valid_utf8_runs :
    (valid_utf8 (b'a' ∷ 0xE2 ∷ 0x9A ∷ 0x99 ∷ []) ≡ true) × (valid_utf8 (0xC3 ∷ []) ≡ false)
unfolding valid_utf8
valid_utf8_runs = (refl, refl)

response-http_page_example :
    response (http_page (template (codes "v") (codes ", up ") (codes "."))) 6100
    ≡ codes "HTTP/1.1 200 OK\r\n\r\nv0.2.0, up 0 days, 0:01:01."
unfolding time_text
response-http_page_example =
    response-http_page (codes "v") (codes ", up ") (codes ".") refl refl refl 6100

-- a socket that is open and can send when something was put into the state; it is closed again after
-- each answer, and a second `listen` or an answer to nobody would fail
abbrev opened : Line → Bool
opened s = ltb 0 (length s)

abbrev quiet : Net Line
quiet = record {
  configure = λ mac s. done tt s;
  is_open = λ s. done (opened s) s;
  listen = λ port s. done (ltb 0 port && not (opened s)) (0 ∷ s);
  can_recv = λ s. done true s;
  recv = λ size s. done tt s;
  can_send = λ s. done (opened s) s;
  send_slice = λ bytes s. done (opened s) s;
  close = λ s. done tt [];
  poll = λ timestamp s. done exhausted s;
  halt = λ s. done tt s;
  ticks = λ s. done 0 s;
}

quiet-Works : Works quiet
quiet-Works = record {
  opened = opened;
  sendable = opened;
  is_open = λ s. refl;
  listen = λ port s h closed.
      let positive : ltb 0 port ≡ true = ground arith in (0 ∷ s, rw (positive, closed) refl);
  can_recv = λ s. (true, s, refl, tt);
  recv = λ size s. (tt, s, refl, tt);
  can_send = λ s. refl;
  send_slice = λ bytes s able. (s, ap (λ b. done b s) able);
  close = λ s. (tt, [], refl, tt);
  poll = λ timestamp s. (exhausted, s, refl, tt);
  halt = λ s. (tt, s, refl, tt);
  ticks = λ s. (0, s, refl, refl);
}

rounds_lem_example :
    (count' : ℕ) × (s' : Line) × (rounds line_io quiet console (codes "x") 25 9 [] ≡ done count' s')
    × (count' < 10)
rounds_lem_example = rounds_lem line_io quiet console quiet-Works (codes "x") 25 9 [] (omega arith)
