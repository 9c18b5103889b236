-- ===== src/Tests/Conversation.antt =====
-- Conversations with the router behind them.
use weiterleitung.Prelude.{◌≡◌, refl, [], ◌∷◌, In, head, later, some, inl}
use weiterleitung.Text.{Bytes, lit}
use weiterleitung.Database.{World, OutboxRow}
use weiterleitung.Smtp.Session.{Session, handle_session}
use weiterleitung.Smtp.Session.Invariant.{IsOrderly}
use weiterleitung.Smtp.Router.{handle, mail_handler}
use weiterleitung.Smtp.Router.Closed.Growth.{IsKnown, AllKnown}
use weiterleitung.Smtp.Router.Closed.{IsOwn, handle-AllKnown, mail_handler-AllKnown}
use weiterleitung.Tests.Fixture.{ascii, lines, home, tables, router, world, incoming, config}

world-AllKnown : AllKnown tables
world-AllKnown = record { known = λ r h. go r h }
  where
    to_home :
        (r : OutboxRow)
        → r.message.envelope_to ≡ lit "me@home.org"
        → IsKnown tables r.message.envelope_to
    to_home r e = inl (home, head refl, rw e refl)

    go : (r : OutboxRow) → In r tables.outbox → IsKnown tables r.message.envelope_to
    go r (head q) = to_home r (rw q refl)
    go r (later (head q)) = to_home r (rw q refl)
    go r (later (later (head q))) = to_home r (rw q refl)
    go r (later (later (later h))) = elim h [ ]

handle-AllKnown_example : AllKnown (handle router incoming world).1.db
handle-AllKnown_example = handle-AllKnown router incoming world world-AllKnown

abbrev stream : Bytes
stream = lines (
    "EHLO me" ∷ "MAIL FROM:<eve@e.org>" ∷ "RCPT TO:<a@y.io>" ∷ "RCPT TO:<old@x.io>"
    ∷ "RCPT TO:<shop@x.io>" ∷ "DATA" ∷ "From: E" ∷ "" ∷ "hi" ∷ "." ∷ "QUIT" ∷ [])

mail_handler-AllKnown_example :
    (s : Session World) × (handle_session (mail_handler router) config world stream ≡ some s)
    × IsOrderly (IsOwn router) s
    × AllKnown s.world.db
mail_handler-AllKnown_example = mail_handler-AllKnown router config world stream world-AllKnown
