-- ===== src/Domain.antt =====
-- src/domain: the direction of a queued message, and e-mail addresses in a child.
pub mod EmailAddress
use weiterleitung.Prelude.{◌≡◌, refl, Result, ok, err, ◌++◌, if◌then◌else◌, arith}
use weiterleitung.Text.{Text, lit, eq_text}

pub data Direction : Type 0 where
  forward reply : Direction

unfoldable pub as_str : Direction → Text
as_str forward = lit "forward"
as_str reply = lit "reply"

unfoldable pub from_str : Text → Result Text Direction
unfolding eq_text
from_str s =
    if eq_text s (lit "forward")
    then ok forward
    else if eq_text s (lit "reply")
    then ok reply
    else err (lit "unknown direction: " ++ s)
