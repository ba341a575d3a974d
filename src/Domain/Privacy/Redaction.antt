-- ===== src/Domain/Privacy/Redaction.antt =====
-- What `redact` of backend/app/domain/privacy.py leaves of a text.
use gd_classroom.Prelude.{◌<◌, ◌≡◌, [], ◌∷◌, ◌++◌, drop, Text, arith}
use gd_classroom.Domain.Privacy.{
  Matcher, PersonalInfoMatch, redaction, slice, patterns, find_all, find_personal_information,
  redact,
}

-- Two matches of which the second begins inside the first and ends behind it: the second is dropped
-- whole, so that what stands between the two ends is published.
pub redact-overlap :
    (re : Matcher) (text : Text) (a b : PersonalInfoMatch)
    → find_all re patterns text ≡ a ∷ b ∷ []
    → a.start < b.start
    → b.start < a.end
    → a.end < b.end
    → redact re text ≡ slice 0 a.start text ++ (redaction ++ drop a.end text)
unfolding redact find_personal_information
redact-overlap re text a b found one two three = rw found (ground arith)
