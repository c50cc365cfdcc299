-- ===== src/Username/Tests.antt =====
-- Runs of the username code.
use passmower.Prelude.{String, Option, none, some, true, false, ◌≡◌, refl}
use passmower.Fixtures.{settings}
use passmower.Username.{
  Source, Validator, get_username_source, sanitize_username, before_at, keep_alphanumeric,
  drop_digits, take_chars, is_lower, is_digit, is_kept, is_username_valid, blacklist,
  is_not_blacklisted, rules_hold,
}

-- A stand-in for the validator package that accepts everything.
abbrev lax : Validator
lax = record { is_length = λ lo hi u. true; is_alphanumeric = λ u. true; is_lowercase = λ u. true }

sanitize : Option String → Option String
unfolding sanitize_username before_at keep_alphanumeric drop_digits take_chars is_kept is_lower
    is_digit
sanitize = sanitize_username (λ x. x)

from_address : sanitize (some "42jo.doe@example.com") ≡ some "jodoe"
unfolding sanitize
from_address = refl

nothing_left : sanitize (some "007@example.com") ≡ none
unfolding sanitize
nothing_left = refl

root_prohibited : is_username_valid lax (some "root") ≡ false
unfolding is_username_valid rules_hold is_not_blacklisted blacklist
root_prohibited = refl

upstream_source :
    get_username_source (record settings { use_github_username = some "true" })
    ≡ some Source.upstream
unfolding get_username_source
upstream_source = refl
