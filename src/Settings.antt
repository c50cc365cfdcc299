-- ===== src/Settings.antt =====
-- The environment variables that the modelled code reads (`process.env`), undefined where unset.
use passmower.Prelude.{Option, String}

pub record Settings : Type 0 where
  pub admin_group : Option String
  pub group_prefix : Option String
  pub required_group : Option String
  pub disable_frontend_edit : Option String
  pub preferred_email_domain : Option String
  pub enroll_users : Option String
  pub username_source : Option String
  pub use_github_username : Option String
  pub require_custom_username : Option String
  pub group_requests_enabled : Option String
  pub group_requests_require_existing_group : Option String
