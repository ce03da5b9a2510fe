-- ===== src/Config.antt =====
-- internal/config: accounts and their identifiers (account.go, mobile.go), and the limits that the
-- account pool reads from the configuration and the environment (store_accessors.go).
pub mod Mobile
pub mod Limits
use generalcompute2api.Prelude.{List, [], ◌∷◌, if◌then◌else◌}
use generalcompute2api.Prelude.Text.{Str, trim_space}
use Mobile.{normalize_mobile_for_storage}

pub record Account : Type 0 where
  pub name : Str
  pub remark : Str
  pub email : Str
  pub mobile : Str
  pub password : Str
  pub token : Str
  pub proxy_id : Str
  pub cookie : Str
  pub session_id : Str
  pub organization_id : Str

abbrev or_mobile : Str → Str → Str
or_mobile [] mobile = mobile
or_mobile (c ∷ s) mobile = c ∷ s

-- The trimmed email, or else the normalised mobile number; empty if neither is there.
unfoldable pub identifier : Account → Str
identifier a = or_mobile (trim_space a.email) (normalize_mobile_for_storage a.mobile)
