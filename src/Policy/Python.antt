-- ===== src/Policy/Python.antt =====
-- What backend/app/policies/scope_policy.py calls of CPython and does not implement: the URL grammar
-- of `urllib.parse`, the address grammar of `ipaddress` and the Unicode case tables.
use ai_api_security_platform.Prelude.{ℕ, Option, Text}

-- The `port` property of a split URL: absent, a number, or a ValueError when it is read.
pub data PortField : Type 0 where
  no_port invalid_port_field : PortField
  port_number : ℕ → PortField

pub record SplitUrl : Type 0 where
  pub scheme : Text
  pub username : Option Text
  pub password : Option Text
  pub hostname : Option Text
  pub port : PortField
  pub path : Text

pub record Python : Type 0 where
  -- `urlsplit`; none is a ValueError
  pub urlsplit : Text → Option SplitUrl
  -- `urllib.parse.unquote`
  pub unquote : Text → Text
  -- `ipaddress.ip_address(s).compressed`; none is a ValueError
  pub compressed_address : Text → Option Text
  pub lower : Text → Text
  pub upper : Text → Text
