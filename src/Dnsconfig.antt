-- ===== src/Dnsconfig.antt =====
-- internal/dnsconfig: the system's DNS configuration, from /etc/resolv.conf or from Windows.
pub mod Atoi
pub mod Options
pub mod Unix
pub mod Windows
pub mod Laws
use getresolvd.Base.{ℕ, Bool, true, false, List, [], ◌∷◌, ◌*◌, Text, codes, ℤ, pos}

-- `Config`. A `time.Duration` counts nanoseconds; the modification time is a number.
pub record Config : Type 0 where
  pub servers : List Text
  pub search : List Text
  pub n_dots : ℤ
  pub timeout : ℤ
  pub attempts : ℤ
  pub rotate : Bool
  pub unknown_opt : Bool
  pub lookup : List Text
  pub m_time : ℕ
  pub single_request : Bool
  pub use_tcp : Bool
  pub trust_ad : Bool
  pub no_reload : Bool

-- `time.Second`.
abbrev pub second : ℕ
second = 1_000_000_000

abbrev pub default_ns : List Text
default_ns = codes "127.0.0.1:53" ∷ codes "[::1]:53" ∷ []

-- The literal at the head of `Read`.
abbrev pub initial : Config
initial = record {
  servers = [];
  search = [];
  n_dots = pos 1;
  timeout = pos (5 * second);
  attempts = pos 2;
  rotate = false;
  unknown_opt = false;
  lookup = [];
  m_time = 0;
  single_request = false;
  use_tcp = false;
  trust_ad = false;
  no_reload = false;
}
