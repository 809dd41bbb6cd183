-- ===== src/Connstring/Host.antt =====
-- mongodb-cwal-rs-master/src/connstring.rs: the `Host` of a server, with its derived equality.
use old_mongo_rust_driver.Prelude.{ℕ, ◌≡◌, ◌↔◌, Bool, true, not, ◌&&◌, [], arith, ◌==◌, is_empty}
use old_mongo_rust_driver.Prelude.Text.{Text, text_eq, text_eq_iff}

pub record Host : Type 0 where
  pub host_name : Text
  pub ipc : Text
  pub port : ℕ

-- DEFAULT_PORT
abbrev pub default_port : ℕ
default_port = 27017

unfoldable pub new : Text → ℕ → Host
new host_name port = record { host_name = host_name; ipc = []; port = port }

unfoldable pub with_ipc : Text → Host
with_ipc ipc = record { host_name = []; ipc = ipc; port = default_port }

unfoldable pub has_ipc : Host → Bool
has_ipc h = not (is_empty h.ipc)

-- `PartialEq`
unfoldable pub host_eq : Host → Host → Bool
host_eq a b = text_eq a.host_name b.host_name && text_eq a.ipc b.ipc && a.port == b.port

pub host_eq_iff : (a b : Host) → (host_eq a b ≡ true) ↔ (a ≡ b)
unfolding host_eq
host_eq_iff a b = ground (arith, text_eq_iff a.host_name b.host_name, text_eq_iff a.ipc b.ipc)
