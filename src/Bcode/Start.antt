-- ===== src/Bcode/Start.antt =====
-- A process to run tests in: malloc grants every call, and its blocks hold 0xAA.
use bt_server.Common.{ℕ, ◌+◌, true, refl, replicate}
pub use bt_server.Libc.{codes}
use bt_server.Bcode.{Process}
use bt_server.Bcode.Total.Endings.{Plenty}

-- With `slack` bytes behind those asked for.
abbrev pub start : ℕ → Process
start slack = record {
  errno = 0;
  calls = 0;
  live = 0;
  grant = λ _ _. true;
  content = λ _ n. replicate (n + slack) 0xAA;
}

pub start-Plenty : (slack : ℕ) → Plenty (start slack)
start-Plenty slack k n = refl
