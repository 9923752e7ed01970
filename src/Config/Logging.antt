-- ===== src/Config/Logging.antt =====
-- `Mode` of pkg/logger/mode.go: where the log goes, and the log file that is open. Opening a file is
-- a parameter.
use spaceship.Base.{Bool, Option, none, some, Bytes, codes, same, if◌then◌else◌}
use spaceship.Hosts.{is_empty}

pub data Target : Type 0 where
  stdout discard : Target
  file : Bytes → Target

pub record Logger : Type 0 where
  pub output : Target
  pub log_file : Option Bytes

unfoldable pub close_current : Logger → Logger
close_current l = record l { log_file = none }

unfoldable pub set_default : Logger → Logger
set_default l = close_current (record l { output = stdout })

unfoldable pub set_mode : (Bytes → Bool) → Logger → Bytes → Logger
set_mode opens l mode =
    if is_empty mode
    then set_default l
    else if same mode (codes "null")
    then close_current (record l { output = discard })
    else if same mode (codes "skip")
    then l
    else if opens mode
    then record l { output = file mode; log_file = some mode }
    else set_default l
