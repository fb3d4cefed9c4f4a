-- ===== src/Log.antt =====
-- src/netvizd.c and src/netvizd.h: `_nv_log`, up to the `printf` functions that put in the arguments.
pub mod Whole
mod Tests
use netvizd.Common.{
  ℕ, ◌+◌, ◌-◌, ◌≡◌, Bool, true, false, ◌&&◌, not, List, [], ◌∷◌, ◌++◌, if◌then◌else◌, length, take,
}
use netvizd.Common.Text.{Text, codes}

pub data LogType : Type 0 where
  log_debug log_info log_warn log_error : LogType

-- The priorities of `syslog` in use.
pub data Priority : Type 0 where
  pri_debug pri_info pri_warning pri_err : Priority

-- A call of `vfprintf` on standard error, of `vprintf`, and of `vsyslog`, with the format.
pub data Output : Type 0 where
  to_stderr to_stdout : Text → Output
  to_syslog : Priority → Text → Output

-- The templates in front of the message; those of the debug mode have places for a file and a line.
abbrev pub prefix_of : Bool → LogType → Text
prefix_of true log_debug = codes "[debug|%s:%d]: "
prefix_of true log_info = codes " [info|%s:%d]: "
prefix_of true log_warn = codes " [warn|%s:%d]: "
prefix_of true log_error = codes "[error|%s:%d]: "
prefix_of false log_debug = []
prefix_of false log_info = codes " [info]: "
prefix_of false log_warn = codes " [warn]: "
prefix_of false log_error = codes "[error]: "

-- What the buffer holds: it is left empty for a debug message outside of the debug mode.
pub print_format : Bool → LogType → Text → Text
print_format false log_debug message = []
print_format debug_mode type message =
    let len = 1024 + length message in take (len - 1) (prefix_of debug_mode type ++ message)

pub priority_of : LogType → Priority
priority_of log_debug = pri_debug
priority_of log_info = pri_info
priority_of log_warn = pri_warning
priority_of log_error = pri_err

abbrev pub is_shown : Bool → LogType → Bool
is_shown true type = true
is_shown false log_debug = false
is_shown false type = true

abbrev pub is_error : LogType → Bool
is_error log_error = true
is_error _ = false

abbrev pub new_line : Text → Text
new_line buf = buf ++ b'\n' ∷ []

pub to_console : Bool → LogType → Text → List Output
to_console debug_mode type buf =
    if is_error type
    then to_stderr (new_line buf) ∷ []
    else if is_shown debug_mode type
    then to_stdout (new_line buf) ∷ []
    else []

pub to_system : Bool → Bool → LogType → Text → List Output
unfolding priority_of
to_system debug_mode forked type buf =
    (if is_shown debug_mode type then to_syslog (priority_of type) buf ∷ [] else [])
    ++ (if is_error type && not forked then to_stderr (new_line buf) ∷ [] else [])

pub nv_log : Bool → Bool → Bool → LogType → Text → List Output
unfolding print_format to_console to_system
nv_log debug_mode log_stdout forked type message =
    let buf = print_format debug_mode type message in
    if log_stdout then to_console debug_mode type buf else to_system debug_mode forked type buf
