-- ===== src/Log/Whole.antt =====
-- src/netvizd.c: what `_nv_log` puts out.
use netvizd.Common.{
  take-all, ◌+◌, ◌-◌, ◌≤◌, ◌≡◌, refl, ◌↔◌, subst, sym, Bool, true, false, ◌&&◌, ◌||◌, not,
  Bool-cases, inl, inr, List, [], ◌∷◌, ◌++◌, arith, length, length-append, take, if◌then◌else◌,
}
use netvizd.Common.Text.{Text}
use netvizd.Log.{
  Priority, LogType, log_debug, log_info, log_warn, log_error, Output, to_stderr, to_stdout,
  to_syslog, prefix_of, print_format, priority_of, is_shown, is_error, new_line, to_console,
  to_system, nv_log,
}

prefix-short : (d : Bool) (t : LogType) → length (prefix_of d t) ≤ 16
prefix-short true log_debug = omega arith
prefix-short true log_info = omega arith
prefix-short true log_warn = omega arith
prefix-short true log_error = omega arith
prefix-short false log_debug = omega arith
prefix-short false log_info = omega arith
prefix-short false log_warn = omega arith
prefix-short false log_error = omega arith

-- The format is not cut, and there is room behind it: for the newline, and for the two bytes up to the
-- NUL that `_nv_log` writes.
format-fits :
    (d : Bool) (t : LogType) (m : Text)
    → (take (1024 + length m - 1) (prefix_of d t ++ m) ≡ prefix_of d t ++ m)
      × (length (prefix_of d t ++ m) + 2 ≤ 1024 + length m)
format-fits d t m =
    let short = prefix-short d t in
    let both = length-append (prefix_of d t) m in
    (take-all _ (prefix_of d t ++ m) (omega arith), omega arith)

print_format-whole :
    (d : Bool) (t : LogType) (m : Text)
    → is_shown d t ≡ true
    → print_format d t m ≡ prefix_of d t ++ m
unfolding print_format
print_format-whole true log_debug m h = (format-fits true log_debug m).0
print_format-whole true log_info m h = (format-fits true log_info m).0
print_format-whole true log_warn m h = (format-fits true log_warn m).0
print_format-whole true log_error m h = (format-fits true log_error m).0
print_format-whole false log_debug m h = cc
print_format-whole false log_info m h = (format-fits false log_info m).0
print_format-whole false log_warn m h = (format-fits false log_warn m).0
print_format-whole false log_error m h = (format-fits false log_error m).0

-- Every output carries the text, with a newline on a console.
abbrev pub AllCarry : Text → List Output → Type 0
AllCarry text [] = Unit {0}
AllCarry text (to_stderr s ∷ os) = (s ≡ text ++ b'\n' ∷ []) × AllCarry text os
AllCarry text (to_stdout s ∷ os) = (s ≡ text ++ b'\n' ∷ []) × AllCarry text os
AllCarry text (to_syslog p s ∷ os) = (s ≡ text) × AllCarry text os

-- The message goes to a log; and an error to the console too, unless the log is that of the system and
-- the daemon has forked.
abbrev pub on_stderr : List Output → Bool
on_stderr [] = false
on_stderr (to_stderr s ∷ os) = true
on_stderr (to_stdout s ∷ os) = on_stderr os
on_stderr (to_syslog p s ∷ os) = on_stderr os

AllCarry-if :
    (text : Text) (b : Bool) (os us : List Output)
    → AllCarry text os
    → AllCarry text us
    → AllCarry text (if b then os else us)
AllCarry-if text true os us h k = h
AllCarry-if text false os us h k = k

abbrev outputs : Bool → Bool → Bool → LogType → Text → List Output
outputs d s f t buf = if s then to_console d t buf else to_system d f t buf

syslog-AllCarry :
    (shown console : Bool) (p : Priority) (buf : Text)
    → AllCarry buf (
        (if shown then to_syslog p buf ∷ [] else [])
        ++ (if console then to_stderr (new_line buf) ∷ [] else []))
syslog-AllCarry true true p buf = (refl, (refl, tt))
syslog-AllCarry true false p buf = (refl, tt)
syslog-AllCarry false true p buf = (refl, tt)
syslog-AllCarry false false p buf = tt

outputs-AllCarry : (d s f : Bool) (t : LogType) (buf : Text) → AllCarry buf (outputs d s f t buf)
unfolding to_console to_system
outputs-AllCarry d true f t buf =
    AllCarry-if buf (is_error t) _ _ (refl, tt) (AllCarry-if buf (is_shown d t) _ _ (refl, tt) tt)
outputs-AllCarry d false f t buf =
    syslog-AllCarry (is_shown d t) (is_error t && not f) (priority_of t) buf

outputs-sent :
    (d s f : Bool) (t : LogType) (buf : Text)
    → ((outputs d s f t buf ≡ []) ↔ (is_shown d t ≡ false))
      × (on_stderr (outputs d s f t buf) ≡ (is_error t && (s || not f)))
unfolding to_console to_system
outputs-sent d s f t buf = ground arith

-- What `_nv_log` does with a message: nothing, exactly if it is a debug message outside of the debug
-- mode. Else each output carries the whole message behind the template of its type, with a newline on a
-- console, for which the buffer has room; and a message goes to standard error exactly if it is an error
-- and either standard output was asked for or the daemon has not forked.
pub nv_log-whole :
    (debug_mode log_stdout forked : Bool) (type : LogType) (message : Text)
    → let text = prefix_of debug_mode type ++ message in
      let sent = nv_log debug_mode log_stdout forked type message in
      ((sent ≡ []) ↔ (is_shown debug_mode type ≡ false))
      × AllCarry text sent
      × (on_stderr sent ≡ (is_error type && (log_stdout || not forked)))
      × (length text + 2 ≤ 1024 + length message)
unfolding nv_log
nv_log-whole d s f t m =
    let buf = print_format d t m in
    let (lost, console) = outputs-sent d s f t buf in
    (
      lost,
      elim (Bool-cases (is_shown d t)) [
        | inl h ↦
            subst (λ (x : Text). AllCarry x (outputs d s f t buf)) (print_format-whole d t m h)
              (outputs-AllCarry d s f t buf)
        | inr h ↦ subst (AllCarry (prefix_of d t ++ m)) (sym (lost.1 h)) tt
      ],
      console,
      (format-fits d t m).1,
    )
