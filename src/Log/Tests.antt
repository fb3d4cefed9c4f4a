-- ===== src/Log/Tests.antt =====
-- src/netvizd.c: messages in the two modes.
use netvizd.Common.{◌≡◌, refl, true, false, [], ◌∷◌}
use netvizd.Common.Text.{codes}
use netvizd.Log.{log_debug, log_error, to_stderr, to_syslog, pri_err, nv_log}

error-twice :
    nv_log false false false log_error (codes "lost")
    ≡ to_syslog pri_err (codes "[error]: lost") ∷ to_stderr (codes "[error]: lost\n") ∷ []
unfolding nv_log
error-twice = refl

debug-lost : nv_log false true false log_debug (codes "lost") ≡ []
unfolding nv_log
debug-lost = refl
