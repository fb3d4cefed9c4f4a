-- ===== src/Config/Validate/Tests.antt =====
-- src/nvconfig.c: the validation of the sample configuration, with and without the plugins that it lacks.
use netvizd.Common.{◌≡◌, refl}
use netvizd.Common.Int.{pos, negsuc}
use netvizd.Common.Outcome.{ok}
use netvizd.Config.File.Tests.{built, served, serving, served-built}
use netvizd.Config.Validate.{nv_validate_conf, init_stat, config_init}

pub served-made : config_init (pos 0) served ≡ ok (serving, pos 0)
unfolding config_init init_stat
served-made = rw served-built refl

serving-valid : nv_validate_conf serving ≡ pos 0
unfolding nv_validate_conf
serving-valid = refl

-- Without a protocol plugin.
built-invalid : nv_validate_conf built ≡ negsuc 0
unfolding nv_validate_conf
built-invalid = refl
