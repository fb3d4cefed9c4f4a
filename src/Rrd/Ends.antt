-- ===== src/Rrd/Ends.antt =====
-- src/plugins/sensor/rrd.c: the fuel of a beat is enough, whatever the commands give.
use netvizd.Common.Text.{Text}
use netvizd.Rrd.{Course, out_of_fuel, null_pipe, read_failed, done}

abbrev Ends : {A : Type 0} → Course A → Type 0
Ends out_of_fuel = ⊥
Ends null_pipe = Unit {0}
Ends read_failed = Unit {0}
Ends (done a) = Unit {0}
