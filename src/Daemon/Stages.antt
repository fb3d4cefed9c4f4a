-- ===== src/Daemon/Stages.antt =====
-- src/nvconfig.c and src/plugin.c: what each stage has done where it returns 0.
use netvizd.Common.{zero, suc, ◌≡◌, refl, sym, ap, List, ◌++◌, map, Bool, Option}
use netvizd.Common.Int.{ℤ, pos, negsuc}
use netvizd.Common.Text.{Text, codes}
use netvizd.Config.{Plug, NvConfig}
use netvizd.Plugin
use netvizd.Plugin.Load.{AllLoad, p_init-AllLoad}
use netvizd.Startup.{Lists}
use netvizd.Daemon.Plugins.{
  ConfigPlugin, InstPlugin, ProtoPlugin, Daemon, fresh_plugin, stor_instance, sens_instance,
}
use netvizd.Daemon.{
  Platform, config_stat, dl_stat, inst_loader, proto_loader, auth_loader, config_loader,
  nv_plugins_init, nv_config_init, stor_p_init, sens_p_init, proto_p_init, auth_p_init, configured,
}

dl_stat-zero : (ret : ℤ) → dl_stat ret ≡ pos 0 → ret ≡ pos 0
unfolding dl_stat
dl_stat-zero (pos zero) h = refl
dl_stat-zero (pos (suc n)) h = cc
dl_stat-zero (negsuc n) h = cc

module _ (O : Platform) where
  open O use {World, pkglibdir, lt_dlinit, left_over}

  pub nv_plugins_init-zero :
      (d d' : Daemon World)
      → nv_plugins_init O d ≡ (pos 0, d')
      → (w : World) × (lt_dlinit d.outer ≡ (pos 0, w)) × (d' ≡ record d { outer = w })
  unfolding nv_plugins_init
  nv_plugins_init-zero d d' h =
      let r = lt_dlinit d.outer in
      let zero_ret = dl_stat-zero r.0 (ap (λ (x : ℤ × Daemon World). x.0) h) in
      (r.1, ap (λ (n : ℤ). (n, r.1)) zero_ret, sym (ap (λ (x : ℤ × Daemon World). x.1) h))

  pub stor_p_init-zero :
      (d d' : Daemon World)
      → stor_p_init O d ≡ (pos 0, d')
      → (ps : List (InstPlugin World)) × (w : World) × AllLoad
          (inst_loader O)
          (λ p. p.plug.file)
          (pkglibdir ++ codes "/plugins/storage")
          (codes "storage_init")
          d.nv_stor_p_list
          d.outer
          ps
          w
        × (d' ≡ record d { nv_stor_p_list = ps; outer = w })
  unfolding stor_p_init
  stor_p_init-zero d d' h =
      let r =
        Plugin.stor_p_init (inst_loader O) (λ p. p.plug.file) pkglibdir d.nv_stor_p_list d.outer in
      let loads =
        p_init-AllLoad (inst_loader O) (λ p. p.plug.file) pkglibdir d.nv_stor_p_list r.0.0 d.outer
          r.1 in
      (
        r.0.0,
        r.1,
        loads.0.0 (ap (λ (n : ℤ). ((r.0.0, n), r.1)) (ap (λ (x : ℤ × Daemon World). x.0) h)),
        sym (ap (λ (x : ℤ × Daemon World). x.1) h),
      )

  pub sens_p_init-zero :
      (d d' : Daemon World)
      → sens_p_init O d ≡ (pos 0, d')
      → (ps : List (InstPlugin World)) × (w : World) × AllLoad
          (inst_loader O)
          (λ p. p.plug.file)
          (pkglibdir ++ codes "/plugins/sensor")
          (codes "sensor_init")
          d.nv_sens_p_list
          d.outer
          ps
          w
        × (d' ≡ record d { nv_sens_p_list = ps; outer = w })
  unfolding sens_p_init
  sens_p_init-zero d d' h =
      let r =
        Plugin.sens_p_init (inst_loader O) (λ p. p.plug.file) pkglibdir d.nv_sens_p_list d.outer in
      let loads =
        p_init-AllLoad (inst_loader O) (λ p. p.plug.file) pkglibdir d.nv_sens_p_list r.0.0 d.outer
          r.1 in
      (
        r.0.0,
        r.1,
        loads.1.0 (ap (λ (n : ℤ). ((r.0.0, n), r.1)) (ap (λ (x : ℤ × Daemon World). x.0) h)),
        sym (ap (λ (x : ℤ × Daemon World). x.1) h),
      )

  pub proto_p_init-zero :
      (d d' : Daemon World) (bs : List Bool)
      → proto_p_init O d ≡ ((pos 0, bs), d')
      → (ps : List (ProtoPlugin)) × (w : World) × AllLoad
          (proto_loader O)
          (λ p. p.plug.file)
          (pkglibdir ++ codes "/plugins/proto")
          (codes "proto_init")
          d.nv_proto_p_list
          d.outer
          ps
          w
        × (bs ≡ map (λ p. p.listen) ps)
        × (d' ≡ record d { nv_proto_p_list = ps; outer = w })
  unfolding proto_p_init
  proto_p_init-zero d d' bs h =
      let r =
        Plugin.proto_p_init (proto_loader O) (λ p. p.plug.file) pkglibdir d.nv_proto_p_list
          d.outer in
      let loads =
        p_init-AllLoad (proto_loader O) (λ p. p.plug.file) pkglibdir d.nv_proto_p_list r.0.0 d.outer
          r.1 in
      (
        r.0.0,
        r.1,
        loads.2.0 (
            ap (λ (n : ℤ). ((r.0.0, n), r.1))
              (ap (λ (x : (ℤ × List Bool) × Daemon World). x.0.0) h)),
        sym (ap (λ (x : (ℤ × List Bool) × Daemon World). x.0.1) h),
        sym (ap (λ (x : (ℤ × List Bool) × Daemon World). x.1) h),
      )

  pub auth_p_init-zero :
      (d d' : Daemon World)
      → auth_p_init O d ≡ (pos 0, d')
      → (ps : List (Plug)) × (w : World) × AllLoad
          (auth_loader O)
          (λ p. p.file)
          (pkglibdir ++ codes "/plugins/auth")
          (codes "auth_init")
          d.conf.auth_p
          d.outer
          ps
          w
        × (d' ≡ record d { conf = record d.conf { auth_p = ps }; outer = w })
  unfolding auth_p_init
  auth_p_init-zero d d' h =
      let r = Plugin.auth_p_init (auth_loader O) (λ p. p.file) pkglibdir d.conf.auth_p d.outer in
      let loads =
        p_init-AllLoad (auth_loader O) (λ p. p.file) pkglibdir d.conf.auth_p r.0.0 d.outer r.1 in
      (
        r.0.0,
        r.1,
        loads.3.0 (ap (λ (n : ℤ). ((r.0.0, n), r.1)) (ap (λ (x : ℤ × Daemon World). x.0) h)),
        sym (ap (λ (x : ℤ × Daemon World). x.1) h),
      )

  pub nv_config_init-zero :
      (name : Text) (d d' : Daemon World) (ls : Lists (Daemon World))
      → nv_config_init O name d ≡ ((pos 0, ls), d')
      → (cp : Option ConfigPlugin) × (stat : ℤ) × (c : NvConfig) × (w : World)
        × (Plugin.config_p_init
              (config_loader O)
              pkglibdir
              fresh_plugin
              name
              d.nv_config_p
              (d.conf, d.outer)
            ≡ ((cp, stat), (c, w)))
        × (left_over (config_stat stat c) w ≡ pos 0)
        × (ls
            ≡ record { stor_list = map stor_instance c.stor; sens_list = map sens_instance c.sens })
        × (d' ≡ configured O d cp c w)
  unfolding nv_config_init
  nv_config_init-zero name d d' ls h =
      let r =
        Plugin.config_p_init (config_loader O) pkglibdir fresh_plugin name d.nv_config_p
          (d.conf, d.outer) in
      (
        r.0.0,
        r.0.1,
        r.1.0,
        r.1.1,
        refl,
        ap (λ (x : (ℤ × Lists (Daemon World)) × Daemon World). x.0.0) h,
        sym (ap (λ (x : (ℤ × Lists (Daemon World)) × Daemon World). x.0.1) h),
        sym (ap (λ (x : (ℤ × Lists (Daemon World)) × Daemon World). x.1) h),
      )
