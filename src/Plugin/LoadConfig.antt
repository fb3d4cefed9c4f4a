-- ===== src/Plugin/LoadConfig.antt =====
-- src/plugin.c: when the configuration plugin is loaded.
use netvizd.Common.{◌≡◌, refl, sym, ap, ◌∙◌, ◌↔◌, ◌++◌, ◌∷◌, Option, none, some}
use netvizd.Common.Int.{ℤ, pos, negsuc}
use netvizd.Common.Text.{Text, codes}
use netvizd.Plugin.{Loader, allocated, config_call, config_symbol, config_p_init}
use netvizd.Plugin.Load.{plugin_path-whole, Loads}

module _ {P : Type 0} (L : Loader P) (pkglibdir : Text) (fresh : P) where
  open L use {World, Module, Init, dlopen, dlsym, run_init}

  config_call-Loads :
      (file : Text) (p : Option P) (w : World) (m : Module) (w1 : World)
      → dlopen (pkglibdir ++ codes "/plugins/config" ++ b'/' ∷ file) w ≡ (some m, w1)
      → (found : Option Init × World) → dlsym m (codes "config_init") w1 ≡ found
      → (q : Option P) (w' : World) → config_call L pkglibdir fresh p found ≡ ((q, pos 0), w')
      → (q' : P) × (q ≡ some q')
        × Loads L
            (λ _. file)
            (pkglibdir ++ codes "/plugins/config")
            (codes "config_init")
            (allocated L pkglibdir fresh p)
            w
            q'
            w'
  unfolding config_call
  config_call-Loads file p w m w1 e (none, w2) f q w' h = cc
  config_call-Loads file p w m w1 e (some g, w2) f q w' h =
      let r = run_init g (allocated L pkglibdir fresh p) w2 in
      (
        r.0.0,
        sym (ap (λ (x : (Option P × ℤ) × World). x.0.0) h),
        record {
          module_ = m;
          init = g;
          w1 = w1;
          w2 = w2;
          opens = e;
          finds = f;
          returns =
              ap (λ (x : ℤ × World). ((r.0.0, x.0), x.1))
                (ap (λ (x : (Option P × ℤ) × World). (x.0.1, x.1)) h);
        },
      )

  config_symbol-Loads :
      (file : Text) (p : Option P) (w : World) (opened : Option Module × World)
      → dlopen (pkglibdir ++ codes "/plugins/config" ++ b'/' ∷ file) w ≡ opened
      → (q : Option P) (w' : World) → config_symbol L pkglibdir fresh p opened ≡ ((q, pos 0), w')
      → (q' : P) × (q ≡ some q')
        × Loads L
            (λ _. file)
            (pkglibdir ++ codes "/plugins/config")
            (codes "config_init")
            (allocated L pkglibdir fresh p)
            w
            q'
            w'
  unfolding config_symbol
  config_symbol-Loads file p w (none, w1) e q w' h = cc
  config_symbol-Loads file p w (some m, w1) e q w' h =
      config_call-Loads file p w m w1 e (dlsym m (codes "config_init") w1) refl q w' h

  config_p_init_complete :
      (file : Text) (p : Option P) (w : World) (q' : P) (w' : World)
      → Loads L
          (λ _. file)
          (pkglibdir ++ codes "/plugins/config")
          (codes "config_init")
          (allocated L pkglibdir fresh p)
          w
          q'
          w'
      → config_p_init L pkglibdir fresh file p w ≡ ((some q', pos 0), w')
  unfolding config_p_init config_symbol config_call
  config_p_init_complete file p w q' w' l =
      rw
        (plugin_path-whole (pkglibdir ++ codes "/plugins/config") file, l.opens, l.finds, l.returns)
        refl

  -- `config_p_init` returns 0, with the structure `q` and in the world `w'`, exactly if the plugin is opened
  -- by its whole path, defines `config_init`, and that function returns 0 and makes `q` of the structure,
  -- which is allocated first where there is none.
  pub config_p_init-Loads :
      (file : Text) (p q : Option P) (w w' : World)
      → (config_p_init L pkglibdir fresh file p w ≡ ((q, pos 0), w')) ↔ (
          (q' : P) × (q ≡ some q')
          × Loads L
              (λ _. file)
              (pkglibdir ++ codes "/plugins/config")
              (codes "config_init")
              (allocated L pkglibdir fresh p)
              w
              q'
              w')
  unfolding config_p_init
  config_p_init-Loads file p q w w' = (
    λ h.
        config_symbol-Loads file p w _
          (ap (λ s. dlopen s w)
            (sym (plugin_path-whole (pkglibdir ++ codes "/plugins/config") file)))
          q w' h,
    λ (q', e, l).
        config_p_init_complete file p w q' w' l ∙ ap (λ (x : Option P). ((x, pos 0), w')) (sym e),
  )

  -- A file that cannot be opened gives -1, and leaves the structure as it is.
  pub config_p_init-unopened :
      (file : Text) (p : Option P) (w w' : World)
      → dlopen (pkglibdir ++ codes "/plugins/config" ++ b'/' ∷ file) w ≡ (none, w')
      → config_p_init L pkglibdir fresh file p w ≡ ((p, negsuc 0), w')
  unfolding config_p_init config_symbol
  config_p_init-unopened file p w w' e =
      rw (plugin_path-whole (pkglibdir ++ codes "/plugins/config") file, e) refl
