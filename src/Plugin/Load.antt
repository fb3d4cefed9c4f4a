-- ===== src/Plugin/Load.antt =====
-- src/plugin.c: when a loading loop succeeds.
use netvizd.Common.{
  take-all, zero, suc, ◌+◌, ◌-◌, ◌≡◌, refl, sym, ap, subst, ◌↔◌, List, [], ◌∷◌, ◌++◌, Option, none,
  some, arith, length, length-append,
}
use netvizd.Common.Int.{ℤ, pos, negsuc}
use netvizd.Common.Text.{Text, codes}
use netvizd.Plugin.{
  Loader, plugin_path, new_stat, call_init, load_symbol, load_plugin, load_plugins, stor_p_init,
  sens_p_init, proto_p_init, auth_p_init,
}

-- The buffer is long enough for the whole path.
pub plugin_path-whole : (dir file : Text) → plugin_path dir file ≡ dir ++ b'/' ∷ file
unfolding plugin_path
plugin_path-whole dir file =
    take-all (length dir + length file + 2 - 1) (dir ++ b'/' ∷ file)
      (omega (arith, length-append dir (b'/' ∷ file)))

module _ {P : Type 0} (L : Loader P) (file : P → Text) where
  open L use {World, Module, Init, dlopen, dlsym, run_init}

  -- The plugin `p` is opened by its path, defines the symbol, and its function returns 0: `p'` is
  -- what it made of `p`, and the world goes from `w` to `w'`.
  pub record Loads (dir symbol : Text) (p : P) (w : World) (p' : P) (w' : World) : Type 0 where
    pub module_ : Module
    pub init : Init
    pub w1 : World
    pub w2 : World
    pub opens : dlopen (dir ++ b'/' ∷ file p) w ≡ (some module_, w1)
    pub finds : dlsym module_ symbol w1 ≡ (some init, w2)
    pub returns : run_init init p w2 ≡ ((p', pos 0), w')

  abbrev pub AllLoad : Text → Text → List P → World → List P → World → Type 0
  AllLoad dir symbol [] w [] w' = w ≡ w'
  AllLoad dir symbol [] w (q ∷ qs) w' = ⊥
  AllLoad dir symbol (p ∷ ps) w [] w' = ⊥
  AllLoad dir symbol (p ∷ ps) w (q ∷ qs) w' =
      (w1 : World) × Loads dir symbol p w q w1 × AllLoad dir symbol ps w1 qs w'

  new_stat-zero : (r s : ℤ) → new_stat r s ≡ pos 0 → (r ≡ pos 0) × (s ≡ pos 0)
  unfolding new_stat
  new_stat-zero (pos zero) s h = (refl, h)
  new_stat-zero (pos (suc n)) s h = cc
  new_stat-zero (negsuc n) s h = cc

  call_init-zero :
      (p : P) (stat : ℤ) (found : Option Init × World)
      → (call_init L file p stat found).0.1 ≡ pos 0
      → (stat ≡ pos 0)
        × ((f : Init) × (found.0 ≡ some f)
            × (run_init f p found.1 ≡ (
              ((call_init L file p stat found).0.0, pos 0),
              (call_init L file p stat found).1,
            )))
  unfolding call_init
  call_init-zero p stat (none, w) h = cc
  call_init-zero p stat (some f, w) h =
      let (r, s) = new_stat-zero (run_init f p w).0.1 stat h in
      (s, (f, refl, ap (λ z. (((run_init f p w).0.0, z), (run_init f p w).1)) r))

  load_symbol-Loads :
      (dir symbol : Text) (p : P) (stat : ℤ) (w : World) (opened : Option Module × World)
      → dlopen (dir ++ b'/' ∷ file p) w ≡ opened
      → (load_symbol L file symbol p stat opened).0.1 ≡ pos 0
      → (stat ≡ pos 0)
        × Loads dir symbol p w
            (load_symbol L file symbol p stat opened).0.0
            (load_symbol L file symbol p stat opened).1
  unfolding load_symbol
  load_symbol-Loads dir symbol p stat w (none, w1) e h = cc
  load_symbol-Loads dir symbol p stat w (some m, w1) e h =
      let (s, (f, found, ran)) = call_init-zero p stat (dlsym m symbol w1) h in
      (
        s,
        record {
          module_ = m;
          init = f;
          w1 = w1;
          w2 = (dlsym m symbol w1).1;
          opens = e;
          finds = ap (λ o. (o, (dlsym m symbol w1).1)) found;
          returns = ran;
        },
      )

  load_plugin-Loads :
      (dir symbol : Text) (p : P) (stat : ℤ) (w : World)
      → (load_plugin L file dir symbol p stat w).0.1 ≡ pos 0
      → (stat ≡ pos 0)
        × Loads dir symbol p w
            (load_plugin L file dir symbol p stat w).0.0
            (load_plugin L file dir symbol p stat w).1
  unfolding load_plugin
  load_plugin-Loads dir symbol p stat w h =
      load_symbol-Loads dir symbol p stat w (dlopen (plugin_path dir (file p)) w)
        (ap (λ s. dlopen s w) (sym (plugin_path-whole dir (file p)))) h

  load_plugins-AllLoad :
      (dir symbol : Text) (ps : List P) (stat : ℤ) (w : World)
      → (load_plugins L file dir symbol ps stat w).0.1 ≡ pos 0
      → (stat ≡ pos 0)
        × AllLoad dir symbol ps w
            (load_plugins L file dir symbol ps stat w).0.0
            (load_plugins L file dir symbol ps stat w).1
  unfolding load_plugins
  load_plugins-AllLoad dir symbol [] stat w h = (h, refl)
  load_plugins-AllLoad dir symbol (p ∷ ps) stat w h =
      let done = load_plugin L file dir symbol p stat w in
      let (s, rest) = load_plugins-AllLoad dir symbol ps done.0.1 done.1 h in
      let (s0, first) = load_plugin-Loads dir symbol p stat w s in (s0, (done.1, first, rest))

  load_plugin_complete :
      (dir symbol : Text) (p q : P) (w w' : World)
      → Loads dir symbol p w q w'
      → load_plugin L file dir symbol p (pos 0) w ≡ ((q, pos 0), w')
  unfolding load_plugin load_symbol call_init new_stat
  load_plugin_complete dir symbol p q w w' l =
      rw (plugin_path-whole dir (file p), l.opens, l.finds, l.returns) refl

  load_plugins_complete :
      (dir symbol : Text) (ps qs : List P) (w w' : World)
      → AllLoad dir symbol ps w qs w'
      → load_plugins L file dir symbol ps (pos 0) w ≡ ((qs, pos 0), w')
  unfolding load_plugins
  load_plugins_complete dir symbol [] [] w w' e = ap (λ v. (([], pos 0), v)) e
  load_plugins_complete dir symbol [] (q ∷ qs) w w' e = absurd e
  load_plugins_complete dir symbol (p ∷ ps) [] w w' e = absurd e
  load_plugins_complete dir symbol (p ∷ ps) (q ∷ qs) w w' (w1, l, e) =
      rw
        (load_plugin_complete dir symbol p q w w1 l, load_plugins_complete dir symbol ps qs w1 w' e)
        refl

  load_plugins_iff :
      (dir symbol : Text) (ps qs : List P) (w w' : World)
      → (load_plugins L file dir symbol ps (pos 0) w ≡ ((qs, pos 0), w'))
        ↔ AllLoad dir symbol ps w qs w'
  load_plugins_iff dir symbol ps qs w w' = (
    λ h.
        subst (λ (r : (List P × ℤ) × World). AllLoad dir symbol ps w r.0.0 r.1) h
          (load_plugins-AllLoad dir symbol ps (pos 0) w (ap (λ r. r.0.1) h)).1,
    load_plugins_complete dir symbol ps qs w w',
  )

  -- Each of the loading loops over the plugins `ps` returns 0, with the plugins `qs` in the list and in
  -- the world `w'`, exactly if every plugin in turn is opened by its whole path in the directory of its
  -- kind, defines the function of its kind, and that function returns 0; `qs` is what these functions
  -- made of the plugins, one by one.
  pub p_init-AllLoad :
      (pkglibdir : Text) (ps qs : List P) (w w' : World)
      → ((stor_p_init L file pkglibdir ps w ≡ ((qs, pos 0), w'))
          ↔ AllLoad (pkglibdir ++ codes "/plugins/storage") (codes "storage_init") ps w qs w')
        × ((sens_p_init L file pkglibdir ps w ≡ ((qs, pos 0), w'))
            ↔ AllLoad (pkglibdir ++ codes "/plugins/sensor") (codes "sensor_init") ps w qs w')
        × ((proto_p_init L file pkglibdir ps w ≡ ((qs, pos 0), w'))
            ↔ AllLoad (pkglibdir ++ codes "/plugins/proto") (codes "proto_init") ps w qs w')
        × ((auth_p_init L file pkglibdir ps w ≡ ((qs, pos 0), w'))
            ↔ AllLoad (pkglibdir ++ codes "/plugins/auth") (codes "auth_init") ps w qs w')
  unfolding stor_p_init sens_p_init proto_p_init auth_p_init
  p_init-AllLoad pkglibdir ps qs w w' = (
    load_plugins_iff (pkglibdir ++ codes "/plugins/storage") (codes "storage_init") ps qs w w',
    load_plugins_iff (pkglibdir ++ codes "/plugins/sensor") (codes "sensor_init") ps qs w w',
    load_plugins_iff (pkglibdir ++ codes "/plugins/proto") (codes "proto_init") ps qs w w',
    load_plugins_iff (pkglibdir ++ codes "/plugins/auth") (codes "auth_init") ps qs w w',
  )
