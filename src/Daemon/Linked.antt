-- ===== src/Daemon/Linked.antt =====
-- src/netvizd.c with the configuration plugin src/plugins/config/file.c: from the file to the instances.
use netvizd.Common.{
  ℕ, zero, suc, ◌≡◌, ◌≢◌, refl, ap, subst, ◌∙◌, List, [], ◌∷◌, map, Option, none, some, get_elem?,
}
use netvizd.Common.Int.{ℤ, pos}
use netvizd.Common.Text.{Text}
use netvizd.Common.Outcome.{ok}
use netvizd.Config.{Inst, GlobalInst, FileConf, NvConfig, empty_config}
use netvizd.Config.File.Instances.{Pairs, InstOk, names_of}
use netvizd.Config.File.Integrity.{IsLinked, create_conf-IsLinked}
use netvizd.Config.Validate.{config_init, config_init-made, nv_validate_conf-zero, validated_whole}
use netvizd.Plugin.Load.{AllLoad}
use netvizd.Plugin.{Loader}
use netvizd.Startup.{Opt, Options, options, default_options, read_options, Process, main, returned}
use netvizd.Daemon.Plugins.{
  ConfigPlugin, InstPlugin, Daemon, fresh_plugin, new_inst_plugin, plugin_of, new_daemon,
}
use netvizd.Daemon.{Platform, inst_loader, system}
use netvizd.Daemon.Booted.{Booted}
use netvizd.Daemon.Configured.{Configured, main-Configured}

-- An element stands at the position.
abbrev Holds : {A : Type 0} → List A → ℕ → Type 0
Holds {A} xs i = (x : A) × (get_elem? xs i ≡ some x)

Holds-map :
    {A B C : Type 0} (f : A → B) (g : A → C) (xs : List A) (i : ℕ)
    → Holds (map f xs) i
    → Holds (map g xs) i
Holds-map f g [] i (x, e) = cc
Holds-map f g (x ∷ xs) zero h = (g x, refl)
Holds-map f g (x ∷ xs) (suc i) h = Holds-map f g xs i h

-- Each plugin of the list is loaded to one at its position.
Holds-loaded :
    {P : Type 0} (L : Loader P) (file : P → Text) (dir symbol : Text) (ps : List P) (w : L.World)
    (qs : List P) (w' : L.World) (i : ℕ)
    → AllLoad L file dir symbol ps w qs w'
    → Holds ps i
    → Holds qs i
Holds-loaded L file dir symbol [] w qs w' i k (x, e) = cc
Holds-loaded L file dir symbol (p ∷ ps) w [] w' i k h = absurd k
Holds-loaded L file dir symbol (p ∷ ps) w (q ∷ qs) w' zero k h = (q, refl)
Holds-loaded L file dir symbol (p ∷ ps) w (q ∷ qs) w' (suc i) (w1, _, k) h =
    Holds-loaded L file dir symbol ps w1 qs w' i k h

Pairs-at :
    {A B : Type 0} (R : A → B → Type 0) (xs : List A) (ys : List B) (i : ℕ) (y : B)
    → Pairs R xs ys
    → get_elem? ys i ≡ some y
    → (x : A) × R x y
Pairs-at R [] [] i y k e = cc
Pairs-at R [] (z ∷ zs) i y k e = absurd k
Pairs-at R (x ∷ xs) [] i y k e = cc
Pairs-at R (x ∷ xs) (z ∷ zs) zero y (r, k) e =
    (x, subst (R x) (ap (λ o. elim o [ some v ↦ v | none ↦ z ]) e) r)
Pairs-at R (x ∷ xs) (z ∷ zs) (suc i) y (r, k) e = Pairs-at R xs zs i y k e

module _ (O : Platform) where
  open O use {World, Init, left_over, run_config}

  -- The configuration plugin is that of file.c: `parsed` is what the parser returned and `f` what it handed
  -- over.
  abbrev pub IsFilePlugin : ℤ → FileConf → Type 0
  IsFilePlugin parsed f =
      (g : Init) (p : ConfigPlugin) (w : World)
      → config_init parsed f
        ≡ ok ((run_config g p empty_config w).1.0, (run_config g p empty_config w).0.1)

  -- The plugin of every instance of the list is loaded.
  abbrev pub AllFound : List (InstPlugin World) → List Inst → Type 0
  AllFound ps is =
      (n : ℕ) (i : Inst)
      → get_elem? is n ≡ some i
      → (p : InstPlugin World) × (plugin_of ps i ≡ some p)

  AllFound-of_Pairs :
      (c_plugs : List _) (dir symbol : Text) (w w' : World) (qs : List (InstPlugin World))
      (fs : List GlobalInst) (is : List Inst)
      → AllLoad (inst_loader O) (λ p. p.plug.file) dir symbol (map new_inst_plugin c_plugs) w qs w'
      → Pairs (InstOk (names_of c_plugs)) fs is
      → AllFound qs is
  AllFound-of_Pairs c_plugs dir symbol w w' qs fs is loaded k n i e =
      let (f, inst) = Pairs-at (InstOk (names_of c_plugs)) fs is n i k e in
      let (j, name, ptr, at, _) = inst.plug in
      let (q, found) =
        Holds-loaded (inst_loader O) (λ p. p.plug.file) dir symbol (map new_inst_plugin c_plugs) w
          qs w' j loaded (Holds-map (λ p. p.name) new_inst_plugin c_plugs j (name, at)) in
      (
        q,
        ap
              (λ (o : Option ℕ). elim o as (λ _. Option (InstPlugin World)) [
                | none ↦ none
                | some m ↦ get_elem? qs m
              ])
              ptr
            ∙ found,
      )

  -- What the file `f` has become.
  pub record Linked (f : FileConf) (name : Text) (w : World) (q : Process (Daemon World))
      : Type 0 where
    pub booted : Booted O name w q
    pub configured : Configured O name booted.w1 booted.conf booted.w2
    pub links : IsLinked f booted.conf
    pub has_system : booted.conf.sys ≢ []
    pub storages_found : AllFound booted.stor_plugins booted.conf.stor
    pub sensors_found : AllFound booted.sens_plugins booted.conf.sens

  made_of_loads :
      (parsed : ℤ) (f : FileConf) (name : Text) (w : World) (c : NvConfig) (w' : World)
      → IsFilePlugin parsed f
      → Configured O name w c w'
      → config_init parsed f ≡ ok (c, pos 0)
  made_of_loads parsed f name w c w' file k =
      let l = k.loads in
      let first : empty_config ≡ l.w1.0 = ap (λ r. r.1.0) l.opens in
      let then_ : l.w1.0 ≡ l.w2.0 = ap (λ r. r.1.0) l.finds in
      file l.init fresh_plugin l.w2.1
      ∙ ap
          (λ (d : NvConfig). ok (
            (run_config l.init fresh_plugin d l.w2.1).1.0,
            (run_config l.init fresh_plugin d l.w2.1).0.1,
          ))
          (first ∙ then_)
      ∙ ap (λ (r : (ConfigPlugin × ℤ) × (NvConfig × World)). ok (r.1.0, r.0.1)) l.returns

  -- Where the configuration plugin is that of file.c, what is left over of `nv_config_init` is its last status,
  -- and `main` returns 0: the configuration was made from the file without an error and is valid, every
  -- reference in it leads to what the file names, and there is a system; and the plugin of every storage
  -- instance and every sensor instance was loaded, so that its initialisation was looked up in a plugin
  -- that is there.
  pub main-Linked :
      (keeps : (stat : ℤ) (w : World) → left_over stat w ≡ stat) (parsed : ℤ) (f : FileConf)
      → IsFilePlugin parsed f
      → (opts : List Opt) (o : Options) (w : World) (p : Process (Daemon World))
      → read_options opts default_options ≡ options o
      → main (system O) opts (new_daemon w) ≡ returned (pos 0) p
      → (q : Process (Daemon World)) × Linked f o.config_name w q
  main-Linked keeps parsed f file opts o w p e h =
      let (q, b, k) = main-Configured O keeps opts o w p e h in
      let made = made_of_loads parsed f o.config_name b.w1 b.conf b.w2 file k in
      let valid =
        (nv_validate_conf-zero b.conf).1 (k.has_proto, k.has_auth, k.has_stor, k.has_dset) in
      let links = create_conf-IsLinked f b.conf (config_init-made parsed f b.conf made) in
      (
        q,
        record {
          booted = b;
          configured = k;
          links = links;
          has_system = (validated_whole parsed f b.conf made valid).1.1;
          storages_found =
              AllFound-of_Pairs b.conf.stor_p _ _ b.w2 b.w3 b.stor_plugins f.storages b.conf.stor
                b.storages links.storages;
          sensors_found =
              AllFound-of_Pairs b.conf.sens_p _ _ b.w3 b.w4 b.sens_plugins f.sensors b.conf.sens
                b.sensors links.sensors;
        },
      )
