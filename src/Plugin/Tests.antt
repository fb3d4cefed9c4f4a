-- ===== src/Plugin/Tests.antt =====
-- src/plugin.c: runs of the loading loops with a small loader.
use netvizd.Common.{◌≡◌, refl, ◌↔◌, List, [], ◌∷◌, ◌++◌, none, some, if◌then◌else◌}
use netvizd.Common.Int.{pos, negsuc}
use netvizd.Common.Text.{Text, codes, same_text}
use netvizd.Config.{Plug}
use netvizd.Plugin.{Loader, stor_p_init}
use netvizd.Plugin.Load.{AllLoad, p_init-AllLoad}

-- It opens every file but `lost`, finds every symbol, and keeps a log of what was opened.
abbrev small_loader : Loader Plug
small_loader = record {
  World = List Text;
  Module = Text;
  Init = Text;
  dlopen = λ path w.
      (if same_text path (codes "/l/plugins/storage/lost") then none else some path, path ∷ w);
  dlsym = λ m symbol w. (some symbol, w);
  run_init = λ f p w. ((record p { name = f }, pos 0), w);
}

abbrev pgsql_plug : Plug
pgsql_plug = record { name = codes "pg"; file = codes "pgsql" }

abbrev lost_plug : Plug
lost_plug = record { name = codes "no"; file = codes "lost" }

-- The loop goes on after a plugin that cannot be opened, and reports it.
stor_p_init-goes_on :
    stor_p_init small_loader (λ p. p.file) (codes "/l") (lost_plug ∷ pgsql_plug ∷ []) [] ≡ (
      (lost_plug ∷ record { name = codes "storage_init"; file = codes "pgsql" } ∷ [], negsuc 0),
      codes "/l/plugins/storage/pgsql" ∷ codes "/l/plugins/storage/lost" ∷ [],
    )
unfolding stor_p_init same_text
stor_p_init-goes_on = refl

p_init-AllLoad_example :
    ((stor_p_init small_loader (λ p. p.file) (codes "/l") (pgsql_plug ∷ []) [] ≡ (
      (record { name = codes "storage_init"; file = codes "pgsql" } ∷ [], pos 0),
      codes "/l/plugins/storage/pgsql" ∷ [],
    ))
      ↔ AllLoad small_loader
          (λ p. p.file)
          (codes "/l" ++ codes "/plugins/storage")
          (codes "storage_init")
          (pgsql_plug ∷ [])
          []
          (record { name = codes "storage_init"; file = codes "pgsql" } ∷ [])
          (codes "/l/plugins/storage/pgsql" ∷ []))
p_init-AllLoad_example =
    (p_init-AllLoad small_loader (λ p. p.file) (codes "/l") (pgsql_plug ∷ [])
      (record { name = codes "storage_init"; file = codes "pgsql" } ∷ []) []
      (codes "/l/plugins/storage/pgsql" ∷ [])).0
