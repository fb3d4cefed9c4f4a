-- ===== src/Net/Session/Find.antt =====
-- src/plugins/proto/net.c and src/plugins/config/file.c: which data set a `fetch` finds in a
-- configuration that was read from a file.
use netvizd.Common.{
  ℕ, zero, suc, ◌≡◌, refl, sym, ap, subst, ◌∙◌, inl, inr, Bool, true, false, ◌&&◌, List, [], ◌∷◌,
  ◌++◌, map, Option, none, some, Bool-cases, get_elem?,
}
use netvizd.Common.Int.{ℤ, pos}
use netvizd.Common.Text.{Text, same_text, same_text_iff}
use netvizd.Common.Outcome.{ok, ◌>>=◌}
use netvizd.Config.{NvSys, NvDsts, NvConfig, DataSet, FileConf}
use netvizd.Config.File.{create_conf, deref}
use netvizd.Config.File.Names.{PointsTo}
use netvizd.Config.File.Instances.{Pairs, ok_injective}
use netvizd.Config.File.DataSets.{DsOk}
use netvizd.Config.File.Integrity.{create_conf-IsLinked}
use netvizd.Net.{fetch, parse_request}
use netvizd.Net.Parse.{NoUpper, parse_request-lower}
use netvizd.Net.Session.{sys_name, find_dset}

both_true : (a b : Bool) → a && b ≡ true → (a ≡ true) × (b ≡ true)
both_true true true h = (refl, refl)
both_true true false h = cc
both_true false b h = cc

-- Every data set belongs to a system.
abbrev pub HasSystems : NvConfig → List NvDsts → Type 0
HasSystems c [] = Unit {0}
HasSystems c (d ∷ ds) = ((n : Text) × (sys_name c d ≡ ok n)) × HasSystems c ds

get_elem?-map :
    (ss : List NvSys) (i : ℕ) (n : Text)
    → get_elem? (map (λ s. s.name) ss) i ≡ some n
    → (s : NvSys) × (get_elem? ss i ≡ some s)
get_elem?-map [] i n h = cc
get_elem?-map (s ∷ ss) zero n h = (s, refl)
get_elem?-map (s ∷ ss) (suc i) n h = get_elem?-map ss i n h

sys_name-found :
    (c : NvConfig) (d : NvDsts) (want : Text)
    → PointsTo want (map (λ s. s.name) c.sys) d.sys
    → (n : Text) × (sys_name c d ≡ ok n)
unfolding sys_name
sys_name-found c d want (i, n, set, at, _) =
    let (s, found) = get_elem?-map c.sys i n at in
    (
      s.name,
      ap (λ (p : Option ℕ). deref p >>= λ j. deref (get_elem? c.sys j) >>= λ (t : NvSys). ok t.name)
            set
          ∙ ap (λ (p : Option NvSys). deref p >>= λ t. ok t.name) found,
    )

HasSystems-of_Pairs :
    (c : NvConfig) (fs : List DataSet) (ds : List NvDsts) → Pairs (DsOk c) fs ds → HasSystems c ds
HasSystems-of_Pairs c [] [] k = tt
HasSystems-of_Pairs c [] (d ∷ ds) k = absurd k
HasSystems-of_Pairs c (f ∷ fs) [] k = absurd k
HasSystems-of_Pairs c (f ∷ fs) (d ∷ ds) (k, ks) =
    (sys_name-found c d f.system k.system, HasSystems-of_Pairs c fs ds ks)

pub create_conf-HasSystems :
    (f : FileConf) (c : NvConfig) → create_conf f ≡ ok (c, pos 0) → HasSystems c c.dsts
create_conf-HasSystems f c h =
    HasSystems-of_Pairs c f.data_sets c.dsts (create_conf-IsLinked f c h).data_sets

-- The data set `d` has the two names of the request.
abbrev pub IsNamed : NvConfig → Text → Text → NvDsts → Type 0
IsNamed c system dsname d = (d.name ≡ dsname) × (sys_name c d ≡ ok system)

abbrev pub NoneNamed : NvConfig → Text → Text → List NvDsts → Type 0
NoneNamed c system dsname [] = Unit {0}
NoneNamed c system dsname (d ∷ ds) = ¬ IsNamed c system dsname d × NoneNamed c system dsname ds

-- The first data set with the two names, or none if there is none.
abbrev pub IsFirst : NvConfig → Text → Text → List NvDsts → Option NvDsts → Type 0
IsFirst c system dsname ds none = NoneNamed c system dsname ds
IsFirst c system dsname ds (some d) =
    (before : List NvDsts) × (after : List NvDsts) × (ds ≡ before ++ d ∷ after)
    × NoneNamed c system dsname before
    × IsNamed c system dsname d

IsFirst-cons :
    (c : NvConfig) (system dsname : Text) (d : NvDsts) (ds : List NvDsts) (r : Option NvDsts)
    → ¬ IsNamed c system dsname d
    → IsFirst c system dsname ds r
    → IsFirst c system dsname (d ∷ ds) r
IsFirst-cons c system dsname d ds none other k = (other, k)
IsFirst-cons c system dsname d ds (some e) other (before, after, split, others, is) =
    (d ∷ before, after, ap (◌∷◌ d) split, (other, others), is)

find_dset-other :
    (c : NvConfig) (system dsname n : Text) (d : NvDsts) (ds : List NvDsts) (b : Bool)
    → sys_name c d ≡ ok n
    → same_text d.name dsname ≡ b
    → b && same_text n system ≡ false
    → (find_dset c system dsname (d ∷ ds) ≡ find_dset c system dsname ds)
      × ¬ IsNamed c system dsname d
unfolding find_dset
find_dset-other c system dsname n d ds false known e h =
    (rw e refl, λ is. let f = (same_text_iff d.name dsname).1 is.0 in cc)
find_dset-other c system dsname n d ds true known e h = (
  rw (e, known, h) refl,
  λ is. let f = (same_text_iff n system).1 (ok_injective (sym known ∙ is.1)) in cc,
)

find_dset-this :
    (c : NvConfig) (system dsname n : Text) (d : NvDsts) (ds : List NvDsts)
    → sys_name c d ≡ ok n
    → same_text d.name dsname && same_text n system ≡ true
    → (find_dset c system dsname (d ∷ ds) ≡ ok (some d)) × IsNamed c system dsname d
unfolding find_dset
find_dset-this c system dsname n d ds known h =
    let (h1, h2) = both_true (same_text d.name dsname) (same_text n system) h in
    (
      rw (h1, known, h2) refl,
      ((same_text_iff d.name dsname).0 h1, known ∙ ap ok ((same_text_iff n system).0 h2)),
    )

find_dset-in :
    (c : NvConfig) (system dsname : Text) (ds : List NvDsts)
    → HasSystems c ds
    → (r : Option NvDsts) × (find_dset c system dsname ds ≡ ok r) × IsFirst c system dsname ds r
unfolding find_dset
find_dset-in c system dsname [] k = (none, refl, tt)
find_dset-in c system dsname (d ∷ ds) ((n, known), ks) =
    elim (Bool-cases (same_text d.name dsname && same_text n system)) [
      | inl this ↦
          let (found, is) = find_dset-this c system dsname n d ds known this in
          (some d, found, ([], ds, refl, tt, is))
      | inr other ↦
          let (r, found, first) = find_dset-in c system dsname ds ks in
          let (past, differs) =
            find_dset-other c system dsname n d ds (same_text d.name dsname) known refl other in
          (r, past ∙ found, IsFirst-cons c system dsname d ds r differs first)
    ]

-- In a configuration that `create_conf` made without an error, the search of a `fetch` returns: the
-- first data set with the two names of the request, or none if no data set has them.
pub find_dset-IsFirst :
    (f : FileConf) (c : NvConfig) (system dsname : Text)
    → create_conf f ≡ ok (c, pos 0)
    → (r : Option NvDsts) × (find_dset c system dsname c.dsts ≡ ok r)
      × IsFirst c system dsname c.dsts r
find_dset-IsFirst f c system dsname h =
    find_dset-in c system dsname c.dsts (create_conf-HasSystems f c h)

-- A `fetch` that a client types finds, in a configuration that `create_conf` made without an error, only
-- data sets whose own name and whose system's name have no upper case letter: every other data set is
-- out of reach, since the whole line is put in lower case before the names are compared.
pub find_dset-lower :
    (f : FileConf) (c : NvConfig) (s system dsname : Text) (start end res : ℤ) (d : NvDsts)
    → create_conf f ≡ ok (c, pos 0)
    → parse_request s ≡ fetch system dsname start end res
    → find_dset c system dsname c.dsts ≡ ok (some d)
    → NoUpper d.name × ((n : Text) × (sys_name c d ≡ ok n) × NoUpper n)
find_dset-lower f c s system dsname start end res d made typed found =
    let (r, e, first) = find_dset-IsFirst f c system dsname made in
    let (low_system, low_dsname) = parse_request-lower s system dsname start end res typed in
    let (_, _, _, _, (same, at)) =
      subst (IsFirst c system dsname c.dsts) (ok_injective (sym e ∙ found)) first in
    (subst NoUpper (sym same) low_dsname, (system, at, low_system))
