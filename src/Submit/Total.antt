-- ===== src/Submit/Total.antt =====
-- src/sensor.c and src/storage.c: in a configuration that was read from a file, what a sensor submits
-- reaches the storage instance of each of its data sets.
use netvizd.Common.{
  ℕ, zero, suc, ◌<◌, ◌≡◌, refl, ap, subst, List, [], ◌∷◌, map, Option, none, some, arith, length,
  get_elem?,
}
use netvizd.Common.Int.{ℤ, pos}
use netvizd.Common.Text.{Text}
use netvizd.Common.Outcome.{ok, >>=-with}
use netvizd.Config.{Inst, NvSys, NvDsts, NvConfig, FileConf}
use netvizd.Config.File.{deref, create_conf}
use netvizd.Config.File.Instances.{Pairs, InstOk, names_of, inst_names}
use netvizd.Config.File.DataSets.{DsOk, StorageOk}
use netvizd.Config.File.Integrity.{create_conf-IsLinked}
use netvizd.Config.File.Members.{AllBelow, InstsBelow, create_conf-InstsBelow}
use netvizd.Submit.{
  Series, Call, series_of, call_of, stor_submit_ts_data, submit_all, sens_submit_ts_data,
}

-- The call for a data set goes to the plugin of its storage instance, with its two names.
pub record IsSeries (c : NvConfig) (d : NvDsts) (k : Series) : Type 0 where
  pub to_stor : (i : ℕ) × (d.stor ≡ some i) × (get_elem? c.stor i ≡ some k.stor)
  pub to_plug : (i : ℕ) × (k.stor.plug ≡ some i) × (get_elem? c.stor_p i ≡ some k.plug)
  pub to_sys :
      (i : ℕ) × (s : NvSys) × (d.sys ≡ some i) × (get_elem? c.sys i ≡ some s) × (k.sys ≡ s.name)
  pub same_name : k.name ≡ d.name

pub record IsCall {V : Type 0} (c : NvConfig) (d : NvDsts) (time : ℤ) (value : V) (k : Call V)
    : Type 0 where
  pub is_series : IsSeries c d k.series
  pub same_time : k.time ≡ time
  pub same_value : k.value ≡ value

-- One call to each position of a list of data sets, in order.
abbrev pub AreCalls : {V : Type 0} → NvConfig → List ℕ → ℤ → V → List (Call V) → Type 0
AreCalls c [] time value [] = Unit {0}
AreCalls c [] time value (k ∷ ks) = ⊥
AreCalls c (i ∷ is) time value [] = ⊥
AreCalls c (i ∷ is) time value (k ∷ ks) =
    ((d : NvDsts) × (get_elem? c.dsts i ≡ some d) × IsCall c d time value k)
    × AreCalls c is time value ks

abbrev pub call_all : {V W : Type 0} → (Call V → W → W) → List (Call V) → W → W
call_all f [] w = w
call_all f (k ∷ ks) w = call_all f ks (f k w)

deref-of : {A : Type 0} (o : Option A) (a : A) → o ≡ some a → deref o ≡ ok a
deref-of none a e = cc
deref-of (some b) a e = ap ok (some_injective e)
  where
    some_injective : some b ≡ some a → b ≡ a
    some_injective h = cc

get_elem?-total :
    {A : Type 0} (i : ℕ) (xs : List A) → i < length xs → (x : A) × (get_elem? xs i ≡ some x)
get_elem?-total i [] h = absurd (omega arith)
get_elem?-total zero (x ∷ xs) h = (x, refl)
get_elem?-total (suc i) (x ∷ xs) h = get_elem?-total i xs (omega arith)

get_elem?-map :
    {A : Type 0} (name : A → Text) (xs : List A) (i : ℕ) (n : Text)
    → get_elem? (map name xs) i ≡ some n
    → (x : A) × (get_elem? xs i ≡ some x)
get_elem?-map name [] i n h = cc
get_elem?-map name (x ∷ xs) zero n h = (x, refl)
get_elem?-map name (x ∷ xs) (suc i) n h = get_elem?-map name xs i n h

-- What holds of each pair holds of the element at a position.
Pairs-at :
    {A B : Type 0} (R : A → B → Type 0) (xs : List A) (ys : List B) (i : ℕ) (y : B)
    → Pairs R xs ys
    → get_elem? ys i ≡ some y
    → (x : A) × R x y
Pairs-at R [] [] i y k e = cc
Pairs-at R [] (z ∷ ys) i y k e = absurd k
Pairs-at R (x ∷ xs) [] i y k e = absurd k
Pairs-at R (x ∷ xs) (z ∷ ys) zero y (k, ks) e = (x, subst (R x) (same e) k)
  where
    same : some z ≡ some y → z ≡ y
    same h = cc
Pairs-at R (x ∷ xs) (z ∷ ys) (suc i) y (k, ks) e = Pairs-at R xs ys i y ks e

StorageOk-at :
    (want : Option Text) (names : List Text) (ptr : Option ℕ)
    → StorageOk want names ptr
    → (i : ℕ) × (n : Text) × (ptr ≡ some i) × (get_elem? names i ≡ some n)
StorageOk-at none names ptr k = absurd k
StorageOk-at (some want) names ptr (i, n, to, at, _) = (i, n, to, at)

InstsBelow-at :
    (n : ℕ) (cs : List Inst) (j : ℕ) (s : Inst)
    → InstsBelow n cs
    → get_elem? cs j ≡ some s
    → AllBelow n s.dsets
InstsBelow-at n [] j s k e = cc
InstsBelow-at n (c ∷ cs) zero s (h, k) e = subst (λ (x : Inst). AllBelow n x.dsets) (same e) h
  where
    same : some c ≡ some s → c ≡ s
    same e' = cc
InstsBelow-at n (c ∷ cs) (suc j) s (h, k) e = InstsBelow-at n cs j s k e

module _ (f : FileConf) (c : NvConfig) (made : create_conf f ≡ ok (c, pos 0)) where
  pub series_of-IsSeries :
      (i : ℕ) (d : NvDsts)
      → get_elem? c.dsts i ≡ some d
      → (k : Series) × (series_of c d ≡ ok k) × IsSeries c d k
  unfolding series_of
  series_of-IsSeries i d at =
      let linked = create_conf-IsLinked f c made in
      let (g, dok) = Pairs-at (DsOk c) f.data_sets c.dsts i d linked.data_sets at in
      let (j, n, to, at_n) = StorageOk-at g.storage (inst_names c.stor) d.stor dok.storage in
      let (stor, is_stor) = get_elem?-map (λ x. x.name) c.stor j n at_n in
      let (block, iok) =
        Pairs-at (InstOk (names_of c.stor_p)) f.storages c.stor j stor linked.storages is_stor in
      let (p, m, to_p, at_m, _) = iok.plug in
      let (plug, is_plug) = get_elem?-map (λ x. x.name) c.stor_p p m at_m in
      let (s, l, to_s, at_l, _) = dok.system in
      let (sys, is_sys) = get_elem?-map (λ x. x.name) c.sys s l at_l in
      let Q = IsSeries c d in
      >>=-with Q (deref d.stor) _ (deref-of d.stor j to) (
        >>=-with Q (deref (get_elem? c.stor j)) _ (deref-of (get_elem? c.stor j) stor is_stor) (
          >>=-with Q (deref stor.plug) _ (deref-of stor.plug p to_p) (
            >>=-with Q (deref (get_elem? c.stor_p p)) _
              (deref-of (get_elem? c.stor_p p) plug is_plug)
              (>>=-with Q (deref d.sys) _ (deref-of d.sys s to_s) (
                >>=-with Q (deref (get_elem? c.sys s)) _ (deref-of (get_elem? c.sys s) sys is_sys) (
                  _,
                  refl,
                  record {
                    to_stor = (j, to, is_stor);
                    to_plug = (p, to_p, is_plug);
                    to_sys = (s, sys, to_s, is_sys, refl);
                    same_name = refl;
                  },
                ))))))

  pub call_of-IsCall :
      {V : Type 0} (i : ℕ) (d : NvDsts) (time : ℤ) (value : V)
      → get_elem? c.dsts i ≡ some d
      → (k : Call V) × (call_of c d time value ≡ ok k) × IsCall c d time value k
  unfolding call_of
  call_of-IsCall i d time value at =
      let (s, e, is) = series_of-IsSeries i d at in
      >>=-with (IsCall c d time value) (series_of c d) _ e
        (_, refl, record { is_series = is; same_time = refl; same_value = refl })

module _ {V W : Type 0} (stor_ts_data : Call V → W → W) (f : FileConf) (c : NvConfig)
    (made : create_conf f ≡ ok (c, pos 0)) where
  submit_all-AreCalls :
      (is : List ℕ) (time : ℤ) (value : V) (w : W)
      → AllBelow (length c.dsts) is
      → (ks : List (Call V)) × (submit_all stor_ts_data c is time value w
          ≡ ok (call_all stor_ts_data ks w))
        × AreCalls c is time value ks
  unfolding submit_all stor_submit_ts_data
  submit_all-AreCalls [] time value w h = ([], refl, tt)
  submit_all-AreCalls (i ∷ is) time value w (h, hs) =
      let (d, at) = get_elem?-total i c.dsts h in
      let (k, e, is_call) = call_of-IsCall f c made i d time value at in
      let (ks, es, are) = submit_all-AreCalls is time value (stor_ts_data k w) hs in
      (k ∷ ks, rw (deref-of (get_elem? c.dsts i) d at, e) es, ((d, at, is_call), are))

-- In a configuration that `create_conf` made without an error, what a sensor instance submits reads
-- through no `NULL`: the world afterwards is that of one call of `stor_ts_data` to each data set of the
-- sensor's list, in order, with the plugin of the data set's storage instance and its two names.
pub sens_submit-AreCalls :
    {V W : Type 0} (stor_ts_data : Call V → W → W) (f : FileConf) (c : NvConfig) (j : ℕ) (s : Inst)
    (time : ℤ) (value : V) (w : W)
    → create_conf f ≡ ok (c, pos 0)
    → get_elem? c.sens j ≡ some s
    → (ks : List (Call V)) × (sens_submit_ts_data stor_ts_data c s time value w
        ≡ ok (call_all stor_ts_data ks w))
      × AreCalls c s.dsets time value ks
unfolding sens_submit_ts_data
sens_submit-AreCalls stor_ts_data f c j s time value w made at =
    submit_all-AreCalls stor_ts_data f c made s.dsets time value w
      (InstsBelow-at (length c.dsts) c.sens j s (create_conf-InstsBelow f (c, pos 0) made) at)
