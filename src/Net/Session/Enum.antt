-- ===== src/Net/Session/Enum.antt =====
-- src/plugins/proto/net.c: the data sets that an `enum` lists.
use netvizd.Common.{
  ℕ, zero, suc, ◌+◌, ◌≤◌, ◌<◌, ◌≡◌, refl, sym, ap, ◌∙◌, true, false, List, [], ◌∷◌, ◌++◌, Option,
  none, some, arith, ◌==◌, if◌then◌else◌, get_elem?, length, Bool-cases, inl, inr,
}
use netvizd.Common.Int.{pos}
use netvizd.Common.Text.{Text, same_text}
use netvizd.Common.Outcome.{ok, >>=-eq-ok}
use netvizd.Config.{NvSys, NvDsts, NvConfig, FileConf}
use netvizd.Config.File.{create_conf, deref}
use netvizd.Net.Session.{
  Message, msg_106, msg_107, of_system, sys_name, send_dsets, send_systems, send_enum,
}
use netvizd.Net.Session.Find.{HasSystems, create_conf-HasSystems}

abbrev pub count_named : Text → List NvDsts → ℕ
count_named n [] = 0
count_named n (d ∷ ds) = (if same_text n d.name then 1 else 0) + count_named n ds

module _ {V : Type 0} where
  abbrev pub is_listed : Text → Message V → ℕ
  is_listed n (msg_106 m) = if same_text n m then 1 else 0
  is_listed n _ = 0

  -- How often the replies list the data set name `n`.
  abbrev pub count_listed : Text → List (Message V) → ℕ
  count_listed n [] = 0
  count_listed n (m ∷ ms) = is_listed n m + count_listed n ms

  count_listed-append :
      (n : Text) (ms ns : List (Message V))
      → count_listed n (ms ++ ns) ≡ count_listed n ms + count_listed n ns
  count_listed-append n [] ns = omega arith
  count_listed-append n (m ∷ ms) ns = omega (arith, count_listed-append n ms ns)

-- The system of the data set stands at a position from `i` on, below `i + k`.
abbrev within : ℕ → ℕ → NvDsts → ℕ
within i zero d = 0
within i (suc k) d = (if of_system i d then 1 else 0) + within (i + 1) k d

count_within : Text → ℕ → ℕ → List NvDsts → ℕ
count_within n i k [] = 0
count_within n i k (d ∷ ds) =
    (if same_text n d.name then within i k d else 0) + count_within n i k ds

of_system-at : (i j : ℕ) (d : NvDsts) → d.sys ≡ some j → of_system i d ≡ (j == i)
unfolding of_system
of_system-at i j d e = ap (λ (p : Option ℕ). elim p [ none ↦ false | some m ↦ m == i ]) e

within-none : (i j k : ℕ) (d : NvDsts) → d.sys ≡ some j → j < i → within i k d ≡ 0
within-none i j zero d e h = refl
within-none i j (suc k) d e h =
    let rest = within-none (i + 1) j k d e (omega arith) in
    let here = of_system-at i j d e in ground arith

within-one : (i j k : ℕ) (d : NvDsts) → d.sys ≡ some j → i ≤ j → j < i + k → within i k d ≡ 1
within-one i j zero d e h1 h2 = absurd (omega arith)
within-one i j (suc k) d e h1 h2 =
    let here = of_system-at i j d e in
    elim (Bool-cases (j == i)) [
      | inl same ↦
          let rest = within-none (i + 1) j k d e (ground arith) in
          let yes : of_system i d ≡ true = here ∙ same in ground arith
      | inr other ↦
          let rest = within-one (i + 1) j k d e (ground arith) (ground arith) in
          let no_match : of_system i d ≡ false = here ∙ other in ground arith
    ]

count_within-zero : (n : Text) (i : ℕ) (ds : List NvDsts) → count_within n i 0 ds ≡ 0
unfolding count_within
count_within-zero n i [] = refl
count_within-zero n i (d ∷ ds) = let ih = count_within-zero n i ds in ground arith

count_within-suc :
    (n : Text) (i k : ℕ) (ds : List NvDsts)
    → count_within n i (suc k) ds ≡ count_within n i 1 ds + count_within n (i + 1) k ds
unfolding count_within
count_within-suc n i k [] = refl
count_within-suc n i k (d ∷ ds) = let ih = count_within-suc n i k ds in ground arith

module _ (V : Type 0) where
  send_dsets-count :
      (n : Text) (i : ℕ) (ds : List NvDsts)
      → count_listed n (send_dsets V i ds) ≡ count_within n i 1 ds
  unfolding send_dsets count_within
  send_dsets-count n i [] = refl
  send_dsets-count n i (d ∷ ds) = let ih = send_dsets-count n i ds in ground arith

  send_systems-count :
      (n : Text) (i : ℕ) (ss : List NvSys) (ds : List NvDsts)
      → count_listed n (send_systems V i ss ds) ≡ count_within n i (length ss) ds
  unfolding send_systems
  send_systems-count n i [] ds = sym (count_within-zero n i ds)
  send_systems-count n i (s ∷ ss) ds = omega (
    arith,
    count_listed-append n (send_dsets V i ds) (send_systems V (i + 1) ss ds),
    send_dsets-count n i ds,
    send_systems-count n (i + 1) ss ds,
    count_within-suc n i (length ss) ds,
  )

  send_enum-count :
      (n : Text) (c : NvConfig)
      → count_listed n (send_enum V c) ≡ count_within n 0 (length c.sys) c.dsts
  unfolding send_enum
  send_enum-count n c = omega (
    arith,
    count_listed-append n (send_systems V 0 c.sys c.dsts) (msg_107 ∷ []),
    send_systems-count n 0 c.sys c.dsts,
  )

get_elem?-below : (ss : List NvSys) (j : ℕ) (s : NvSys) → get_elem? ss j ≡ some s → j < length ss
get_elem?-below [] j s h = cc
get_elem?-below (x ∷ ss) zero s h = omega arith
get_elem?-below (x ∷ ss) (suc j) s h = omega (arith, get_elem?-below ss j s h)

deref-some : {A : Type 0} (o : Option A) (a : A) → deref o ≡ ok a → o ≡ some a
deref-some none a e = cc
deref-some (some b) a e = cc

sys_name-below :
    (c : NvConfig) (d : NvDsts) (n : Text)
    → sys_name c d ≡ ok n
    → (j : ℕ) × (d.sys ≡ some j) × (j < length c.sys)
unfolding sys_name
sys_name-below c d n h =
    let (j, at, h1) = >>=-eq-ok (deref d.sys) _ h in
    let (s, there, h2) = >>=-eq-ok (deref (get_elem? c.sys j)) _ h1 in
    (j, deref-some d.sys j at, get_elem?-below c.sys j s (deref-some (get_elem? c.sys j) s there))

count_within-all :
    (n : Text) (c : NvConfig) (ds : List NvDsts)
    → HasSystems c ds
    → count_within n 0 (length c.sys) ds ≡ count_named n ds
unfolding count_within
count_within-all n c [] k = refl
count_within-all n c (d ∷ ds) ((m, known), ks) =
    let (j, at, below) = sys_name-below c d m known in
    let one = within-one 0 j (length c.sys) d at (omega arith) (omega arith) in
    let ih = count_within-all n c ds ks in ground arith

-- In a configuration that `create_conf` made without an error, the reply to an `enum` lists every name
-- of a data set as often as there are data sets of that name.
pub send_enum_complete :
    (V : Type 0) (f : FileConf) (c : NvConfig) (n : Text)
    → create_conf f ≡ ok (c, pos 0)
    → count_listed n (send_enum V c) ≡ count_named n c.dsts
send_enum_complete V f c n h =
    send_enum-count V n c ∙ count_within-all n c c.dsts (create_conf-HasSystems f c h)
