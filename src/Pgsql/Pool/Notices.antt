-- ===== src/Pgsql/Pool/Notices.antt =====
-- src/plugins/storage/pgsql_pool.c: what `pgsql_pool_thread` reports of its attempts to connect. The flags
-- are those of the repair loop; what the loop finds in each attempt is a list, whose end stands for the
-- wait for a bad connection that a shutdown ends.
use netvizd.Common.{
  ◌≡◌, refl, Bool, true, false, ◌&&◌, ◌||◌, Option, none, some, List, [], ◌∷◌, ◌++◌, if◌then◌else◌,
  Bool-cases, inl, inr,
}
use netvizd.Common.Int.{ℤ}
use netvizd.Pgsql.Pool.{is_zero}

pub data Phase : Type 0 where
  initialization repair : Phase

pub data Notice : Type 0 where
  begins : Phase → Notice
  ends : Phase → Notice

-- What `PQstatus` answers: the `switch` names two of its values.
pub data ConnStatus : Type 0 where
  connection_ok connection_bad connection_other : ConnStatus

-- `quit` at `retry`, whether `c->conn` is there, `quit` after the call, and, where the switch comes to it,
-- the status and `bad_num`, which is read without its lock.
pub record Attempt : Type 0 where
  pub quit : Bool
  pub opened : Bool
  pub quit_after : Bool
  pub status : ConnStatus
  pub bad_num : ℤ

pub record Flags : Type 0 where
  pub fail_report : Bool
  pub init_report : Bool

-- The two branches on `c->conn`: the flags, and what is logged above the level of debugging.
unfoldable pub begin_report : Bool → Flags → Flags × List Notice
begin_report opened f =
    if (f.fail_report || f.init_report)
    then (f, [])
    else if opened
    then (record f { fail_report = true }, begins repair ∷ [])
    else (record f { init_report = true }, begins initialization ∷ [])

-- The first case of the switch.
unfoldable pub end_report : ℤ → Flags → Flags × List Notice
end_report bad f =
    if (f.fail_report && is_zero bad)
    then (record f { fail_report = false }, ends repair ∷ [])
    else if (f.init_report && is_zero bad)
    then (record f { init_report = false }, ends initialization ∷ [])
    else (f, [])

unfoldable pub read_status : ConnStatus → ℤ → Flags → Flags × List Notice
unfolding end_report
read_status connection_ok bad f = end_report bad f
read_status connection_bad bad f = (f, [])
read_status connection_other bad f = (f, [])

unfoldable pub repair_rounds : List Attempt → Flags → List Notice
unfolding begin_report read_status
repair_rounds [] f = []
repair_rounds (a ∷ ts) f =
    let (g, first) = begin_report a.opened f in
    let (h, last) = read_status a.status a.bad_num g in
    let rest = repair_rounds ts h in
    if a.quit then [] else if a.quit_after then first else first ++ (last ++ rest)

unfoldable pub pgsql_pool_notices : List Attempt → List Notice
unfolding repair_rounds
pgsql_pool_notices ts = repair_rounds ts (record { fail_report = false; init_report = false })

-- The reference: at most one phase is open. An attempt outside a phase opens the one of its connection;
-- an attempt that succeeds and leaves no bad connection closes the phase that is open.
abbrev phase_of : Bool → Phase
phase_of opened = if opened then repair else initialization

abbrev all_up : ConnStatus → ℤ → Bool
all_up connection_ok bad = is_zero bad
all_up connection_bad bad = false
all_up connection_other bad = false

abbrev now : Bool → Option Phase → Phase
now opened none = phase_of opened
now opened (some p) = p

abbrev opening : Bool → Option Phase → List Notice
opening opened none = begins (phase_of opened) ∷ []
opening opened (some p) = []

abbrev pub phases : List Attempt → Option Phase → List Notice
phases [] o = []
phases (a ∷ ts) o =
    let p = now a.opened o in
    let up = all_up a.status a.bad_num in
    let rest = phases ts (if up then none else some p) in
    if a.quit
    then []
    else if a.quit_after
    then opening a.opened o
    else opening a.opened o ++ ((if up then ends p ∷ [] else []) ++ rest)

abbrev same_phase : Phase → Phase → Bool
same_phase initialization initialization = true
same_phase repair repair = true
same_phase p q = false

-- What begins ends, in order, before the next begins; the last may be left open.
abbrev pub is_paired : Option Phase → List Notice → Bool
is_paired o [] = true
is_paired none (begins p ∷ ns) = is_paired (some p) ns
is_paired none (ends p ∷ ns) = false
is_paired (some p) (begins q ∷ ns) = false
is_paired (some p) (ends q ∷ ns) = same_phase p q && is_paired none ns

abbrev flags_of : Option Phase → Flags
flags_of none = record { fail_report = false; init_report = false }
flags_of (some initialization) = record { fail_report = false; init_report = true }
flags_of (some repair) = record { fail_report = true; init_report = false }

begin_report-now :
    (opened : Bool) (o : Option Phase)
    → begin_report opened (flags_of o) ≡ (flags_of (some (now opened o)), opening opened o)
unfolding begin_report
begin_report-now false none = refl
begin_report-now true none = refl
begin_report-now opened (some initialization) = refl
begin_report-now opened (some repair) = refl

end_report-closes :
    (bad : ℤ) (p : Phase)
    → end_report bad (flags_of (some p))
      ≡ (flags_of (if is_zero bad then none else some p), if is_zero bad then ends p ∷ [] else [])
unfolding end_report
end_report-closes bad initialization = elim (Bool-cases (is_zero bad)) [
  | inl e ↦ rw e refl
  | inr e ↦ rw e refl
]
end_report-closes bad repair = elim (Bool-cases (is_zero bad)) [
  | inl e ↦ rw e refl
  | inr e ↦ rw e refl
]

read_status-closes :
    (status : ConnStatus) (bad : ℤ) (p : Phase)
    → read_status status bad (flags_of (some p)) ≡ (
      flags_of (if all_up status bad then none else some p),
      if all_up status bad then ends p ∷ [] else [],
    )
unfolding read_status
read_status-closes connection_ok bad p = end_report-closes bad p
read_status-closes connection_bad bad p = refl
read_status-closes connection_other bad p = refl

repair_rounds-phases :
    (ts : List Attempt) (o : Option Phase) → repair_rounds ts (flags_of o) ≡ phases ts o
unfolding repair_rounds
repair_rounds-phases [] o = refl
repair_rounds-phases (a ∷ ts) o =
    let p = now a.opened o in
    let rest = repair_rounds-phases ts (if all_up a.status a.bad_num then none else some p) in
    rw (begin_report-now a.opened o, read_status-closes a.status a.bad_num p, rest) refl

is_paired-nil : (o : Option Phase) → is_paired o [] ≡ true
is_paired-nil none = refl
is_paired-nil (some p) = refl

is_paired-closes :
    (up : Bool) (p : Phase) (rest : List Notice)
    → is_paired (if up then none else some p) rest ≡ true
    → is_paired (some p) ((if up then ends p ∷ [] else []) ++ rest) ≡ true
is_paired-closes false p rest h = h
is_paired-closes true initialization rest h = h
is_paired-closes true repair rest h = h

is_paired-opening :
    (opened : Bool) (o : Option Phase) (rest : List Notice)
    → is_paired (some (now opened o)) rest ≡ true
    → is_paired o (opening opened o ++ rest) ≡ true
is_paired-opening opened none rest h = h
is_paired-opening opened (some p) rest h = h

is_paired-leave : (opened : Bool) (o : Option Phase) → is_paired o (opening opened o) ≡ true
is_paired-leave opened none = refl
is_paired-leave opened (some p) = refl

phases-paired : (ts : List Attempt) (o : Option Phase) → is_paired o (phases ts o) ≡ true
phases-paired [] o = is_paired-nil o
phases-paired (a ∷ ts) o =
    let p = now a.opened o in
    let up = all_up a.status a.bad_num in
    let rest = phases-paired ts (if up then none else some p) in
    elim (Bool-cases a.quit) [
      | inl e ↦ rw e (is_paired-nil o)
      | inr e ↦ elim (Bool-cases a.quit_after) [
        | inl k ↦ rw (e, k) (is_paired-leave a.opened o)
        | inr k ↦ rw (e, k) (is_paired-opening a.opened o _ (is_paired-closes up p _ rest))
      ]
    ]

-- Whatever the repair loop finds, what it reports is what the reference reports: no two phases overlap, an
-- attempt outside a phase opens the one that its connection needs, and a phase is closed by the first
-- attempt that succeeds and finds no bad connection. So each notice of an end has one of a beginning of
-- the same phase right before it, and while the pool is initialised no repair is reported, however many
-- connections fail.
pub pgsql_pool_notices-phases :
    (ts : List Attempt)
    → (pgsql_pool_notices ts ≡ phases ts none) × (is_paired none (pgsql_pool_notices ts) ≡ true)
unfolding pgsql_pool_notices
pgsql_pool_notices-phases ts =
    let same = repair_rounds-phases ts none in (same, rw same (phases-paired ts none))
