-- ===== src/Net/Session.antt =====
-- src/plugins/proto/net.c: the main loop of `client_thread`. The storage plugin's `get_ts_data` is a
-- parameter, and so is the world that it reads.
pub mod Find
pub mod Enum
pub mod Answers
pub mod Total
mod Tests
use netvizd.Common.{
  ℕ, ◌+◌, Bool, true, false, List, [], ◌∷◌, ◌++◌, map, Option, none, some, ◌==◌, if◌then◌else◌,
  get_elem?,
}
use netvizd.Common.Int.{ℤ, pos}
use netvizd.Common.Text.{Text, same_text, until_nul}
use netvizd.Common.Outcome.{Outcome, crash, ok, ◌>>=◌}
use netvizd.Config.{NvSys, NvDsts, NvConfig}
use netvizd.Config.File.{deref}
use netvizd.Net.{
  Double, Request, blank, leave, fetch, enumerate, invalid, parse_request, parse_words, Row, Client,
  Report, start_client, send_result,
}

-- `MSG_100` to `MSG_107` and `MSG_200`.
pub data Message (V : Type 0) : Type 0 where
  msg_100 msg_101 msg_102 : Message V
  msg_103 : Report V → Message V
  msg_104 : Message V
  msg_105 : (name desc : Text) → Message V
  msg_106 : Text → Message V
  msg_107 : Message V
  msg_200 : Message V

-- A result of `readline` other than 0: the characters that it stored, or -1, which leaves what the
-- buffer holds.
pub data Input : Type 0 where
  line : Text → Input
  failed : (buf : Text) → Input

pub read_request : Input → Request
unfolding parse_request parse_words
read_request (line s) = parse_request s
read_request (failed buf) = parse_words (until_nul buf)

-- `d->sys->name`
pub sys_name : NvConfig → NvDsts → Outcome Text
sys_name c d = do i ← deref d.sys; s ← deref (get_elem? c.sys i); ok s.name

-- The search for a data set stops at the first match.
pub find_dset : NvConfig → Text → Text → List NvDsts → Outcome (Option NvDsts)
unfolding same_text sys_name
find_dset c system dsname [] = ok none
find_dset c system dsname (d ∷ ds) =
    let rest = find_dset c system dsname ds in
    if same_text d.name dsname
    then (do name ← sys_name c d; if same_text name system then ok (some d) else rest)
    else rest

-- `dsts->sys == sys`, for the system at position `i`.
pub of_system : ℕ → NvDsts → Bool
of_system i d = elim d.sys [ none ↦ false | some j ↦ j == i ]

module _ (V : Type 0) where
  pub send_dsets : ℕ → List NvDsts → List (Message V)
  unfolding of_system
  send_dsets i [] = []
  send_dsets i (d ∷ ds) =
      let rest = send_dsets i ds in if of_system i d then msg_106 d.name ∷ rest else rest

  -- The loop over the systems, from the one at position `i` on.
  pub send_systems : ℕ → List NvSys → List NvDsts → List (Message V)
  unfolding send_dsets
  send_systems i [] dsets = []
  send_systems i (s ∷ ss) dsets =
      msg_105 s.name s.desc ∷ send_dsets i dsets ++ send_systems (i + 1) ss dsets

  pub send_enum : NvConfig → List (Message V)
  unfolding send_systems
  send_enum c = send_systems 0 c.sys c.dsts ++ msg_107 ∷ []

pub is_leave : Request → Bool
is_leave leave = true
is_leave _ = false

module _ (D : Double) {W : Type 0}
    (get_ts_data : NvDsts → ℤ → ℤ → ℤ → W → Option (List (Row D.Value)) × W) (c : NvConfig) where
  open D use {Value}

  -- A result that is `NULL` is read through.
  pub send_data :
      ℤ
      → Client Value
      → Option (List (Row Value)) × W
      → Outcome ((List (Message Value) × Client Value) × W)
  unfolding send_result
  send_data res cl (none, w) = crash
  send_data res cl (some rows, w) = do
    sent ← send_result D res rows cl
    ok ((map msg_103 sent.1 ++ msg_104 ∷ [], sent.0), w)

  pub fetch_data :
      ℤ
      → ℤ
      → ℤ
      → Client Value
      → W
      → Option NvDsts
      → Outcome ((List (Message Value) × Client Value) × W)
  unfolding send_data
  fetch_data start end res cl w none = ok ((msg_200 ∷ [], cl), w)
  fetch_data start end res cl w (some d) = send_data res cl (get_ts_data d start end res w)

  -- A round of the main loop, for a request other than `leave`.
  pub answer : Request → Client Value → W → Outcome ((List (Message Value) × Client Value) × W)
  unfolding find_dset fetch_data send_enum
  answer blank cl w = ok (([], cl), w)
  answer leave cl w = ok ((msg_102 ∷ [], cl), w)
  answer (fetch sys dset start end res) cl w = do
    found ← find_dset c sys dset c.dsts
    fetch_data start end res cl w found
  answer enumerate cl w = ok ((send_enum Value c, cl), w)
  answer invalid cl w = ok ((msg_200 ∷ [], cl), w)

  -- The replies of a round before those of the rounds after it; `leave` ends the loop.
  pub then_serve :
      Bool
      → List (Message Value)
      → W
      → Outcome (List (Message Value) × W)
      → Outcome (List (Message Value) × W)
  then_serve true replies w rest = ok (replies, w)
  then_serve false replies w crash = crash
  then_serve false replies w (ok (more, w')) = ok (replies ++ more, w')

  -- The main loop; the inputs end where the client closes the connection.
  pub serve : List Input → Client Value → W → Outcome (List (Message Value) × W)
  unfolding answer is_leave read_request then_serve
  serve [] cl w = ok ([], w)
  serve (input ∷ inputs) cl w = do
    let request = read_request input
    ((replies, cl'), w') ← answer request cl w
    let rest = serve inputs cl' w'
    then_serve (is_leave request) replies w' rest

  pub client_thread : List Input → W → Outcome (List (Message Value) × W)
  unfolding serve
  client_thread inputs w = do
    (replies, w') ← serve inputs (start_client D) w
    ok (msg_100 ∷ msg_101 ∷ replies, w')
