-- ===== src/Net.antt =====
-- src/plugins/proto/net.c: the text protocol. A `double` is an element of a type with a zero and an
-- addition; the answer of the storage plugin is a list of rows, whose nodes the sending loop frees as
-- NvList.list_clear does.
pub mod Listen
pub mod Parse
pub mod Send
pub mod Groups
pub mod Skip
pub mod Resolution
pub mod Session
pub mod Tests
use netvizd.Common.{
  ℕ, zero, suc, ◌+◌, Bool, true, false, ◌&&◌, ◌||◌, List, [], ◌∷◌, ◌++◌, map, Option, none, some,
  ◌==◌, if◌then◌else◌,
}
use netvizd.Common.Int.{ℤ, pos, negsuc, ◌+ℤ◌, ◌-ℤ◌, ◌*ℤ◌, quot, leb_ℤ, eq_ℤ}
use netvizd.Common.Text.{Text, codes, same_prefix, to_lower, atoi, next_token, until_nul}
use netvizd.Common.Outcome.{Outcome, crash, ok, ◌>>=◌}

-- `double`
pub record Double : Type 1 where
  pub Value : Type 0
  pub zero_value : Value
  pub plus : Value → Value → Value

-- The `char sep[]` of `client_thread`.
abbrev pub seps : Text
seps = b' ' ∷ 9 ∷ 13 ∷ 10 ∷ []

-- A line of input, as the parsing part of `client_thread` reads it.
pub data Request : Type 0 where
  blank : Request
  leave : Request
  fetch : (sys dset : Text) → (start end res : ℤ) → Request
  enumerate : Request
  invalid : Request

-- `strncmp(word, W, strlen(W)) == 0` for the five-letter and four-letter words.
pub is_quit : Text → Bool
unfolding same_prefix
is_quit word = same_prefix 4 word (codes "quit") || same_prefix 4 word (codes "exit")

pub is_fetch : Text → Bool
unfolding same_prefix
is_fetch word = same_prefix 5 word (codes "fetch")

pub is_enum : Text → Bool
unfolding same_prefix
is_enum word = same_prefix 4 word (codes "enum")

abbrev pub with_token : Option (Text × Text) → (Text → Text → Request) → Request
with_token none k = invalid
with_token (some (w, r)) k = k w r

abbrev pub no_token : Option (Text × Text) → Request → Request
no_token none q = q
no_token (some t) q = invalid

-- A missing word makes the request invalid.
abbrev pub token_or_invalid : Text → (Text → Text → Request) → Request
token_or_invalid s k = with_token (next_token seps s) k

-- A further word makes the request invalid.
abbrev pub last_token : Text → Request → Request
last_token s q = no_token (next_token seps s) q

pub fetch_request : Text → Request
unfolding next_token
fetch_request s = token_or_invalid s λ sys s1. token_or_invalid s1 λ dset s2.
    token_or_invalid s2 λ start s3. token_or_invalid s3 λ end s4.
      token_or_invalid s4
        λ res s5. last_token s5 (fetch sys dset (atoi start) (atoi end) (atoi res))

pub dispatch : Text → Text → Request
unfolding is_quit is_fetch is_enum fetch_request
dispatch word rest =
    if is_quit word
    then leave
    else if is_fetch word
    then fetch_request rest
    else if is_enum word
    then last_token rest enumerate
    else invalid

pub first_token : Option (Text × Text) → Request
unfolding dispatch
first_token none = blank
first_token (some (word, rest)) = dispatch word rest

-- The words of the buffer.
pub parse_words : Text → Request
unfolding first_token next_token
parse_words buf = first_token (next_token seps buf)

-- The `c` bytes that `readline` stored, in lower case, and then the words.
pub parse_request : Text → Request
unfolding parse_words to_lower until_nul
parse_request line = parse_words (until_nul (map to_lower line))

-- `struct nv_ts_data`
pub record Row (V : Type 0) : Type 0 where
  pub time : ℤ
  pub value : V
  pub min : V
  pub max : V

-- The variables of `client_thread` that outlive a request.
pub record Client (V : Type 0) : Type 0 where
  pub skip : ℤ
  pub skipt : ℤ
  pub skip_cnt : ℤ
  pub tally : V
  pub midtime : ℤ

-- The arguments of `MSG_103`.
pub record Report (V : Type 0) : Type 0 where
  pub time : ℤ
  pub tally : V
  pub min : V
  pub max : V

-- The frequency of rows to report, for two or more rows. The source keeps the difference of the first two
-- times in an `int`; it is exact here, and so is `res * 60`.
pub calc_skip : ℤ → ℤ → Outcome ℤ
calc_skip res diff =
    if leb_ℤ (res *ℤ pos 60) diff
    then ok (pos 1)
    else if eq_ℤ diff (pos 0)
    then crash
    else ok (quot (res *ℤ pos 60) diff)

-- The row of a group whose time is reported.
pub calc_skipt : ℤ → ℤ
calc_skipt skip =
    if eq_ℤ skip (pos 1)
    then pos 1
    else if eq_ℤ skip (pos 2)
    then pos 1
    else quot skip (pos 2) +ℤ pos 1

module _ (D : Double) where
  open D use {Value, zero_value, plus}

  abbrev pub start_client : Client Value
  start_client = record {
    skip = pos 0;
    skipt = pos 0;
    skip_cnt = pos 0;
    tally = zero_value;
    midtime = pos 0;
  }

  -- With fewer than two rows `skip` and `skipt` stay what they are.
  pub set_skip : ℤ → List (Row Value) → Client Value → Outcome (Client Value)
  unfolding calc_skip calc_skipt
  set_skip res [] c = ok c
  set_skip res (d ∷ []) c = ok c
  set_skip res (d1 ∷ d2 ∷ ds) c = do
    skip ← calc_skip res (d2.time -ℤ d1.time)
    ok (record c { skip = skip; skipt = calc_skipt skip })

  -- One round of the sending loop: the report, if it is time for one.
  pub send_row : Client Value → Row Value → Client Value × Option (Report Value)
  send_row c d =
      let tally = plus c.tally d.value in
      let midtime = if eq_ℤ c.skip_cnt c.skipt then d.time else c.midtime in
      if eq_ℤ c.skip_cnt c.skip
      then (
        record c { skip_cnt = pos 1; tally = zero_value; midtime = midtime },
        some (record { time = midtime; tally = tally; min = d.min; max = d.max }),
      )
      else (record c { skip_cnt = c.skip_cnt +ℤ pos 1; tally = tally; midtime = midtime }, none)

  abbrev pub cons_report : Option (Report Value) → List (Report Value) → List (Report Value)
  cons_report none rs = rs
  cons_report (some r) rs = r ∷ rs

  pub send_rows : Client Value → List (Row Value) → Client Value × List (Report Value)
  unfolding send_row
  send_rows c [] = (c, [])
  send_rows c (d ∷ ds) =
      let sent = send_row c d in
      let rest = send_rows sent.0 ds in (rest.0, cons_report sent.1 rest.1)

  -- A `fetch` from the answer of the storage plugin on.
  pub send_result :
      ℤ → List (Row Value) → Client Value → Outcome (Client Value × List (Report Value))
  unfolding set_skip send_rows
  send_result res rows c = do
    c' ← set_skip res rows c
    ok (send_rows (record c' { skip_cnt = pos 1 }) rows)
