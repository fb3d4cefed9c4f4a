-- ===== src/Net/Session/Total.antt =====
-- src/plugins/proto/net.c: when the thread of a client reaches the end of its input.
use netvizd.Common.{
  ℕ, suc, ◌≡◌, refl, sym, ap, ◌∙◌, Bool, true, false, List, [], ◌∷◌, Option, none, some, arith,
  Bool-cases, inl, inr, subst,
}
use netvizd.Common.Int.{ℤ, pos, ◌-ℤ◌, ◌*ℤ◌, leb_ℤ, quot}
use netvizd.Common.Text.{Text}
use netvizd.Common.Outcome.{Outcome, crash, ok, >>=-total}
use netvizd.Config.{NvDsts, NvConfig, FileConf}
use netvizd.Config.File.{create_conf}
use netvizd.Net.{
  Double, Request, blank, leave, fetch, enumerate, invalid, Row, Client, Report, start_client,
  calc_skip, set_skip, send_result,
}
use netvizd.Net.Session.{
  Message, Input, read_request, find_dset, send_data, fetch_data, answer, is_leave, then_serve,
  serve, client_thread,
}
use netvizd.Net.Session.Find.{find_dset-IsFirst}
use netvizd.Net.Session.Answers.{count_closing, count_requests, client_thread-closing}

-- The first two rows, if there are two, stand a positive number of seconds apart.
abbrev pub IsSpaced : {V : Type 0} → List (Row V) → Type 0
IsSpaced [] = Unit {0}
IsSpaced (d ∷ []) = Unit {0}
IsSpaced (d1 ∷ d2 ∷ ds) = (n : ℕ) × (d2.time -ℤ d1.time ≡ pos (suc n))

calc_skip-ok : (res : ℤ) (n : ℕ) → (k : ℤ) × (calc_skip res (pos (suc n)) ≡ ok k)
unfolding calc_skip
calc_skip-ok res n = elim (Bool-cases (leb_ℤ (res *ℤ pos 60) (pos (suc n)))) [
  | inl e ↦ (pos 1, rw e refl)
  | inr e ↦ (quot (res *ℤ pos 60) (pos (suc n)), rw e (ground arith))
]

some_injective : {A : Type 0} {a b : A} → some a ≡ some b → a ≡ b
some_injective h = cc

module _ (D : Double) where
  open D use {Value}

  set_skip-ok :
      (res : ℤ) (rows : List (Row Value)) (cl : Client Value)
      → IsSpaced rows
      → (cl' : Client Value) × (set_skip D res rows cl ≡ ok cl')
  unfolding set_skip
  set_skip-ok res [] cl k = (cl, refl)
  set_skip-ok res (d ∷ []) cl k = (cl, refl)
  set_skip-ok res (d1 ∷ d2 ∷ ds) cl (n, apart) =
      let (k, e) = calc_skip-ok res n in
      >>=-total (calc_skip res (d2.time -ℤ d1.time)) _ (ap (calc_skip res) apart ∙ e) (_, refl)

  send_result-ok :
      (res : ℤ) (rows : List (Row Value)) (cl : Client Value)
      → IsSpaced rows
      → (sent : Client Value × List (Report Value)) × (send_result D res rows cl ≡ ok sent)
  unfolding send_result
  send_result-ok res rows cl k =
      let (cl', e) = set_skip-ok res rows cl k in >>=-total (set_skip D res rows cl) _ e (_, refl)

module _ (D : Double) {W : Type 0}
    (get_ts_data : NvDsts → ℤ → ℤ → ℤ → W → Option (List (Row D.Value)) × W) (c : NvConfig)
    (finds : (system dsname : Text)
      → (r : Option NvDsts) × (find_dset c system dsname c.dsts ≡ ok r))
    (answers : (d : NvDsts) (start end res : ℤ) (w : W)
      → (rows : List (Row D.Value)) × ((get_ts_data d start end res w).0 ≡ some rows)
        × IsSpaced rows) where
  open D use {Value}

  send_data-ok :
      (res : ℤ) (cl : Client Value) (got : Option (List (Row Value)) × W) (rows : List (Row Value))
      → got.0 ≡ some rows
      → IsSpaced rows
      → (sent : (List (Message Value) × Client Value) × W) × (send_data D get_ts_data c res cl got
          ≡ ok sent)
  unfolding send_data
  send_data-ok res cl (none, w) rows e k = cc
  send_data-ok res cl (some rows', w) rows e k =
      let (sent, made) =
        send_result-ok D res rows' cl (subst IsSpaced (sym (some_injective e)) k) in
      >>=-total (send_result D res rows' cl) _ made (_, refl)

  fetch_data-ok :
      (start end res : ℤ) (cl : Client Value) (w : W) (found : Option NvDsts)
      → (sent : (List (Message Value) × Client Value) × W) × (fetch_data D get_ts_data c start end
            res cl w found
          ≡ ok sent)
  unfolding fetch_data
  fetch_data-ok start end res cl w none = (_, refl)
  fetch_data-ok start end res cl w (some d) =
      let (rows, e, k) = answers d start end res w in
      send_data-ok res cl (get_ts_data d start end res w) rows e k

  answer-ok :
      (request : Request) (cl : Client Value) (w : W)
      → (sent : (List (Message Value) × Client Value) × W) × (answer D get_ts_data c request cl w
          ≡ ok sent)
  unfolding answer
  answer-ok blank cl w = (_, refl)
  answer-ok leave cl w = (_, refl)
  answer-ok enumerate cl w = (_, refl)
  answer-ok invalid cl w = (_, refl)
  answer-ok (fetch sys dset start end res) cl w =
      let (found, e) = finds sys dset in
      >>=-total (find_dset c sys dset c.dsts) _ e (fetch_data-ok start end res cl w found)

  then_serve-ok :
      (b : Bool) (ms : List (Message Value)) (w : W) (rest : Outcome (List (Message Value) × W))
      (more : List (Message Value) × W)
      → rest ≡ ok more
      → (sent : List (Message Value) × W) × (then_serve D get_ts_data c b ms w rest ≡ ok sent)
  unfolding then_serve
  then_serve-ok true ms w rest more e = (_, refl)
  then_serve-ok false ms w crash more e = cc
  then_serve-ok false ms w (ok (ms', w')) more e = (_, refl)

  serve-ok :
      (inputs : List Input) (cl : Client Value) (w : W)
      → (sent : List (Message Value) × W) × (serve D get_ts_data c inputs cl w ≡ ok sent)
  unfolding serve
  serve-ok [] cl w = (_, refl)
  serve-ok (i ∷ is) cl w =
      let (((ms, cl'), w'), e) = answer-ok (read_request i) cl w in
      let (more, e') = serve-ok is cl' w' in
      >>=-total (answer D get_ts_data c (read_request i) cl w) _ e
        (then_serve-ok (is_leave (read_request i)) ms w' (serve D get_ts_data c is cl' w') more e')

module _ (D : Double) {W : Type 0}
    (get_ts_data : NvDsts → ℤ → ℤ → ℤ → W → Option (List (Row D.Value)) × W) where
  -- In a configuration that `create_conf` made without an error, and with a storage plugin that always
  -- answers, with rows of which the first two are a positive number of seconds apart: whatever a client
  -- sends, its thread reaches the end. Every line that is not blank, up to the first that leaves, has
  -- then had exactly one closing reply (goodbye, a completion, or the error), and no other reply is one.
  pub client_thread-answers :
      (f : FileConf) (c : NvConfig)
      → create_conf f ≡ ok (c, pos 0)
      → ((d : NvDsts) (start end res : ℤ) (w : W)
          → (rows : List (Row D.Value)) × ((get_ts_data d start end res w).0 ≡ some rows)
            × IsSpaced rows)
      → (inputs : List Input) (w : W)
      → (sent : List (Message D.Value) × W) × (client_thread D get_ts_data c inputs w ≡ ok sent)
        × (count_closing sent.0 ≡ count_requests inputs)
  unfolding client_thread
  client_thread-answers f c made answers inputs w =
      let finds : (system dsname : Text)
          → (r : Option NvDsts) × (find_dset c system dsname c.dsts ≡ ok r) =
        λ system dsname. let (r, e, _) = find_dset-IsFirst f c system dsname made in (r, e) in
      let (replies, e) = serve-ok D get_ts_data c finds answers inputs (start_client D) w in
      let whole : (sent : List (Message D.Value) × W) × (client_thread D get_ts_data c inputs w
            ≡ ok sent) =
        >>=-total (serve D get_ts_data c inputs (start_client D) w) _ e (_, refl) in
      (whole.0, whole.1, client_thread-closing D get_ts_data c inputs w whole.0 whole.1)
