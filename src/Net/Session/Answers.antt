-- ===== src/Net/Session/Answers.antt =====
-- src/plugins/proto/net.c: which replies answer which requests.
use netvizd.Common.{
  ℕ, ◌+◌, ◌≡◌, refl, sym, ap, ◌∙◌, Bool, true, false, List, [], ◌∷◌, ◌++◌, map, Option, none, some,
  arith, if◌then◌else◌,
}
use netvizd.Common.Int.{ℤ}
use netvizd.Common.Outcome.{Outcome, crash, ok, >>=-eq-ok}
use netvizd.Config.{NvSys, NvDsts, NvConfig}
use netvizd.Config.File.Instances.{ok_injective}
use netvizd.Net.{
  Double, Request, blank, leave, fetch, enumerate, invalid, Row, Client, Report, start_client,
  send_result,
}
use netvizd.Net.Session.{
  Message, msg_102, msg_103, msg_104, msg_107, msg_200, Input, read_request, find_dset, send_dsets,
  send_systems, send_enum, send_data, fetch_data, answer, is_leave, then_serve, serve,
  client_thread,
}

module _ {V : Type 0} where
  -- The replies that end the answer to a request: goodbye, the two completions, and the error.
  abbrev pub closing : Message V → ℕ
  closing msg_102 = 1
  closing msg_104 = 1
  closing msg_107 = 1
  closing msg_200 = 1
  closing _ = 0

  abbrev pub count_closing : List (Message V) → ℕ
  count_closing [] = 0
  count_closing (m ∷ ms) = closing m + count_closing ms

  count_closing-append :
      (ms ns : List (Message V)) → count_closing (ms ++ ns) ≡ count_closing ms + count_closing ns
  count_closing-append [] ns = omega arith
  count_closing-append (m ∷ ms) ns = omega (arith, count_closing-append ms ns)

  count_closing-reports :
      (rs : List (Report V)) → count_closing (map msg_103 rs ++ msg_104 ∷ []) ≡ 1
  count_closing-reports [] = refl
  count_closing-reports (r ∷ rs) = omega (arith, count_closing-reports rs)

abbrev pub asks : Request → ℕ
asks blank = 0
asks _ = 1

-- The requests up to the first that leaves, blank lines aside.
abbrev pub count_requests : List Input → ℕ
count_requests [] = 0
count_requests (i ∷ is) =
    asks (read_request i) + (if is_leave (read_request i) then 0 else count_requests is)

module _ (V : Type 0) where
  count_closing-dsets : (i : ℕ) (ds : List NvDsts) → count_closing (send_dsets V i ds) ≡ 0
  unfolding send_dsets
  count_closing-dsets i [] = refl
  count_closing-dsets i (d ∷ ds) = let ih = count_closing-dsets i ds in ground arith

  count_closing-systems :
      (i : ℕ) (ss : List NvSys) (ds : List NvDsts) → count_closing (send_systems V i ss ds) ≡ 0
  unfolding send_systems
  count_closing-systems i [] ds = refl
  count_closing-systems i (s ∷ ss) ds = omega (
    arith,
    count_closing-append (send_dsets V i ds) (send_systems V (i + 1) ss ds),
    count_closing-dsets i ds,
    count_closing-systems (i + 1) ss ds,
  )

  count_closing-enum : (c : NvConfig) → count_closing (send_enum V c) ≡ 1
  unfolding send_enum
  count_closing-enum c = omega (
    arith,
    count_closing-append (send_systems V 0 c.sys c.dsts) (msg_107 ∷ []),
    count_closing-systems 0 c.sys c.dsts,
  )

module _ (D : Double) {W : Type 0}
    (get_ts_data : NvDsts → ℤ → ℤ → ℤ → W → Option (List (Row D.Value)) × W) (c : NvConfig) where
  open D use {Value}

  closing-of_ok :
      (ms : List (Message Value)) (cl : Client Value) (w : W)
      (sent : (List (Message Value) × Client Value) × W)
      → ok ((ms, cl), w) ≡ ok sent
      → count_closing sent.0.0 ≡ count_closing ms
  closing-of_ok ms cl w sent h =
      ap (λ (s : (List (Message Value) × Client Value) × W). count_closing s.0.0)
        (sym (ok_injective h))

  send_data-closing :
      (res : ℤ) (cl : Client Value) (got : Option (List (Row Value)) × W)
      (sent : (List (Message Value) × Client Value) × W)
      → send_data D get_ts_data c res cl got ≡ ok sent
      → count_closing sent.0.0 ≡ 1
  unfolding send_data
  send_data-closing res cl (none, w) sent h = cc
  send_data-closing res cl (some rows, w) sent h =
      let (made, _, h1) = >>=-eq-ok (send_result D res rows cl) _ h in
      closing-of_ok (map msg_103 made.1 ++ msg_104 ∷ []) made.0 w sent h1
      ∙ count_closing-reports made.1

  fetch_data-closing :
      (start end res : ℤ) (cl : Client Value) (w : W) (found : Option NvDsts)
      (sent : (List (Message Value) × Client Value) × W)
      → fetch_data D get_ts_data c start end res cl w found ≡ ok sent
      → count_closing sent.0.0 ≡ 1
  unfolding fetch_data
  fetch_data-closing start end res cl w none sent h = closing-of_ok (msg_200 ∷ []) cl w sent h
  fetch_data-closing start end res cl w (some d) sent h =
      send_data-closing res cl (get_ts_data d start end res w) sent h

  answer-closing :
      (request : Request) (cl : Client Value) (w : W)
      (sent : (List (Message Value) × Client Value) × W)
      → answer D get_ts_data c request cl w ≡ ok sent
      → count_closing sent.0.0 ≡ asks request
  unfolding answer
  answer-closing (fetch sys dset start end res) cl w sent h =
      let (found, _, h1) = >>=-eq-ok (find_dset c sys dset c.dsts) _ h in
      fetch_data-closing start end res cl w found sent h1
  answer-closing blank cl w sent h = closing-of_ok [] cl w sent h
  answer-closing leave cl w sent h = closing-of_ok (msg_102 ∷ []) cl w sent h
  answer-closing enumerate cl w sent h =
      closing-of_ok (send_enum Value c) cl w sent h ∙ count_closing-enum Value c
  answer-closing invalid cl w sent h = closing-of_ok (msg_200 ∷ []) cl w sent h

  then_serve-closing :
      (b : Bool) (ms : List (Message Value)) (w : W) (rest : Outcome (List (Message Value) × W))
      (sent : List (Message Value) × W) (n : ℕ)
      → then_serve D get_ts_data c b ms w rest ≡ ok sent
      → ((more : List (Message Value) × W) → rest ≡ ok more → count_closing more.0 ≡ n)
      → count_closing sent.0 ≡ count_closing ms + (if b then 0 else n)
  unfolding then_serve
  then_serve-closing true ms w rest sent n h k =
      ap (λ (s : List (Message Value) × W). count_closing s.0) (sym (ok_injective h)) ∙ omega arith
  then_serve-closing false ms w crash sent n h k = cc
  then_serve-closing false ms w (ok (more, w')) sent n h k =
      ap (λ (s : List (Message Value) × W). count_closing s.0) (sym (ok_injective h))
      ∙ (count_closing-append ms more ∙ ap (◌+◌ (count_closing ms)) (k (more, w') refl))

  serve-closing :
      (inputs : List Input) (cl : Client Value) (w : W) (sent : List (Message Value) × W)
      → serve D get_ts_data c inputs cl w ≡ ok sent
      → count_closing sent.0 ≡ count_requests inputs
  unfolding serve
  serve-closing [] cl w sent h =
      ap (λ (s : List (Message Value) × W). count_closing s.0) (sym (ok_injective h))
  serve-closing (i ∷ is) cl w sent h =
      let (((ms, cl'), w'), h1, h2) =
        >>=-eq-ok (answer D get_ts_data c (read_request i) cl w) _ h in
      then_serve-closing (is_leave (read_request i)) ms w' (serve D get_ts_data c is cl' w') sent
        (count_requests is) h2 (λ more e. serve-closing is cl' w' more e)
      ∙ ap (λ (n : ℕ). n + (if is_leave (read_request i) then 0 else count_requests is))
          (answer-closing (read_request i) cl w ((ms, cl'), w') h1)

  pub client_thread-closing :
      (inputs : List Input) (w : W) (sent : List (Message Value) × W)
      → client_thread D get_ts_data c inputs w ≡ ok sent
      → count_closing sent.0 ≡ count_requests inputs
  unfolding client_thread
  client_thread-closing inputs w sent h =
      let ((ms, w'), h1, h2) = >>=-eq-ok (serve D get_ts_data c inputs (start_client D) w) _ h in
      ap (λ (s : List (Message Value) × W). count_closing s.0) (sym (ok_injective h2))
      ∙ omega (arith, serve-closing inputs (start_client D) w (ms, w') h1)
