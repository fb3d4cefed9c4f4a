-- ===== src/Net/Parse.antt =====
-- src/plugins/proto/net.c: the names in a request are in lower case.
use netvizd.Common.{
  ℕ, ◌≡◌, refl, subst, inl, inr, Bool, true, false, ◌&&◌, [], ◌∷◌, map, Option, none, some, arith,
  leb, if◌then◌else◌, ◌==◌, Bool-cases,
}
use netvizd.Common.Int.{ℤ}
use netvizd.Common.Text.{
  Text, to_lower, atoi, is_sep, skip_seps, span_word, take_token, next_token, until_nul,
}
use netvizd.Net.{
  seps, Request, leave, fetch, enumerate, invalid, is_quit, is_fetch, is_enum, with_token, no_token,
  first_token, token_or_invalid, last_token, fetch_request, dispatch, parse_words, parse_request,
}

some_injective : {A : Type 0} {a b : A} → some a ≡ some b → a ≡ b
some_injective h = cc

abbrev pub is_upper : ℕ → Bool
is_upper c = leb b'A' c && leb c b'Z'

-- No character is an upper case letter.
abbrev pub NoUpper : Text → Type 0
NoUpper [] = Unit {0}
NoUpper (c ∷ s) = (is_upper c ≡ false) × NoUpper s

to_lower-not_upper : (c : ℕ) → is_upper (to_lower c) ≡ false
unfolding to_lower
to_lower-not_upper c = ground arith

map-NoUpper : (s : Text) → NoUpper (map to_lower s)
map-NoUpper [] = tt
map-NoUpper (c ∷ s) = (to_lower-not_upper c, map-NoUpper s)

if-NoUpper : (b : Bool) (s t : Text) → NoUpper s → NoUpper t → NoUpper (if b then s else t)
if-NoUpper true s t h k = h
if-NoUpper false s t h k = k

until_nul-NoUpper : (s : Text) → NoUpper s → NoUpper (until_nul s)
unfolding until_nul
until_nul-NoUpper [] h = tt
until_nul-NoUpper (c ∷ s) (h, hs) =
    if-NoUpper (c == 0) [] (c ∷ until_nul s) tt (h, until_nul-NoUpper s hs)

skip_seps-NoUpper : (s : Text) → NoUpper s → NoUpper (skip_seps seps s)
unfolding skip_seps
skip_seps-NoUpper [] h = tt
skip_seps-NoUpper (c ∷ s) (h, hs) =
    if-NoUpper (is_sep seps c) (skip_seps seps s) (c ∷ s) (skip_seps-NoUpper s hs) (h, hs)

span_word-NoUpper :
    (s : Text) → NoUpper s → NoUpper (span_word seps s).0 × NoUpper (span_word seps s).1
unfolding span_word
span_word-NoUpper [] h = (tt, tt)
span_word-NoUpper (c ∷ s) (h, hs) = elim (Bool-cases (is_sep seps c)) [
  | inl e ↦ rw e (tt, hs)
  | inr e ↦ let rest = span_word-NoUpper s hs in rw e ((h, rest.0), rest.1)
]

take_token-NoUpper :
    (s w r : Text) → NoUpper s → take_token seps s ≡ some (w, r) → NoUpper w × NoUpper r
unfolding take_token
take_token-NoUpper [] w r h e = cc
take_token-NoUpper (c ∷ s) w r h e =
    subst (λ (p : Text × Text). NoUpper p.0 × NoUpper p.1) (some_injective e)
      (span_word-NoUpper (c ∷ s) h)

next_token-NoUpper :
    (s w r : Text) → NoUpper s → next_token seps s ≡ some (w, r) → NoUpper w × NoUpper r
unfolding next_token
next_token-NoUpper s w r h e = take_token-NoUpper (skip_seps seps s) w r (skip_seps-NoUpper s h) e

-- The names of a `fetch` are in lower case.
abbrev LowerNames : Request → Type 0
LowerNames (fetch sys dset start end res) = NoUpper sys × NoUpper dset
LowerNames _ = Unit {0}

with_token-LowerNames :
    (s : Text) (o : Option (Text × Text)) (k : Text → Text → Request)
    → NoUpper s
    → next_token seps s ≡ o
    → ((w r : Text) → NoUpper w → NoUpper r → LowerNames (k w r))
    → LowerNames (with_token o k)
with_token-LowerNames s none k h e step = tt
with_token-LowerNames s (some (w, r)) k h e step =
    let (hw, hr) = next_token-NoUpper s w r h e in step w r hw hr

token_or_invalid-LowerNames :
    (s : Text) (k : Text → Text → Request)
    → NoUpper s
    → ((w r : Text) → NoUpper w → NoUpper r → LowerNames (k w r))
    → LowerNames (token_or_invalid s k)
token_or_invalid-LowerNames s k h step = with_token-LowerNames s (next_token seps s) k h refl step

no_token-LowerNames :
    (o : Option (Text × Text)) (q : Request) → LowerNames q → LowerNames (no_token o q)
no_token-LowerNames none q h = h
no_token-LowerNames (some t) q h = tt

fetch_request-LowerNames : (s : Text) → NoUpper s → LowerNames (fetch_request s)
unfolding fetch_request
fetch_request-LowerNames s h = token_or_invalid-LowerNames s _ h λ sys s1 h1 k1.
    token_or_invalid-LowerNames s1 _ k1 λ dset s2 h2 k2.
      token_or_invalid-LowerNames s2 _ k2 λ start s3 h3 k3.
        token_or_invalid-LowerNames s3 _ k3 λ end s4 h4 k4.
          token_or_invalid-LowerNames s4 _ k4 λ res s5 h5 k5.
            no_token-LowerNames (next_token seps s5)
              (fetch sys dset (atoi start) (atoi end) (atoi res)) (h1, h2)

if-LowerNames :
    (b : Bool) (p q : Request) → LowerNames p → LowerNames q → LowerNames (if b then p else q)
if-LowerNames true p q h k = h
if-LowerNames false p q h k = k

dispatch-LowerNames : (word rest : Text) → NoUpper rest → LowerNames (dispatch word rest)
unfolding dispatch
dispatch-LowerNames word rest h = if-LowerNames (is_quit word) leave _ tt (
    if-LowerNames (is_fetch word) (fetch_request rest) _ (fetch_request-LowerNames rest h) (
      if-LowerNames (is_enum word) (last_token rest enumerate) invalid
        (no_token-LowerNames (next_token seps rest) enumerate tt) tt))

first_token-LowerNames :
    (s : Text) (o : Option (Text × Text))
    → NoUpper s
    → next_token seps s ≡ o
    → LowerNames (first_token o)
unfolding first_token
first_token-LowerNames s none h e = tt
first_token-LowerNames s (some (w, r)) h e =
    dispatch-LowerNames w r (next_token-NoUpper s w r h e).1

pub parse_request-lower :
    (s sys dset : Text) (start end res : ℤ)
    → parse_request s ≡ fetch sys dset start end res
    → NoUpper sys × NoUpper dset
unfolding parse_request parse_words
parse_request-lower s sys dset start end res e =
    let buf = until_nul (map to_lower s) in
    subst LowerNames e (
      first_token-LowerNames buf (next_token seps buf)
        (until_nul-NoUpper (map to_lower s) (map-NoUpper s)) refl)
