-- ===== src/Net/Tests.antt =====
-- src/plugins/proto/net.c: runs of the parsing and of a `fetch`, with natural numbers for `double`.
use netvizd.Common.{ℕ, ◌+◌, ◌≤◌, ◌≡◌, refl, ◌↔◌, List, [], ◌∷◌, arith}
use netvizd.Common.Int.{pos, negsuc, ◌+ℤ◌, ◌-ℤ◌, ◌*ℤ◌, quot}
use netvizd.Common.Text.{codes, same_prefix, same_text, to_lower, next_token, until_nul, atoi}
use netvizd.Common.Outcome.{crash, ok}
use netvizd.Net.{
  Double, leave, fetch, invalid, parse_request, Row, Client, Report, start_client, send_result,
}
use netvizd.Net.Resolution.{IsAnswer, send_result-IsAnswer, send_result-crash}

abbrev pub whole_numbers : Double
whole_numbers = record { Value = ℕ; zero_value = 0; plus = λ a b. a + b }

abbrev pub row_at : ℕ → ℕ → Row ℕ
row_at t v = record { time = pos t; value = v; min = v; max = v }

abbrev pub three_rows : List (Row ℕ)
three_rows = row_at 0 5 ∷ row_at 60 7 ∷ row_at 120 9 ∷ []

abbrev fresh_client : Client ℕ
fresh_client = start_client whole_numbers

fetch-parsed :
    parse_request (codes "FETCH Rtr1\tatm 0 -300 2\r\n")
    ≡ fetch (codes "rtr1") (codes "atm") (pos 0) (negsuc 299) (pos 2)
unfolding parse_request same_prefix same_text to_lower next_token until_nul atoi
fetch-parsed = refl

fetch-short : parse_request (codes "fetch rtr1 atm 0 300") ≡ invalid
unfolding parse_request same_prefix same_text to_lower next_token until_nul atoi
fetch-short = refl

quit-longer : parse_request (codes "quitting now") ≡ leave
unfolding parse_request same_prefix same_text to_lower next_token until_nul
quit-longer = refl

-- Two minutes of rows that are a minute apart: a report to each two rows. The third row stays in the
-- tally, and the next `fetch` reports it.
three_rows-sent :
    send_result whole_numbers (pos 2) three_rows fresh_client
    ≡ ok (
      record { skip = pos 2; skipt = pos 1; skip_cnt = pos 2; tally = 9; midtime = pos 120 },
      record { time = pos 0; tally = 12; min = 7; max = 7 } ∷ [],
    )
unfolding send_result ◌*ℤ◌ ◌-ℤ◌ quot ◌+ℤ◌
three_rows-sent = refl

send_result-IsAnswer_example :
    (sent : Client ℕ × List (Report ℕ)) × (send_result whole_numbers (pos 2) three_rows fresh_client
      ≡ ok sent)
    × IsAnswer whole_numbers 2 60 three_rows 0 sent
unfolding ◌-ℤ◌
send_result-IsAnswer_example =
    send_result-IsAnswer whole_numbers 2 60 (row_at 0 5) (row_at 60 7) (row_at 120 9 ∷ [])
      fresh_client refl (omega arith)

send_result-crash_example :
    (send_result whole_numbers (pos 2) (row_at 60 5 ∷ row_at 60 7 ∷ []) fresh_client ≡ crash)
    ↔ ((pos 60 -ℤ pos 60 ≡ pos 0) × (1 ≤ 2))
send_result-crash_example =
    send_result-crash whole_numbers 2 (row_at 60 5) (row_at 60 7) [] fresh_client
