-- ===== src/Net/Session/Tests.antt =====
-- src/plugins/proto/net.c: sessions of a client with the configuration of the sample file.
use netvizd.Common.{ℕ, suc, ◌≡◌, refl, List, [], ◌∷◌, Option, some}
use netvizd.Common.Int.{ℤ, pos, ◌+ℤ◌, ◌-ℤ◌, ◌*ℤ◌, quot}
use netvizd.Common.Text.{Text, codes, same_prefix, same_text, to_lower, next_token, until_nul, atoi}
use netvizd.Common.Outcome.{ok}
use netvizd.Config.{NvDsts, NvConfig}
use netvizd.Config.File.Tests.{sample, built, sample-built}
use netvizd.Net.{Row, fetch, parse_request}
use netvizd.Net.Parse.{NoUpper}
use netvizd.Net.Session.{
  Message, msg_100, msg_101, msg_102, msg_103, msg_104, msg_105, msg_106, msg_107, msg_200, Input,
  line, sys_name, find_dset, send_enum, client_thread,
}
use netvizd.Net.Session.Find.{IsFirst, find_dset-IsFirst, find_dset-lower}
use netvizd.Net.Session.Enum.{count_listed, count_named, send_enum_complete}
use netvizd.Net.Session.Answers.{count_closing, count_requests}
use netvizd.Net.Session.Total.{client_thread-answers}
use netvizd.Net.Tests.{whole_numbers, three_rows}

-- A storage plugin that counts its calls.
abbrev three_always : NvDsts → ℤ → ℤ → ℤ → ℕ → Option (List (Row ℕ)) × ℕ
three_always d start end res n = (some three_rows, suc n)

abbrev talk : List Input
talk =
    line (codes "enum\r\n")
    ∷ line (codes "\r\n")
    ∷ line (codes "fetch rtr1 atm 0 300 2\r\n")
    ∷ line (codes "fetch rtr2 atm 0 300 2\r\n")
    ∷ line (codes "quit\r\n")
    ∷ line (codes "enum\r\n")
    ∷ []

talk-sent :
    client_thread whole_numbers three_always built talk 0
    ≡ ok (
      msg_100
          ∷ msg_101
          ∷ msg_105 (codes "rtr1") (codes "Router")
          ∷ msg_106 (codes "atm")
          ∷ msg_107
          ∷ msg_103 (record { time = pos 0; tally = 12; min = 7; max = 7 })
          ∷ msg_104
          ∷ msg_200
          ∷ msg_102
          ∷ [],
      1,
    )
unfolding client_thread same_prefix same_text to_lower next_token until_nul atoi ◌*ℤ◌ ◌-ℤ◌ quot ◌+ℤ◌
talk-sent = refl

client_thread-answers_example :
    (sent : List (Message ℕ) × ℕ) × (client_thread whole_numbers three_always built talk 0
      ≡ ok sent)
    × (count_closing sent.0 ≡ count_requests talk)
unfolding ◌-ℤ◌
client_thread-answers_example =
    client_thread-answers whole_numbers three_always sample built sample-built
      (λ d start end res w. (three_rows, refl, (59, refl))) talk 0

find_dset-IsFirst_example :
    (r : Option NvDsts) × (find_dset built (codes "rtr1") (codes "atm") built.dsts ≡ ok r)
    × IsFirst built (codes "rtr1") (codes "atm") built.dsts r
find_dset-IsFirst_example = find_dset-IsFirst sample built (codes "rtr1") (codes "atm") sample-built

abbrev atm : NvDsts
atm = record {
  name = codes "atm";
  type = netvizd.Config.ds_type_counter;
  cf = netvizd.Config.ds_cf_average;
  desc = codes "Incoming";
  sens = some 0;
  stor = some 0;
  sys = some 0;
}

atm-parsed :
    parse_request (codes "fetch RTR1 ATM 0 300 2\r\n")
    ≡ fetch (codes "rtr1") (codes "atm") (pos 0) (pos 300) (pos 2)
unfolding parse_request same_prefix same_text to_lower next_token until_nul atoi
atm-parsed = refl

atm-found : find_dset built (codes "rtr1") (codes "atm") built.dsts ≡ ok (some atm)
unfolding find_dset same_text
atm-found = refl

find_dset-lower_example :
    NoUpper (codes "atm") × ((n : Text) × (sys_name built atm ≡ ok n) × NoUpper n)
find_dset-lower_example =
    find_dset-lower sample built (codes "fetch RTR1 ATM 0 300 2\r\n") (codes "rtr1") (codes "atm")
      (pos 0) (pos 300) (pos 2) atm sample-built atm-parsed atm-found

send_enum_complete_example :
    count_listed (codes "atm") (send_enum ℕ built) ≡ count_named (codes "atm") built.dsts
send_enum_complete_example = send_enum_complete ℕ sample built (codes "atm") sample-built
